-- ===== src/Edhoc/Transcript.antt =====
-- The transcript hashes: src/edhoc/th.c.
use zephyr_uoscore_uedhoc.Prelude.{ℕ, ◌+◌, length, u32}
use zephyr_uoscore_uedhoc.Memory.{Bytes, Result, ◌>>=◌, ◌>>◌, check_buffer_size}
use zephyr_uoscore_uedhoc.Crypto.Wrapper.{expect}
use zephyr_uoscore_uedhoc.Edhoc.Suites.{HashAlg, Cx}
use zephyr_uoscore_uedhoc.Edhoc.Coders.{EdhocExternal}
use zephyr_uoscore_uedhoc.Edhoc.Wrapper.{hash}

-- `TH2_INPUT_DEFAULT_SIZE`
abbrev pub th2_input_default_size : ℕ
th2_input_default_size = 297

-- `TH3_INPUT_DEFAULT_SIZE` and `TH4_INPUT_DEFAULT_SIZE`
abbrev pub th3_input_default_size : ℕ
th3_input_default_size = 682

-- `ENCODING_OVERHEAD`
abbrev pub encoding_overhead : ℕ
encoding_overhead = 6

module _ (ex : EdhocExternal) where
  unfoldable pub th2_input_encode : Bytes → Bytes → Cx → ℕ → Result Bytes
  th2_input_encode hash_msg1 g_y c_r th2_input_len =
      expect
        (ex.cbor_encode_th2 th2_input_len (record { hash_msg1 = hash_msg1; g_y = g_y; c_r = c_r }))

  unfoldable pub th3_input_encode : Bytes → Bytes → ℕ → Result Bytes
  th3_input_encode th2 ciphertext_2 th3_input_len =
      expect (ex.cbor_encode_th3 th3_input_len (th2, ciphertext_2))

  unfoldable pub th4_input_encode : Bytes → Bytes → ℕ → Result Bytes
  th4_input_encode th3 ciphertext_3 th4_input_len =
      expect (ex.cbor_encode_th4 th4_input_len (th3, ciphertext_3))

  unfoldable pub th2_calculate : HashAlg → Bytes → Bytes → Cx → Result Bytes
  th2_calculate alg msg1 g_y c_r = do
    hash_msg1 ← hash ex alg msg1
    th2_input ← th2_input_encode hash_msg1 g_y c_r th2_input_default_size
    hash ex alg th2_input

  unfoldable pub th3_calculate : HashAlg → Bytes → Bytes → Result Bytes
  th3_calculate alg th2 ciphertext_2 =
      let th3_input_len = u32 (length th2 + length ciphertext_2 + 6) in
      do
        check_buffer_size th3_input_default_size th3_input_len
        th3_input ← th3_input_encode th2 ciphertext_2 th3_input_len
        hash ex alg th3_input

  unfoldable pub th4_calculate : HashAlg → Bytes → Bytes → Result Bytes
  th4_calculate alg th3 ciphertext_3 =
      let th4_input_len = u32 (length th3 + length ciphertext_3 + encoding_overhead) in
      do
        check_buffer_size th3_input_default_size th4_input_len
        th4_input ← th4_input_encode th3 ciphertext_3 th4_input_len
        hash ex alg th4_input
