-- ===== src/Edhoc/Ciphertext.antt =====
-- The ciphertexts of messages 2, 3 and 4: src/edhoc/ciphertext.c.
use zephyr_uoscore_uedhoc.Prelude.{
  ℕ, zero, suc, ◌+◌, ◌==◌, Bool, true, false, length, [], ◌∷◌, if◌then◌else◌, u32, sub32, bit_xor,
}
use zephyr_uoscore_uedhoc.Memory.{
  Bytes, of_bytes, Result, ok, fault, ◌>>=◌, ◌>>◌, check_buffer_size, append_s, store,
}
use zephyr_uoscore_uedhoc.Crypto.Wrapper.{aead_encrypt, aead_decrypt}
use zephyr_uoscore_uedhoc.Edhoc.Suites.{
  Suite, HashAlg, get_aead_key_len, get_aead_iv_len, get_aead_mac_len,
}
use zephyr_uoscore_uedhoc.Edhoc.Coders.{EdhocExternal}
use zephyr_uoscore_uedhoc.Edhoc.Keys.{okm_calc, edhoc_exporter, associated_data_encode}
use zephyr_uoscore_uedhoc.Edhoc.Authentication.{encode_byte_string, decode_byte_string}
use zephyr_uoscore_uedhoc.Edhoc.Plaintext.{
  SplitPlaintext, plaintext_split, id_cred2kid, plaintext_default_size, kid_default_size,
}

-- `enum ciphertext`
pub data Ciphertext : Type 0 where
  ciphertext2 ciphertext3 ciphertext4 : Ciphertext

-- `CIPHERTEXT2_DEFAULT_SIZE`, and the same for the other two
abbrev pub ciphertext_default_size : ℕ
ciphertext_default_size = 650

-- "KEYSTREAM_2", "K_3", "IV_3", "EDHOC_K_4" and "EDHOC_IV_4"
abbrev pub keystream_2 : Bytes
keystream_2 = 75 ∷ 69 ∷ 89 ∷ 83 ∷ 84 ∷ 82 ∷ 69 ∷ 65 ∷ 77 ∷ 95 ∷ 50 ∷ []

abbrev pub k_3 : Bytes
k_3 = 75 ∷ 95 ∷ 51 ∷ []

abbrev pub iv_3 : Bytes
iv_3 = 73 ∷ 86 ∷ 95 ∷ 51 ∷ []

abbrev pub edhoc_k_4 : Bytes
edhoc_k_4 = 69 ∷ 68 ∷ 72 ∷ 79 ∷ 67 ∷ 95 ∷ 75 ∷ 95 ∷ 52 ∷ []

abbrev pub edhoc_iv_4 : Bytes
edhoc_iv_4 = 69 ∷ 68 ∷ 72 ∷ 79 ∷ 67 ∷ 95 ∷ 73 ∷ 86 ∷ 95 ∷ 52 ∷ []

-- The generated key, and the IV where there is one
pub record KeyIv : Type 0 where
  pub key : Bytes
  pub iv : Bytes

-- `xor_arrays`: `len` bytes of both arrays
unfoldable pub xor_arrays : Bytes → Bytes → ℕ → Result Bytes
xor_arrays in1 in2 zero = ok []
xor_arrays [] in2 (suc len) = fault
xor_arrays (x ∷ in1) [] (suc len) = fault
xor_arrays (x ∷ in1) (y ∷ in2) (suc len) = do rest ← xor_arrays in1 in2 len; ok (bit_xor x y ∷ rest)

abbrev pub is_ciphertext4 : Ciphertext → Bool
is_ciphertext4 ciphertext4 = true
is_ciphertext4 _ = false

abbrev pub is_ciphertext2 : Ciphertext → Bool
is_ciphertext2 ciphertext2 = true
is_ciphertext2 _ = false

-- The length of the key for a text of `text_len` bytes
unfoldable pub key_length : Ciphertext → Suite → ℕ → ℕ
key_length ctxt suite text_len =
    if is_ciphertext2 ctxt then text_len else get_aead_key_len suite.edhoc_aead

module _ (ex : EdhocExternal) where
  abbrev pub key_gen : Ciphertext → HashAlg → Bytes → Bytes → ℕ → ℕ → Result KeyIv
  key_gen ciphertext2 edhoc_hash prk th key_len iv_len = do
    key ← okm_calc ex edhoc_hash prk th keystream_2 [] key_len
    ok (record { key = key; iv = [] })
  key_gen ciphertext3 edhoc_hash prk th key_len iv_len = do
    key ← okm_calc ex edhoc_hash prk th k_3 [] key_len
    iv ← okm_calc ex edhoc_hash prk th iv_3 [] iv_len
    ok (record { key = key; iv = iv })
  key_gen ciphertext4 edhoc_hash prk th key_len iv_len = do
    key ← edhoc_exporter ex edhoc_hash prk th edhoc_k_4 key_len
    iv ← edhoc_exporter ex edhoc_hash prk th edhoc_iv_4 iv_len
    ok (record { key = key; iv = iv })

  -- The checks of the lengths of key and IV, and `key_gen`
  unfoldable pub keys_for : Ciphertext → Suite → Bytes → Bytes → ℕ → Result KeyIv
  keys_for ctxt suite prk th text_len = do
    check_buffer_size ciphertext_default_size (key_length ctxt suite text_len)
    check_buffer_size 13 (get_aead_iv_len suite.edhoc_aead)
    key_gen ctxt suite.edhoc_hash prk th (key_length ctxt suite text_len)
        (get_aead_iv_len suite.edhoc_aead)

  -- `ciphertext_encrypt_decrypt` with the operation ENCRYPT, and with DECRYPT
  unfoldable pub ciphertext_encrypt : Ciphertext → Bytes → ℕ → KeyIv → Bytes → ℕ → ℕ → Result Bytes
  ciphertext_encrypt ctxt in_ key_len keys aad out_len tag_len =
      if is_ciphertext2 ctxt
      then xor_arrays in_ keys.key key_len
      else aead_encrypt ex.crypto (of_bytes in_) (of_bytes keys.key) (of_bytes keys.iv)
          (of_bytes aad) out_len tag_len

  unfoldable pub ciphertext_decrypt : Ciphertext → Bytes → ℕ → KeyIv → Bytes → ℕ → ℕ → Result Bytes
  ciphertext_decrypt ctxt in_ key_len keys aad out_len tag_len =
      if is_ciphertext2 ctxt
      then xor_arrays in_ keys.key key_len
      else aead_decrypt ex.crypto (of_bytes in_) (of_bytes keys.key) (of_bytes keys.iv)
          (of_bytes aad) out_len tag_len

  -- What is in the plaintext; message 4 has only the external authorization data.
  unfoldable pub split_plaintext : Ciphertext → Bytes → ℕ → ℕ → ℕ → ℕ → Result SplitPlaintext
  split_plaintext ctxt plaintext plaintext_len id_cred_len sign_or_mac_len ead_len =
      if is_ciphertext4 ctxt
      then (if plaintext_len == 0
          then ok (record { id_cred_x = of_bytes []; sign_or_mac = []; ad = [] })
          else (do
            ead ← decode_byte_string ex plaintext ead_len
            ok (record { id_cred_x = of_bytes []; sign_or_mac = []; ad = ead })))
      else plaintext_split ex plaintext id_cred_len sign_or_mac_len ead_len

  unfoldable pub text_length : Ciphertext → Suite → ℕ → ℕ
  text_length ctxt suite ciphertext_len =
      if is_ciphertext2 ctxt
      then ciphertext_len
      else sub32 ciphertext_len (get_aead_mac_len suite.edhoc_aead)

  unfoldable pub ciphertext_decrypt_split :
      Ciphertext → Suite → ℕ → ℕ → ℕ → Bytes → Bytes → Bytes → Result SplitPlaintext
  ciphertext_decrypt_split ctxt suite id_cred_len sign_or_mac_len ead_len prk th ciphertext =
      let plaintext_len = text_length ctxt suite (length ciphertext) in
      do
        keys ← keys_for ctxt suite prk th (length ciphertext)
        aad ← associated_data_encode ex th 64
        check_buffer_size plaintext_default_size plaintext_len
        plaintext ←
            ciphertext_decrypt ctxt ciphertext (key_length ctxt suite (length ciphertext)) keys aad
              plaintext_len (get_aead_mac_len suite.edhoc_aead)
        split_plaintext ctxt plaintext plaintext_len id_cred_len sign_or_mac_len ead_len

  -- ID_CRED_x, or its key identifier, with the encoded signature or MAC behind it
  unfoldable pub gen_id_and_mac : Ciphertext → Bytes → Bytes → Result Bytes
  gen_id_and_mac ctxt id_cred enc = if is_ciphertext4 ctxt then ok [] else (do
    kid ← id_cred2kid ex id_cred kid_default_size
    let id = if length kid == 0 then id_cred else kid
    a ← append_s plaintext_default_size [] plaintext_default_size id (length id)
    append_s plaintext_default_size a (sub32 plaintext_default_size (length id)) enc (length enc))

  -- The external authorization data is appended as it is.
  unfoldable pub gen_ead : Bytes → Bytes → Result Bytes
  gen_ead plaintext ead =
      if length ead == 0
      then ok plaintext
      else append_s plaintext_default_size plaintext
          (sub32 plaintext_default_size (length plaintext)) ead (length ead)

  unfoldable pub gen_plaintext : Ciphertext → Bytes → Bytes → Bytes → Result Bytes
  gen_plaintext ctxt id_cred signature_or_mac ead = do
    check_buffer_size 128 (u32 (length signature_or_mac + 2))
    enc ← encode_byte_string ex signature_or_mac (u32 (length signature_or_mac + 2))
    plaintext ← gen_id_and_mac ctxt id_cred enc
    gen_ead plaintext ead

  abbrev pub gen_aad : Ciphertext → Bytes → Result Bytes
  gen_aad ciphertext2 th = ok []
  gen_aad ciphertext3 th = associated_data_encode ex th 64
  gen_aad ciphertext4 th = associated_data_encode ex th 64

  -- Into a buffer of `CIPHERTEXTx_DEFAULT_SIZE` bytes, whose size is not checked.
  unfoldable pub ciphertext_gen :
      Ciphertext → Suite → Bytes → Bytes → Bytes → Bytes → Bytes → Result Bytes
  ciphertext_gen ctxt suite id_cred signature_or_mac ead prk th = do
    plaintext ← gen_plaintext ctxt id_cred signature_or_mac ead
    keys ← keys_for ctxt suite prk th (length plaintext)
    check_buffer_size 16 (get_aead_mac_len suite.edhoc_aead)
    aad ← gen_aad ctxt th
    out ←
        ciphertext_encrypt ctxt plaintext (key_length ctxt suite (length plaintext)) keys aad
          (length plaintext) (get_aead_mac_len suite.edhoc_aead)
    store ciphertext_default_size [] out
