-- ===== src/Context/Cose.antt =====
-- src/oscore/oscore_cose.c and src/oscore/aad.c.
use zephyr_uoscore_uedhoc.Prelude.{ℕ, ◌+◌, Option, none, some, List, [], ◌∷◌, u32, sub32}
use zephyr_uoscore_uedhoc.Memory.{
  Bytes, ByteArray, of_bytes, Result, ok, err, ◌>>=◌, ◌>>◌, check_buffer_size, cbor_encoding_error,
}
use zephyr_uoscore_uedhoc.Coap.{CoapOption}
use zephyr_uoscore_uedhoc.Context.{auth_tag_len, max_aad_len}
use zephyr_uoscore_uedhoc.Crypto.{External}
use zephyr_uoscore_uedhoc.Crypto.Wrapper.{aead_encrypt, aead_decrypt, expect}
use zephyr_uoscore_uedhoc.Options.Encoding.{encoded_option_len, encode_options}
use zephyr_uoscore_uedhoc.Options.{class_i}

abbrev pub encrypt0_encoding_overhead : ℕ
encrypt0_encoding_overhead = 16

abbrev pub max_i_options : ℕ
max_i_options = 30

-- "Encrypt0"
abbrev pub encrypt0 : Bytes
encrypt0 = b'E' ∷ b'n' ∷ b'c' ∷ b'r' ∷ b'y' ∷ b'p' ∷ b't' ∷ b'0' ∷ []

abbrev pub encoded : Option Bytes → Result ByteArray
encoded none = err cbor_encoding_error
encoded (some b) = ok (of_bytes b)

module _ (ex : External) where
  -- Into a buffer of `out_len` bytes.
  unfoldable pub create_enc_structure : ByteArray → ℕ → Result ByteArray
  create_enc_structure external_aad out_len = encoded (
      ex.cbor_encode_oscore_enc_structure out_len
        (record { context = encrypt0; protected = []; external_aad = external_aad }))

  unfoldable pub oscore_cose_decrypt :
      ByteArray → ℕ → ByteArray → ByteArray → ByteArray → Result Bytes
  unfolding create_enc_structure
  oscore_cose_decrypt in_ciphertext out_len nonce recipient_aad key = do
    let aad_len = u32 (recipient_aad.len + encrypt0_encoding_overhead)
    check_buffer_size max_aad_len aad_len
    aad ← create_enc_structure recipient_aad aad_len
    aead_decrypt ex in_ciphertext key nonce aad out_len auth_tag_len

  unfoldable pub oscore_cose_encrypt :
      ByteArray → ℕ → ByteArray → ByteArray → ByteArray → Result Bytes
  unfolding create_enc_structure
  oscore_cose_encrypt in_plaintext out_ciphertext_len nonce sender_aad key = do
    let aad_len = u32 (sender_aad.len + encrypt0_encoding_overhead)
    check_buffer_size max_aad_len aad_len
    aad ← create_enc_structure sender_aad aad_len
    aead_encrypt ex in_plaintext key nonce aad (sub32 out_ciphertext_len auth_tag_len) auth_tag_len

  -- `out_len` is the length of the AAD before, and the size that the encoder is given.
  unfoldable pub create_aad : List CoapOption → ℕ → ByteArray → ByteArray → ℕ → Result ByteArray
  create_aad options aead_alg kid piv out_len = do
    let len = encoded_option_len options class_i
    check_buffer_size max_i_options len
    opts ← encode_options options class_i len
    bytes ← expect (
        ex.cbor_encode_aad_array out_len (record {
          oscore_version = 1;
          alg_aead = aead_alg;
          request_kid = kid;
          request_piv = piv;
          options = record { len = len; ptr = opts };
        }))
    ok (of_bytes bytes)
