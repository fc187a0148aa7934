-- ===== src/Crypto.antt =====
-- What OSCORE calls and this library does not define, as parameters: the generated CBOR
-- encoders (src/cbor, over zcbor) and the calls of TinyCrypt behind src/common/crypto_wrapper.c.
-- The wrappers `aead`, `hkdf_extract`, `hkdf_expand` and `hkdf_sha_256` are in the children.
pub mod Expand
pub mod Wrapper
use zephyr_uoscore_uedhoc.Prelude.{ℕ, Option}
use zephyr_uoscore_uedhoc.Memory.{Bytes, ByteArray}

-- `struct aad_array`, whose algorithm is always given as an integer
pub record AadArray : Type 0 where
  pub oscore_version : ℕ
  pub alg_aead : ℕ
  pub request_kid : ByteArray
  pub request_piv : ByteArray
  pub options : ByteArray

-- `struct oscore_info`, whose algorithm is always given as an integer; no ID context is `nil`
pub record OscoreInfo : Type 0 where
  pub id : ByteArray
  pub id_context : Option ByteArray
  pub alg_aead : ℕ
  pub type : Bytes
  pub l : ℕ

-- `struct oscore_enc_structure`
pub record EncStructure : Type 0 where
  pub context : Bytes
  pub protected : Bytes
  pub external_aad : ByteArray

-- An encoder is given the size of its buffer, and returns the bytes that it wrote, or nothing
-- where it returns false. The calls of TinyCrypt return nothing where they do not return 1.
pub record External : Type 0 where
  pub cbor_encode_aad_array : ℕ → AadArray → Option Bytes
  pub cbor_encode_oscore_info : ℕ → OscoreInfo → Option Bytes
  pub cbor_encode_oscore_enc_structure : ℕ → EncStructure → Option Bytes
  -- key, nonce, tag length, associated data, message: ciphertext and tag, or the plaintext
  pub tc_ccm_generation_encryption : Bytes → Bytes → ℕ → Bytes → Bytes → Option Bytes
  pub tc_ccm_decryption_verification : Bytes → Bytes → ℕ → Bytes → Bytes → Option Bytes
  -- key, message: the 32 bytes of HMAC-SHA-256
  pub tc_hmac : Bytes → Bytes → Option Bytes
