-- ===== src/Edhoc/Suites.antt =====
-- src/edhoc/suites.c, inc/edhoc/suites.h, src/edhoc/edhoc_method_type.c and src/edhoc/c_x.c.
-- An enumeration has one more constructor for the values that are none of its enumerators.
use zephyr_uoscore_uedhoc.Prelude.{ℕ, Option, some, Bool, true, false, ◌==◌, if◌then◌else◌, []}
use zephyr_uoscore_uedhoc.Memory.{
  Bytes, Result, ok, err, ◌>>=◌, ◌>>◌, check_buffer_size, read, store, unsupported_cipher_suite,
}

-- `enum aead_alg`
pub data AeadAlg : Type 0 where
  aes_ccm_16_64_128 aes_ccm_16_128_128 other_aead : AeadAlg

-- `enum hash_alg`
pub data HashAlg : Type 0 where
  sha_256 other_hash : HashAlg

-- `enum ecdh_alg`
pub data EcdhAlg : Type 0 where
  p256 x25519 other_ecdh : EcdhAlg

-- `enum sign_alg`
pub data SignAlg : Type 0 where
  es256 eddsa other_sign : SignAlg

-- `struct suite`; the MAC length is the value of its enumerator
pub record Suite : Type 0 where
  pub suite_label : ℕ
  pub edhoc_aead : AeadAlg
  pub edhoc_hash : HashAlg
  pub edhoc_mac_len_static_dh : ℕ
  pub edhoc_ecdh : EcdhAlg
  pub edhoc_sign : SignAlg
  pub app_aead : AeadAlg
  pub app_hash : HashAlg

abbrev pub suite_of : ℕ → AeadAlg → ℕ → EcdhAlg → SignAlg → Suite
suite_of label aead mac_len ecdh sign_alg = record {
  suite_label = label;
  edhoc_aead = aead;
  edhoc_hash = sha_256;
  edhoc_mac_len_static_dh = mac_len;
  edhoc_ecdh = ecdh;
  edhoc_sign = sign_alg;
  app_aead = aes_ccm_16_64_128;
  app_hash = sha_256;
}

unfoldable pub get_suite : ℕ → Result Suite
get_suite label =
    if label == 0
    then ok (suite_of 0 aes_ccm_16_64_128 8 x25519 eddsa)
    else if label == 1
    then ok (suite_of 1 aes_ccm_16_128_128 16 x25519 eddsa)
    else if label == 2
    then ok (suite_of 2 aes_ccm_16_64_128 8 p256 es256)
    else if label == 3
    then ok (suite_of 3 aes_ccm_16_128_128 16 p256 es256)
    else err unsupported_cipher_suite

abbrev pub get_hash_len : HashAlg → ℕ
get_hash_len sha_256 = 32
get_hash_len other_hash = 0

abbrev pub get_aead_mac_len : AeadAlg → ℕ
get_aead_mac_len aes_ccm_16_128_128 = 16
get_aead_mac_len aes_ccm_16_64_128 = 8
get_aead_mac_len other_aead = 0

abbrev pub get_aead_key_len : AeadAlg → ℕ
get_aead_key_len other_aead = 0
get_aead_key_len _ = 16

abbrev pub get_aead_iv_len : AeadAlg → ℕ
get_aead_iv_len other_aead = 0
get_aead_iv_len _ = 13

abbrev pub get_signature_len : SignAlg → ℕ
get_signature_len other_sign = 0
get_signature_len _ = 64

abbrev pub get_ecdh_pk_len : EcdhAlg → ℕ
get_ecdh_pk_len p256 = 33
get_ecdh_pk_len x25519 = 32
get_ecdh_pk_len other_ecdh = 0

-- The flags `static_dh_i` and `static_dh_r`; a flag that nothing has written is `none`. A method
-- that is none of the four leaves them as they are.
unfoldable pub authentication_type_get : ℕ → Option Bool → Option Bool → Option Bool × Option Bool
authentication_type_get m static_dh_i static_dh_r =
    if m == 0
    then (some false, some false)
    else if m == 1
    then (some false, some true)
    else if m == 2
    then (some true, some false)
    else if m == 3
    then (some true, some true)
    else (static_dh_i, static_dh_r)

-- `struct c_x`: a connection identifier
pub data Cx : Type 0 where
  c_x_int : ℕ → Cx
  c_x_bstr : Bytes → Cx

-- A string into a buffer of `cap` bytes. The length is stored before the copy, which checks the
-- string against its own length.
unfoldable pub c_x_set_bstr : ℕ → Bytes → ℕ → Result Cx
c_x_set_bstr cap raw raw_len = do
  check_buffer_size raw_len raw_len
  bytes ← read raw_len raw
  out ← store cap [] bytes
  ok (c_x_bstr out)
