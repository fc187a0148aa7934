-- ===== src/Mbed/Wrapper.antt =====
-- `aead`, `hkdf_extract`, `hkdf_expand` and `hash` of src/common/crypto_wrapper.c, as they are
-- built for Mbed TLS.
use zephyr_uoscore_uedhoc.Mbed.{
  ◌>>=◌, ◌>>◌, Attributes, Psa, Stateful, aes_key, ccm_with_tag, destroy, hmac_key, hmac_sha_256,
  initialise, may_decrypt, may_encrypt, may_sign_hash, unchanged, try_expect_psa,
}
use zephyr_uoscore_uedhoc.Prelude.{
  Option, [], drop, if◌then◌else◌, length, ltb, none, replicate, some, suc, u32, u8, zero, ℕ, ◌%◌,
  ◌*◌, ◌++◌, ◌+◌, ◌-◌, ◌/◌, ◌==◌, ◌∷◌,
}
use zephyr_uoscore_uedhoc.Memory.{
  Bytes, Result, crypto_operation_not_implemented, err, fault, hkdf_fialed, ok, read, sha_failed,
  store, unexpected_result_from_ext_lib,
}
use zephyr_uoscore_uedhoc.Edhoc.Suites.{HashAlg, other_hash, sha_256}
use zephyr_uoscore_uedhoc.Edhoc.Keys.{info_default_size}

-- The key of `aead`.
abbrev pub aead_attributes : ℕ → Bytes → Attributes
aead_attributes tag_len key_bytes = record {
  usage = may_decrypt ∷ may_encrypt ∷ [];
  algorithm = ccm_with_tag tag_len;
  type = aes_key;
  bits = length key_bytes * 8;
}

-- The key of an HMAC.
abbrev pub hmac_attributes : Attributes
hmac_attributes = record {
  usage = may_sign_hash ∷ [];
  algorithm = hmac_sha_256;
  type = hmac_key;
  bits = 0;
}

-- What is copied to the tag: the last bytes of the output.
abbrev pub tag_of : ℕ → Bytes → Result (Bytes × Bytes)
tag_of tag_len out =
    if ltb (length out) tag_len then fault else ok (out, drop (length out - tag_len) out)

module _ {Store Mpi : Type 0} (psa : Psa Store Mpi) where
  -- The output, which is the ciphertext with the tag behind it, and the tag.
  unfoldable pub aead_encrypt_psa :
      Bytes → Bytes → Bytes → Bytes → ℕ → Stateful Store (Bytes × Bytes)
  aead_encrypt_psa in_ key_bytes nonce aad tag_len = do
    initialise psa
    key_id ←
        try_expect_psa psa 0 unexpected_result_from_ext_lib
          (psa.psa_import_key (aead_attributes tag_len key_bytes) key_bytes)
    out ←
        try_expect_psa psa key_id unexpected_result_from_ext_lib
          (psa.psa_aead_encrypt key_id (ccm_with_tag tag_len) nonce aad in_ (length in_ + tag_len))
    outputs ← unchanged (tag_of tag_len out)
    destroy psa key_id
    unchanged (ok outputs)

  unfoldable pub aead_decrypt_psa : Bytes → Bytes → Bytes → Bytes → ℕ → ℕ → Stateful Store Bytes
  aead_decrypt_psa in_ key_bytes nonce aad out_len tag_len = do
    initialise psa
    key_id ←
        try_expect_psa psa 0 unexpected_result_from_ext_lib
          (psa.psa_import_key (aead_attributes tag_len key_bytes) key_bytes)
    out ←
        try_expect_psa psa key_id unexpected_result_from_ext_lib
          (psa.psa_aead_decrypt key_id (ccm_with_tag tag_len) nonce aad in_ out_len)
    destroy psa key_id
    unchanged (ok out)

  unfoldable pub hkdf_extract_psa : HashAlg → Bytes → Bytes → Stateful Store Bytes
  hkdf_extract_psa other_hash salt ikm = unchanged (err crypto_operation_not_implemented)
  hkdf_extract_psa sha_256 salt ikm = do
    initialise psa
    key_id ←
        try_expect_psa psa 0 unexpected_result_from_ext_lib
          (psa.psa_import_key hmac_attributes (if length salt == 0 then replicate 32 0 else salt))
    out ←
        try_expect_psa psa key_id unexpected_result_from_ext_lib
          (psa.psa_mac_compute key_id hmac_sha_256 ikm 32)
    destroy psa key_id
    unchanged (ok out)

  -- The rounds from `i` on, as many as are left. `combo` holds `tmp_out`, the info and the counter,
  -- and is read from `offset` on.
  unfoldable pub psa_rounds : ℕ → ℕ → ℕ → ℕ → Bytes → ℕ → Bytes → Bytes → Stateful Store Bytes
  psa_rounds zero i key_id offset info out_len tmp_out out = unchanged (ok out)
  psa_rounds (suc left) i key_id offset info out_len tmp_out out = do
    t ←
        try_expect_psa psa key_id unexpected_result_from_ext_lib (
          psa.psa_mac_compute key_id hmac_sha_256 (drop offset (tmp_out ++ (info ++ u8 i ∷ []))) 32)
    let tmp_out' = t ++ drop (length t) tmp_out
    piece ← unchanged (read (if ltb out_len (i * 32) then out_len % 32 else 32) tmp_out')
    out' ← unchanged (store out_len out piece)
    psa_rounds left (i + 1) key_id 0 info out_len tmp_out' out'

  -- The check of the buffer's size, whose failure also destroys the key.
  abbrev pub combo_fits : ℕ → Store → Option (Unit {0}) × Store
  combo_fits combo_len s = (if ltb info_default_size (u32 combo_len) then none else some tt, s)

  unfoldable pub hkdf_expand_psa : HashAlg → Bytes → Bytes → ℕ → Stateful Store Bytes
  hkdf_expand_psa other_hash prk info out_len = unchanged (err crypto_operation_not_implemented)
  hkdf_expand_psa sha_256 prk info out_len =
      let iterations = u32 (out_len + 31) / 32 in
      let expand = (do
        initialise psa
        key_id ←
            try_expect_psa psa 0 unexpected_result_from_ext_lib
              (psa.psa_import_key hmac_attributes prk)
        try_expect_psa psa key_id unexpected_result_from_ext_lib (combo_fits (32 + length info + 1))
        out ← psa_rounds iterations 1 key_id 32 info out_len (replicate 32 0) []
        destroy psa key_id
        unchanged (ok out)) in
      if ltb 255 iterations then unchanged (err hkdf_fialed) else expand

  abbrev pub hash_output : Option Bytes → Result Bytes
  hash_output none = err unexpected_result_from_ext_lib
  hash_output (some out) = if length out == 32 then ok out else err sha_failed

  unfoldable pub hash_psa : HashAlg → Bytes → Result Bytes
  hash_psa other_hash in_ = err crypto_operation_not_implemented
  hash_psa sha_256 in_ = hash_output (psa.psa_hash_compute in_ 32)
