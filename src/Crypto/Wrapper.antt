-- ===== src/Crypto/Wrapper.antt =====
-- `aead`, `hkdf_extract`, `hkdf_expand` and `hkdf_sha_256` of src/common/crypto_wrapper.c, as
-- they are built for TinyCrypt. The only hash algorithm is SHA_256.
use zephyr_uoscore_uedhoc.Prelude.{
  ℕ, zero, suc, ◌+◌, ◌*◌, ◌/◌, ◌%◌, Option, none, some, [], ◌∷◌, ◌++◌, ltb, leb, ◌==◌,
  if◌then◌else◌, replicate, u8, u32,
}
use zephyr_uoscore_uedhoc.Memory.{
  Bytes, ByteArray, Result, ok, err, fault, ◌>>=◌, read, store, hkdf_fialed,
  unexpected_result_from_ext_lib,
}
use zephyr_uoscore_uedhoc.Crypto.{External}

-- The macro TRY_EXPECT on a call of another library.
abbrev pub expect {ℓ} : {A : Type ℓ} → Option A → Result A
expect none = err unexpected_result_from_ext_lib
expect (some a) = ok a

module _ (ex : External) where
  -- Encryption into `out_len` bytes of ciphertext and `tag_len` bytes of tag behind them. A key
  -- has 16 bytes.
  unfoldable pub aead_encrypt : ByteArray → ByteArray → ByteArray → ByteArray → ℕ → ℕ → Result Bytes
  aead_encrypt in_ key nonce aad out_len tag_len = do
    k ← read 16 key.ptr
    n ← read nonce.len nonce.ptr
    a ← read aad.len aad.ptr
    message ← read in_.len in_.ptr
    out ← expect (ex.tc_ccm_generation_encryption k n tag_len a message)
    store (u32 (out_len + tag_len)) [] out

  -- Decryption and verification; the tag is the end of `in_`.
  unfoldable pub aead_decrypt : ByteArray → ByteArray → ByteArray → ByteArray → ℕ → ℕ → Result Bytes
  aead_decrypt in_ key nonce aad out_len tag_len = do
    k ← read 16 key.ptr
    n ← read nonce.len nonce.ptr
    a ← read aad.len aad.ptr
    message ← read in_.len in_.ptr
    out ← expect (ex.tc_ccm_decryption_verification k n tag_len a message)
    store out_len [] out

  -- A salt that is not given is 32 zero bytes.
  unfoldable pub hkdf_extract : ByteArray → ByteArray → Result Bytes
  hkdf_extract salt ikm = do
    key ← (if salt.len == 0 then ok (replicate 32 0) else read salt.len salt.ptr)
    message ← read ikm.len ikm.ptr
    expect (ex.tc_hmac key message)

  -- The loop `for (uint8_t i = 1; i <= iterations; i++)`. With 255 iterations the counter wraps
  -- to 0, and the copy goes in front of the buffer.
  unfoldable pub expand_loop : ℕ → ℕ → ℕ → Bytes → ByteArray → ℕ → Bytes → Bytes → Result Bytes
  expand_loop zero iterations i prk info out_len t out = fault
  expand_loop (suc fuel) iterations i prk info out_len t out =
      let round = (do
        bytes ← read info.len info.ptr
        t' ← expect (ex.tc_hmac prk ((if ltb 1 i then t else []) ++ (bytes ++ (i ∷ []))))
        piece ← read (if ltb out_len (i * 32) then out_len % 32 else 32) t'
        out' ← store out_len out piece
        let rest = expand_loop fuel iterations (u8 (i + 1)) prk info out_len t' out'
        if i == 0 then fault else rest) in
      if leb i iterations then round else ok out

  unfoldable pub hkdf_expand : Bytes → ByteArray → ℕ → Result Bytes
  hkdf_expand prk info out_len =
      let iterations = u32 (out_len + 31) / 32 in
      if ltb 255 iterations
      then err hkdf_fialed
      else expand_loop 257 iterations 1 prk info out_len (replicate 32 0) []

  -- Into an array of `out_len` bytes.
  unfoldable pub hkdf_sha_256 : ByteArray → ByteArray → ByteArray → ℕ → Result Bytes
  hkdf_sha_256 master_secret master_salt info out_len = do
    prk ← hkdf_extract master_salt master_secret
    hkdf_expand prk info out_len
