-- ===== src/Edhoc/Wrapper.antt =====
-- `sign`, `verify`, `shared_secret_derive`, `ephemeral_dh_key_gen` and `hash` of
-- src/common/crypto_wrapper.c, as they are built for TinyCrypt and compact25519.
use zephyr_uoscore_uedhoc.Prelude.{ℕ, Bool, [], ◌∷◌, ◌/◌, ◌%◌}
use zephyr_uoscore_uedhoc.Memory.{
  Bytes, ByteArray, Result, ok, err, ◌>>=◌, read, crypto_operation_not_implemented,
  unsupported_ecdh_curve,
}
use zephyr_uoscore_uedhoc.Crypto.Wrapper.{expect, hkdf_expand}
use zephyr_uoscore_uedhoc.Edhoc.Suites.{
  HashAlg, sha_256, other_hash, EcdhAlg, x25519, p256, other_ecdh, SignAlg, eddsa, es256,
  other_sign,
}
use zephyr_uoscore_uedhoc.Edhoc.Coders.{EdhocExternal}

module _ (ex : EdhocExternal) where
  abbrev pub sign : SignAlg → Bytes → Bytes → Bytes → Result Bytes
  sign eddsa sk pk msg = do
    public ← read 32 pk
    secret ← read 32 sk
    ok (ex.edsign_sign public secret msg)
  sign es256 sk pk msg = err unsupported_ecdh_curve
  sign other_sign sk pk msg = err unsupported_ecdh_curve

  -- The length of the signature is not read: 64 bytes of it are.
  abbrev pub verify : SignAlg → Bytes → Bytes → Bytes → Result Bool
  verify eddsa pk msg sgn = do
    signature ← read 64 sgn
    public ← read 32 pk
    ok (ex.edsign_verify signature public msg)
  verify es256 pk msg sgn = err crypto_operation_not_implemented
  verify other_sign pk msg sgn = err crypto_operation_not_implemented

  abbrev pub shared_secret_derive : EcdhAlg → Bytes → Bytes → Result Bytes
  shared_secret_derive x25519 sk pk = do
    e ← read 32 sk
    public ← read 32 pk
    ok (ex.x25519_shared e public)
  shared_secret_derive p256 sk pk = err crypto_operation_not_implemented
  shared_secret_derive other_ecdh sk pk = err crypto_operation_not_implemented

  abbrev pub hash : HashAlg → Bytes → Result Bytes
  hash sha_256 in_ = expect (ex.tc_sha256 in_)
  hash other_hash in_ = err crypto_operation_not_implemented

  -- The secret and the public key. The seed is hashed as it stands in memory, here in little
  -- endian order. For P256 nothing is written.
  abbrev pub ephemeral_dh_key_gen : EcdhAlg → ℕ → Result (Bytes × Bytes)
  ephemeral_dh_key_gen x25519 seed = do
    extended_seed ← expect (
        ex.tc_sha256
          (seed % 256 ∷ seed / 256 % 256 ∷ seed / 65536 % 256 ∷ seed / 16777216 % 256 ∷ []))
    ok (ex.compact_x25519_keygen extended_seed)
  ephemeral_dh_key_gen p256 seed = ok ([], [])
  ephemeral_dh_key_gen other_ecdh seed = err unsupported_ecdh_curve

  abbrev pub hkdf_expand_alg : HashAlg → Bytes → ByteArray → ℕ → Result Bytes
  hkdf_expand_alg sha_256 prk info out_len = hkdf_expand ex.crypto prk info out_len
  hkdf_expand_alg other_hash prk info out_len = err crypto_operation_not_implemented
