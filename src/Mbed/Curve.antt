-- ===== src/Mbed/Curve.antt =====
-- `sign`, `verify`, `shared_secret_derive` and `ephemeral_dh_key_gen` of
-- src/common/crypto_wrapper.c, as they are built for Mbed TLS and compact25519.
use zephyr_uoscore_uedhoc.Mbed.{
  ◌>>=◌, ◌>>◌, Attributes, Psa, Stateful, destroy, ecc_key_pair, ecc_public_key, ecdh_agreement,
  ecdsa_sha_256, initialise, may_derive, may_export, may_sign_hash, may_sign_message,
  may_verify_hash, may_verify_message, try_expect_psa, unchanged,
}
use zephyr_uoscore_uedhoc.Edhoc.Wrapper.{sign, verify, shared_secret_derive}
use zephyr_uoscore_uedhoc.Prelude.{
  Bool, Option, [], drop, false, if◌then◌else◌, length, ltb, none, some, take, true, ℕ, ◌%◌, ◌*◌,
  ◌/◌, ◌==◌, ◌∷◌,
}
use zephyr_uoscore_uedhoc.Memory.{
  Bytes, Result, buffer_to_small, crypto_operation_not_implemented, err, ok, sha_failed,
  sign_failed, unexpected_result_from_ext_lib, unsupported_ecdh_curve,
}
use zephyr_uoscore_uedhoc.Edhoc.Suites.{
  EcdhAlg, SignAlg, eddsa, es256, other_ecdh, other_sign, p256, x25519,
}
use zephyr_uoscore_uedhoc.Edhoc.Coders.{EdhocExternal}
use zephyr_uoscore_uedhoc.Mbed.Point.{decompressed_pk}

abbrev pub sign_attributes : Bytes → Attributes
sign_attributes sk = record {
  usage = may_verify_message ∷ may_verify_hash ∷ may_sign_message ∷ may_sign_hash ∷ [];
  algorithm = ecdsa_sha_256;
  type = ecc_key_pair;
  bits = length sk * 8;
}

abbrev pub verify_attributes : Attributes
verify_attributes = record {
  usage = may_verify_message ∷ may_verify_hash ∷ [];
  algorithm = ecdsa_sha_256;
  type = ecc_public_key;
  bits = 256;
}

abbrev pub derive_attributes : Attributes
derive_attributes = record {
  usage = may_derive ∷ [];
  algorithm = ecdh_agreement;
  type = ecc_key_pair;
  bits = 0;
}

abbrev pub generate_attributes : Attributes
generate_attributes = record {
  usage = may_export ∷ may_derive ∷ may_sign_message ∷ may_sign_hash ∷ [];
  algorithm = ecdh_agreement;
  type = ecc_key_pair;
  bits = 256;
}

-- An output whose length is compared with the one that is expected.
abbrev pub of_length : {Store : Type 0} → ℕ → Bytes → Store → Option (Unit {0}) × Store
of_length n out s = (if length out == n then some tt else none, s)

-- The status of a verification as a Boolean.
abbrev pub verified : {Store : Type 0} → Option (Unit {0}) × Store → Result Bool × Store
verified (some tt, s) = (ok true, s)
verified (none, s) = (ok false, s)

-- What `result` holds at the label `cleanup`.
abbrev pub agreed : {Store : Type 0} → Option Bytes × Store → Result (Result Bytes) × Store
agreed (some secret, s) = (ok (ok secret), s)
agreed (none, s) = (ok (err unexpected_result_from_ext_lib), s)

-- A seed as it stands in memory.
abbrev pub seed_bytes : ℕ → Bytes
seed_bytes seed = seed % 256 ∷ seed / 256 % 256 ∷ seed / 65536 % 256 ∷ seed / 16777216 % 256 ∷ []

module _ {Store Mpi : Type 0} (ex : EdhocExternal) (psa : Psa Store Mpi) where
  unfoldable pub sign_psa : SignAlg → Bytes → Bytes → Bytes → Stateful Store Bytes
  sign_psa eddsa sk pk msg = unchanged (sign ex eddsa sk pk msg)
  sign_psa other_sign sk pk msg = unchanged (err unsupported_ecdh_curve)
  sign_psa es256 sk pk msg = do
    initialise psa
    key_id ←
        try_expect_psa psa 0 unexpected_result_from_ext_lib
          (psa.psa_import_key (sign_attributes sk) sk)
    out ←
        try_expect_psa psa key_id unexpected_result_from_ext_lib
          (psa.psa_sign_message key_id ecdsa_sha_256 msg 64)
    try_expect_psa psa key_id sign_failed (of_length 64 out)
    destroy psa key_id
    unchanged (ok out)

  unfoldable pub verify_psa : SignAlg → Bytes → Bytes → Bytes → Stateful Store Bool
  verify_psa eddsa pk msg sgn = unchanged (verify ex eddsa pk msg sgn)
  verify_psa other_sign pk msg sgn = unchanged (err crypto_operation_not_implemented)
  verify_psa es256 pk msg sgn = do
    initialise psa
    key_id ←
        try_expect_psa psa 0 unexpected_result_from_ext_lib
          (psa.psa_import_key verify_attributes pk)
    result ← λ s. verified (psa.psa_verify_message key_id ecdsa_sha_256 msg sgn s)
    destroy psa key_id
    unchanged (ok result)

  -- The agreement with that point.
  abbrev pub key_agreement : ℕ → ℕ → Option Bytes → Stateful Store (Result Bytes)
  key_agreement key_id size none s = (ok (err unexpected_result_from_ext_lib), s)
  key_agreement key_id size (some point) s =
      agreed (psa.psa_raw_key_agreement ecdh_agreement key_id point size s)

  unfoldable pub shared_secret_derive_psa : EcdhAlg → Bytes → Bytes → Stateful Store Bytes
  shared_secret_derive_psa x25519 sk pk = unchanged (shared_secret_derive ex x25519 sk pk)
  shared_secret_derive_psa other_ecdh sk pk = unchanged (err crypto_operation_not_implemented)
  shared_secret_derive_psa p256 sk pk = do
    initialise psa
    key_id ←
        try_expect_psa psa 0 unexpected_result_from_ext_lib
          (psa.psa_import_key derive_attributes sk)
    let size = psa.raw_key_agreement_output_size ecc_key_pair (length sk * 8)
    result ← key_agreement key_id size (decompressed_pk psa pk)
    (if key_id == 0 then unchanged (ok tt) else destroy psa key_id)
    unchanged result

  -- The pair of keys for X25519, from `extended_seed`, which is never written.
  abbrev pub seeded : Bytes → Option Bytes → Result (Bytes × Bytes)
  seeded extended_seed none = err unexpected_result_from_ext_lib
  seeded extended_seed (some digest) =
      if length digest == 32 then ok (ex.compact_x25519_keygen extended_seed) else err sha_failed

  -- The secret and the public key; `pk_size` is the size of the array for the latter. The hash of
  -- the seed is written to the array of the secret key, which the generated key overwrites.
  unfoldable pub ephemeral_dh_key_gen_psa : EcdhAlg → ℕ → Bytes → ℕ → Stateful Store (Bytes × Bytes)
  ephemeral_dh_key_gen_psa other_ecdh seed extended_seed pk_size =
      unchanged (err unsupported_ecdh_curve)
  ephemeral_dh_key_gen_psa x25519 seed extended_seed pk_size =
      unchanged (seeded extended_seed (psa.psa_hash_compute (seed_bytes seed) 32))
  ephemeral_dh_key_gen_psa p256 seed extended_seed pk_size =
      let generate = (do
        initialise psa
        key_id ←
            try_expect_psa psa 0 unexpected_result_from_ext_lib
              (psa.psa_generate_key generate_attributes)
        sk ← try_expect_psa psa key_id unexpected_result_from_ext_lib (psa.psa_export_key key_id 32)
        public ←
            try_expect_psa psa key_id unexpected_result_from_ext_lib
              (psa.psa_export_public_key key_id 65)
        try_expect_psa psa key_id unexpected_result_from_ext_lib (of_length 65 public)
        destroy psa key_id
        unchanged (ok (sk, 2 ∷ take 32 (drop 1 public)))) in
      if ltb pk_size 33 then unchanged (err buffer_to_small) else generate
