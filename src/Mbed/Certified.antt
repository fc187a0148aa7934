-- ===== src/Mbed/Certified.antt =====
-- What a certificate is accepted on (src/edhoc/cert.c, built for Mbed TLS).
use zephyr_uoscore_uedhoc.Memory.{
  Bytes, Err, Result, err, fault, ok, unexpected_result_from_ext_lib,
  unsupported_signature_algorithm,
}
use zephyr_uoscore_uedhoc.Edhoc.Credentials.{OtherPartyCred, Verified, ca_pk_get}
use zephyr_uoscore_uedhoc.Mbed.Curve.{verified, verify_attributes, verify_psa}
use zephyr_uoscore_uedhoc.Prelude.{
  List, Option, ap, arith, none, refl, some, true, ℕ, ◌∙◌, ◌≡◌, Bool-cases, [], drop, inl, inr,
  length, ◌++◌,
}
use zephyr_uoscore_uedhoc.Mbed.{
  Psa, Stateful, checked, continued, destroy, ecdsa_sha_256, initialise, try_expect_psa, unchanged,
}
use zephyr_uoscore_uedhoc.Mbed.Certificates.{
  X509Crt, X509Reader, cert_x509_verify_psa, issuer_id, issuer_pointer, deser_sign, exported_pk,
  find_pk, x509_signature_verify, x509_supported,
}
use zephyr_uoscore_uedhoc.Crypto.Wrapper.{expect}
use zephyr_uoscore_uedhoc.Crypto.Expand.{expect-some}
use zephyr_uoscore_uedhoc.Edhoc.Coders.{EdhocExternal}
use zephyr_uoscore_uedhoc.Memory.Laws.{ok_inj}
use zephyr_uoscore_uedhoc.Edhoc.Suites.{es256}
use zephyr_uoscore_uedhoc.Exchange.Accepted.{accepted}

bind_inv :
    {Store A B : Type 0} (r : Result A × Store) (f : A → Stateful Store B) (b : B) (t : Store)
    → continued f r ≡ (ok b, t)
    → (a : A) × (s : Store) × (r ≡ (ok a, s)) × (f a s ≡ (ok b, t))
bind_inv (ok a, s) f b t h = (a, s, refl, h)
bind_inv (err e, s) f b t h = ground (arith, ap (λ x. x.0) h)
bind_inv (fault, s) f b t h = ground (arith, ap (λ x. x.0) h)

unchanged_inv :
    {Store A : Type 0} (r : Result A) (a : A) (s t : Store)
    → unchanged r s ≡ (ok a, t)
    → (r ≡ ok a) × (s ≡ t)
unchanged_inv r a s t h = (ap (λ x. x.0) h, ap (λ x. x.1) h)

checked_inv :
    {Store Mpi A : Type 0} (psa : Psa Store Mpi) (id : ℕ) (e : Err) (r : Option A × Store) (a : A)
    (t : Store)
    → checked psa id e r ≡ (ok a, t)
    → r ≡ (some a, t)
checked_inv psa id e (some a', s) a t h =
    ap (λ b. (some b, s)) (ok_inj (ap (λ x. x.0) h)) ∙ ap (λ u. (some a, u)) (ap (λ x. x.1) h)
checked_inv psa id e (none, s) a t h = ground (arith, ap (λ x. x.0) h)

verified_true :
    {Store : Type 0} (r : Option (Unit {0}) × Store) (t : Store)
    → verified r ≡ (ok true, t)
    → r ≡ (some tt, t)
verified_true (some tt, s) t h = ap (λ u. (some tt, u)) (ap (λ x. x.1) h)
verified_true (none, s) t h = ground (arith, ok_inj (ap (λ x. x.0) h))

module _ {Store Mpi : Type 0} (ex : EdhocExternal) (psa : Psa Store Mpi) where
  -- The signature was accepted under an imported key.
  abbrev pub Accepts : Bytes → Bytes → Bytes → Type 0
  Accepts pk msg sgn =
      (id : ℕ) × (before : Store) × (imported : Store) × (final : Store) × (psa.psa_import_key
          verify_attributes pk before
        ≡ (some id, imported))
      × (psa.psa_verify_message id ecdsa_sha_256 msg sgn imported ≡ (some tt, final))

  verify_psa_accepted :
      (pk msg sgn : Bytes) (s t : Store)
      → verify_psa ex psa es256 pk msg sgn s ≡ (ok true, t)
      → Accepts pk msg sgn
  unfolding verify_psa try_expect_psa
  verify_psa_accepted pk msg sgn s t h =
      let (x, s0, e0, h0) = bind_inv (initialise psa s) _ true t h in
      let (id, s1, e1, h1) =
        bind_inv
          (checked psa 0 unexpected_result_from_ext_lib
            (psa.psa_import_key verify_attributes pk s0))
          _ true t h0 in
      let (result, s2, e2, h2) =
        bind_inv (verified (psa.psa_verify_message id ecdsa_sha_256 msg sgn s1)) _ true t h1 in
      let (y, s3, e3, h3) = bind_inv (destroy psa id s2) _ true t h2 in
      let sure : result ≡ true = ok_inj (ap (λ x'. x'.0) h3) in
      (
        id,
        s0,
        s1,
        s2,
        checked_inv psa 0 unexpected_result_from_ext_lib
            (psa.psa_import_key verify_attributes pk s0) id s1 e1,
        verified_true (psa.psa_verify_message id ecdsa_sha_256 msg sgn s1) s2
            (e2 ∙ ap (λ r. (ok r, s2)) sure),
      )

  module _ (reader : X509Reader) where
    issuer_pointer_inv : (o : Option Bytes) (p : Bytes) → issuer_pointer o ≡ ok p → o ≡ some p
    issuer_pointer_inv none p h = ground (arith, h)
    issuer_pointer_inv (some q) p h = ap some (ok_inj h)

    signature_accepted :
        (crt : X509Crt) (hash_len : ℕ) (cred_array : List OtherPartyCred) (pk_len : ℕ) (old : Bytes)
        (s t : Store) (v : Verified)
        → x509_signature_verify ex psa reader crt hash_len cred_array pk_len old s ≡ (ok v, t)
        → v.verified ≡ true
        → (issuer : Bytes) × (root_pk : Bytes) × (sig : Bytes) × (issuer_id crt.issuer none
            ≡ some issuer)
          × (ca_pk_get cred_array issuer ≡ ok root_pk)
          × Accepts root_pk crt.tbs sig
    unfolding x509_signature_verify
    signature_accepted crt hash_len cred_array pk_len old s t v h sure =
        let items = reader.mbedtls_asn1_traverse_sequence_of crt.sig in
        let (issuer, s0, e0, h0) =
          bind_inv (unchanged (issuer_pointer (issuer_id crt.issuer none)) s) _ v t h in
        let (root_pk, s1, e1, h1) =
          bind_inv (unchanged (ca_pk_get cred_array issuer) s0) _ v t h0 in
        let (out, s2, e2, h2) =
          bind_inv (unchanged (deser_sign 64 hash_len crt.sig items []) s1) _ v t h1 in
        let sig = out ++ drop (length out) old in
        let (result, s3, e3, h3) =
          bind_inv (verify_psa ex psa es256 root_pk crt.tbs sig s2) _ v t h2 in
        let (pk, s4, e4, h4) =
          bind_inv
            (unchanged
              (exported_pk pk_len crt.pk_raw
                (find_pk (reader.mbedtls_asn1_traverse_sequence_of crt.pk_raw) none))
              s3)
            _ v t h3 in
        let same : result ≡ true = ap (λ w. w.verified) (ok_inj (ap (λ x. x.0) h4)) ∙ sure in
        (
          issuer,
          root_pk,
          sig,
          issuer_pointer_inv (issuer_id crt.issuer none) issuer (ap (λ x. x.0) e0),
          ap (λ x. x.0) e1,
          verify_psa_accepted root_pk crt.tbs sig s2 s3 (e3 ∙ ap (λ r. (ok r, s3)) same),
        )

    supported_inv :
        (crt : X509Crt) (o : Option ℕ) (cred_array : List OtherPartyCred) (pk_len : ℕ) (old : Bytes)
        (s t : Store) (v : Verified)
        → x509_supported ex psa reader crt o cred_array pk_len old s ≡ (ok v, t)
        → (crt.is_ecdsa ≡ true)
          × (hash_len : ℕ) × (x509_signature_verify ex psa reader crt hash_len cred_array pk_len old
                s
              ≡ (ok v, t))
    unfolding x509_signature_verify
    supported_inv crt none cred_array pk_len old s t v h = ground (arith, ap (λ x. x.0) h)
    supported_inv crt (some hash_len) cred_array pk_len old s t v h =
        elim (Bool-cases crt.is_ecdsa) [
          | inl signed ↦ (signed, hash_len, rw signed at h)
          | inr other ↦
              let refused : unchanged {A = Verified} (err unsupported_signature_algorithm) s
                  ≡ (ok v, t) =
                rw other at h in
              ground (arith, ap (λ x. x.0) refused)
        ]

    -- cert_x509_verify, built for Mbed TLS, says of a certificate that it is verified only where
    -- Mbed TLS has parsed it and has accepted a signature over its contents under the key that
    -- ca_pk_get finds for the last common name of its issuer, for a signature algorithm of ECDSA.
    pub cert_x509_verify_psa-Accepts :
        (cert : Bytes) (cred_array : List OtherPartyCred) (pk_len : ℕ) (old : Bytes) (s t : Store)
        (v : Verified)
        → cert_x509_verify_psa ex psa reader cert cred_array pk_len old s ≡ (ok v, t)
        → v.verified ≡ true
        → (crt : X509Crt) × (issuer : Bytes) × (root_pk : Bytes) × (sig : Bytes)
          × (reader.mbedtls_x509_crt_parse_der_nocopy cert ≡ some crt)
          × (crt.is_ecdsa ≡ true)
          × (issuer_id crt.issuer none ≡ some issuer)
          × (ca_pk_get cred_array issuer ≡ ok root_pk)
          × Accepts root_pk crt.tbs sig
    unfolding cert_x509_verify_psa
    cert_x509_verify_psa-Accepts cert cred_array pk_len old s t v h sure =
        let (crt, s0, e0, h0) =
          bind_inv (unchanged (expect (reader.mbedtls_x509_crt_parse_der_nocopy cert)) s) _ v t h in
        let parse = expect-some _ crt (ap (λ x. x.0) e0) in
        let (ecdsa, hash_len, h1) =
          supported_inv crt crt.hash_len cred_array pk_len old s0 t v h0 in
        let (issuer, root_pk, sig, named, found, accepted) =
          signature_accepted crt hash_len cred_array pk_len old s0 t v h1 sure in
        (crt, issuer, root_pk, sig, parse, ecdsa, named, found, accepted)
