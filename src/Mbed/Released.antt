-- ===== src/Mbed/Released.antt =====
-- The keys that the functions of src/common/crypto_wrapper.c, as they are built for Mbed TLS, leave.
use zephyr_uoscore_uedhoc.Edhoc.Wrapper.{sign, verify}
use zephyr_uoscore_uedhoc.Mbed.{
  Psa, Stateful, ccm_with_tag, hmac_sha_256, try_expect_psa, ecc_key_pair, ecdh_agreement,
  ecdsa_sha_256, continued, unchanged,
}
use zephyr_uoscore_uedhoc.Prelude.{
  List, Option, if◌then◌else◌, length, refl, replicate, ℕ, ◌==◌, ◌∷◌, ◌≡◌, ◌≢◌, Bool-cases, [],
  arith, drop, false, inl, inr, ltb, none, some, suc, u8, zero, ◌*◌, ◌++◌, ◌+◌, ◌-◌, ◌∙◌, u32, ◌/◌,
  ◌%◌,
}
use zephyr_uoscore_uedhoc.Edhoc.Suites.{
  HashAlg, other_hash, sha_256, EcdhAlg, SignAlg, eddsa, es256, other_ecdh, other_sign, p256,
  x25519,
}
use zephyr_uoscore_uedhoc.Memory.{
  Bytes, ok, read, sign_failed, store, unexpected_result_from_ext_lib, fault, Err, Result, err,
}
use zephyr_uoscore_uedhoc.Mbed.KeyStore.{
  Ends, IsKeyStore, bind-Ends, call-Ends, finish-Ends, import-Ends, generate-Ends, next-Ends,
  unchanged-Ends,
}
use zephyr_uoscore_uedhoc.Mbed.Wrapper.{
  aead_attributes, aead_decrypt_psa, hkdf_extract_psa, hmac_attributes, aead_encrypt_psa,
  psa_rounds, combo_fits, hkdf_expand_psa,
}
use zephyr_uoscore_uedhoc.Edhoc.Coders.{EdhocExternal}
use zephyr_uoscore_uedhoc.Mbed.Curve.{
  agreed, derive_attributes, ephemeral_dh_key_gen_psa, generate_attributes, key_agreement,
  of_length, shared_secret_derive_psa, sign_attributes, sign_psa, verified, verify_attributes,
  verify_psa,
}
use zephyr_uoscore_uedhoc.Edhoc.Wrapper.{shared_secret_derive}
use zephyr_uoscore_uedhoc.Mbed.Point.{decompressed_pk}

module _ {Store Mpi : Type 0} (ex : EdhocExternal) (psa : Psa Store Mpi)
    (key_ids : Store → List ℕ) where
  -- No key is held afterwards that was not before, and none is missing, with a value or an error.
  abbrev pub Keeps : {A : Type 0} → Store → Result A × Store → Type 0
  Keeps s r = Ends psa key_ids (λ a h. h ≡ key_ids s) (key_ids s) r

  abbrev Releases : {A : Type 0} → Stateful Store A → Type 0
  Releases m = (s : Store) → Keeps s (m s)

  module _ (law : IsKeyStore psa key_ids) where
    aead_encrypt_psa-Releases :
        (in_ key_bytes nonce aad : Bytes) (tag_len : ℕ)
        → Releases (aead_encrypt_psa psa in_ key_bytes nonce aad tag_len)
    unfolding aead_encrypt_psa
    aead_encrypt_psa-Releases in_ key_bytes nonce aad tag_len s =
        let ids = key_ids s in
        let alg = ccm_with_tag tag_len in
        import-Ends psa key_ids law ids (aead_attributes tag_len key_bytes) key_bytes _ s refl
          (λ id t n h.
            next-Ends psa key_ids law ids id _
              (psa.psa_aead_encrypt id alg nonce aad in_ (length in_ + tag_len)) _ t
              (law.encrypts id alg nonce aad in_ (length in_ + tag_len)) n h
              (λ out u h'. elim (Bool-cases (ltb (length out) tag_len)) [
                | inl short ↦ rw short tt
                | inr long ↦ rw long (
                    finish-Ends psa key_ids law ids id (ok (out, drop (length out - tag_len) out)) u
                      h')
              ]))

    aead_decrypt_psa-Releases :
        (in_ key_bytes nonce aad : Bytes) (out_len tag_len : ℕ)
        → Releases (aead_decrypt_psa psa in_ key_bytes nonce aad out_len tag_len)
    unfolding aead_decrypt_psa
    aead_decrypt_psa-Releases in_ key_bytes nonce aad out_len tag_len s =
        let ids = key_ids s in
        let alg = ccm_with_tag tag_len in
        import-Ends psa key_ids law ids (aead_attributes tag_len key_bytes) key_bytes _ s refl
          (λ id t n h.
            next-Ends psa key_ids law ids id _ (psa.psa_aead_decrypt id alg nonce aad in_ out_len) _
              t (law.decrypts id alg nonce aad in_ out_len) n h
              (λ out u. finish-Ends psa key_ids law ids id (ok out) u))

    hkdf_extract_psa-Releases :
        (alg : HashAlg) (salt ikm : Bytes) → Releases (hkdf_extract_psa psa alg salt ikm)
    unfolding hkdf_extract_psa
    hkdf_extract_psa-Releases other_hash salt ikm s = refl
    hkdf_extract_psa-Releases sha_256 salt ikm s =
        let ids = key_ids s in
        import-Ends psa key_ids law ids hmac_attributes
          (if length salt == 0 then replicate 32 0 else salt) _ s refl
          (λ id t n h.
            next-Ends psa key_ids law ids id _ (psa.psa_mac_compute id hmac_sha_256 ikm 32) _ t
              (law.computes id hmac_sha_256 ikm 32) n h
              (λ out u. finish-Ends psa key_ids law ids id (ok out) u))

    -- A read or a store, which gives no error, and what follows it.
    after_access :
        (r : Result Bytes) (f : Bytes → Stateful Store Bytes) (s : Store)
        (good : Bytes → List ℕ → Type 0) (ids : List ℕ)
        → ((e : Err) → r ≢ err e)
        → ((x : Bytes) → Ends psa key_ids good ids (f x s))
        → Ends psa key_ids good ids (continued f (unchanged r s))
    after_access (ok x) f s good ids sure h = h x
    after_access (err e) f s good ids sure h = ground (arith, sure e)
    after_access fault f s good ids sure h = tt

    read_no_err : (n : ℕ) (p : Bytes) (e : Err) → read n p ≢ err e
    unfolding read
    read_no_err n p e = ground arith

    store_no_err : (cap : ℕ) (out bytes : Bytes) (e : Err) → store cap out bytes ≢ err e
    unfolding store
    store_no_err cap out bytes e = ground arith

    psa_rounds-Ends :
        (ids : List ℕ) (left i id offset : ℕ) (info : Bytes) (out_len : ℕ) (tmp out : Bytes)
        (s : Store)
        → id ≢ 0
        → key_ids s ≡ id ∷ ids
        → Ends psa key_ids
            (λ x h. h ≡ id ∷ ids)
            ids
            (psa_rounds psa left i id offset info out_len tmp out s)
    unfolding psa_rounds
    psa_rounds-Ends ids zero i id offset info out_len tmp out s n h = h
    psa_rounds-Ends ids (suc left) i id offset info out_len tmp out s n h =
        let input = drop offset (tmp ++ (info ++ u8 i ∷ [])) in
        bind-Ends psa key_ids law ids (λ a h'. h' ≡ id ∷ ids) (λ b h'. h' ≡ id ∷ ids)
          (try_expect_psa psa id unexpected_result_from_ext_lib
            (psa.psa_mac_compute id hmac_sha_256 input 32) s)
          _
          (call-Ends psa key_ids law ids id _ (psa.psa_mac_compute id hmac_sha_256 input 32) s
            (law.computes id hmac_sha_256 input 32) n h)
          (λ t u h'.
            let tmp' = t ++ drop (length t) tmp in
            let n_piece = if ltb out_len (i * 32) then out_len % 32 else 32 in
            let rest : Bytes → Stateful Store Bytes =
              λ out'. psa_rounds psa left (i + 1) id 0 info out_len tmp' out' in
            after_access (read n_piece tmp')
              (λ piece v. continued rest (unchanged (store out_len out piece) v)) u
              (λ b k. k ≡ id ∷ ids) ids (read_no_err n_piece tmp')
              (λ piece.
                after_access (store out_len out piece) rest u (λ b k. k ≡ id ∷ ids) ids
                  (store_no_err out_len out piece)
                  (λ out'. psa_rounds-Ends ids left (i + 1) id 0 info out_len tmp' out' u n h')))

    hkdf_expand_psa-Releases :
        (alg : HashAlg) (prk info : Bytes) (out_len : ℕ)
        → Releases (hkdf_expand_psa psa alg prk info out_len)
    unfolding hkdf_expand_psa
    hkdf_expand_psa-Releases other_hash prk info out_len s = refl
    hkdf_expand_psa-Releases sha_256 prk info out_len s =
        let ids = key_ids s in
        let iterations = u32 (out_len + 31) / 32 in
        elim (Bool-cases (ltb 255 iterations)) [
          | inl many ↦ rw many refl
          | inr few ↦ rw few (
              import-Ends psa key_ids law ids hmac_attributes prk _ s refl (λ id t n h.
                next-Ends psa key_ids law ids id _ (combo_fits psa (32 + length info + 1)) _ t
                  (λ w. refl) n h
                  (λ x u h'.
                    bind-Ends psa key_ids law ids (λ a k. k ≡ id ∷ ids) (λ b k. k ≡ ids)
                      (psa_rounds psa iterations 1 id 32 info out_len (replicate 32 0) [] u) _
                      (psa_rounds-Ends ids iterations 1 id 32 info out_len (replicate 32 0) [] u n
                        h')
                      (λ out v. finish-Ends psa key_ids law ids id (ok out) v))))
        ]

    sign_psa-Releases :
        (alg : SignAlg) (sk pk msg : Bytes) → Releases (sign_psa ex psa alg sk pk msg)
    unfolding sign_psa
    sign_psa-Releases eddsa sk pk msg s =
        unchanged-Ends psa key_ids law (key_ids s) (sign ex eddsa sk pk msg) s refl
    sign_psa-Releases other_sign sk pk msg s = refl
    sign_psa-Releases es256 sk pk msg s =
        let ids = key_ids s in
        import-Ends psa key_ids law ids (sign_attributes sk) sk _ s refl (λ id t n h.
          next-Ends psa key_ids law ids id _ (psa.psa_sign_message id ecdsa_sha_256 msg 64) _ t
            (law.signs id ecdsa_sha_256 msg 64) n h
            (λ out u h'.
              next-Ends psa key_ids law ids id sign_failed (of_length 64 out) _ u (λ v. refl) n h'
                (λ x v. finish-Ends psa key_ids law ids id (ok out) v)))

    verified_lem :
        (r : Option (Unit {0}) × Store) (ids : List ℕ) (id : ℕ)
        → key_ids r.1 ≡ id ∷ ids
        → Ends psa key_ids (λ x h. h ≡ id ∷ ids) ids (verified r)
    verified_lem (some tt, s) ids id h = h
    verified_lem (none, s) ids id h = h

    verify_psa-Releases :
        (alg : SignAlg) (pk msg sgn : Bytes) → Releases (verify_psa ex psa alg pk msg sgn)
    unfolding verify_psa
    verify_psa-Releases eddsa pk msg sgn s =
        unchanged-Ends psa key_ids law (key_ids s) (verify ex eddsa pk msg sgn) s refl
    verify_psa-Releases other_sign pk msg sgn s = refl
    verify_psa-Releases es256 pk msg sgn s =
        let ids = key_ids s in
        import-Ends psa key_ids law ids verify_attributes pk _ s refl (λ id t n h.
          bind-Ends psa key_ids law ids (λ a h'. h' ≡ id ∷ ids) (λ b h'. h' ≡ ids)
            (verified (psa.psa_verify_message id ecdsa_sha_256 msg sgn t)) _
            (verified_lem (psa.psa_verify_message id ecdsa_sha_256 msg sgn t) ids id
              (law.verifies id ecdsa_sha_256 msg sgn t ∙ h))
            (λ result u. finish-Ends psa key_ids law ids id (ok result) u))

    agreed_lem :
        (r : Option Bytes × Store) (ids : List ℕ) (id : ℕ)
        → key_ids r.1 ≡ id ∷ ids
        → Ends psa key_ids (λ x h. h ≡ id ∷ ids) ids (agreed r)
    agreed_lem (some secret, s) ids id h = h
    agreed_lem (none, s) ids id h = h

    key_agreement_lem :
        (id size : ℕ) (point : Option Bytes) (ids : List ℕ) (s : Store)
        → key_ids s ≡ id ∷ ids
        → Ends psa key_ids (λ x h. h ≡ id ∷ ids) ids (key_agreement ex psa id size point s)
    key_agreement_lem id size none ids s h = h
    key_agreement_lem id size (some point) ids s h =
        agreed_lem (psa.psa_raw_key_agreement ecdh_agreement id point size s) ids id
          (law.agrees ecdh_agreement id point size s ∙ h)

    shared_secret_derive_psa-Releases :
        (alg : EcdhAlg) (sk pk : Bytes) → Releases (shared_secret_derive_psa ex psa alg sk pk)
    unfolding shared_secret_derive_psa
    shared_secret_derive_psa-Releases x25519 sk pk s =
        unchanged-Ends psa key_ids law (key_ids s) (shared_secret_derive ex x25519 sk pk) s refl
    shared_secret_derive_psa-Releases other_ecdh sk pk s = refl
    shared_secret_derive_psa-Releases p256 sk pk s =
        let ids = key_ids s in
        let size = psa.raw_key_agreement_output_size ecc_key_pair (length sk * 8) in
        import-Ends psa key_ids law ids derive_attributes sk _ s refl (λ id t n h.
          bind-Ends psa key_ids law ids (λ a h'. h' ≡ id ∷ ids) (λ b h'. h' ≡ ids)
            (key_agreement ex psa id size (decompressed_pk psa pk) t) _
            (key_agreement_lem id size (decompressed_pk psa pk) ids t h)
            (λ result u h'.
              let there : (id == 0) ≡ false = ground arith in
              rw there (finish-Ends psa key_ids law ids id result u h')))

    ephemeral_dh_key_gen_psa-Releases :
        (alg : EcdhAlg) (seed : ℕ) (extended_seed : Bytes) (pk_size : ℕ)
        → Releases (ephemeral_dh_key_gen_psa ex psa alg seed extended_seed pk_size)
    unfolding ephemeral_dh_key_gen_psa
    ephemeral_dh_key_gen_psa-Releases other_ecdh seed extended_seed pk_size s = refl
    ephemeral_dh_key_gen_psa-Releases x25519 seed extended_seed pk_size s =
        unchanged-Ends psa key_ids law (key_ids s) _ s refl
    ephemeral_dh_key_gen_psa-Releases p256 seed extended_seed pk_size s =
        let ids = key_ids s in
        elim (Bool-cases (ltb pk_size 33)) [
          | inl small ↦ rw small refl
          | inr room ↦ rw room (
              generate-Ends psa key_ids law ids generate_attributes _ s refl (λ id t n h.
                next-Ends psa key_ids law ids id _ (psa.psa_export_key id 32) _ t
                  (law.exports id 32) n h
                  (λ sk u h'.
                    next-Ends psa key_ids law ids id _ (psa.psa_export_public_key id 65) _ u
                      (law.exports_public id 65) n h'
                      (λ public v h''.
                        next-Ends psa key_ids law ids id _ (of_length 65 public) _ v (λ w. refl) n
                          h'' (λ x w. finish-Ends psa key_ids law ids id _ w)))))
        ]

    -- Where they return a value or an error, aead, hkdf_extract, hkdf_expand, sign, verify,
    -- shared_secret_derive and ephemeral_dh_key_gen as built for Mbed TLS leave exactly the keys
    -- that were held before, where an imported or generated key enters with an identifier that is
    -- not 0, a destroyed key leaves, and the other calls leave the keys alone.
    pub crypto_wrapper_releases :
        (in_ key_bytes nonce aad salt ikm prk info sk pk msg sgn extended_seed : Bytes)
        (tag_len out_len seed pk_size : ℕ) (hash_alg : HashAlg) (sign_alg : SignAlg)
        (ecdh_alg : EcdhAlg) (s : Store)
        → Keeps s (aead_encrypt_psa psa in_ key_bytes nonce aad tag_len s)
          × Keeps s (aead_decrypt_psa psa in_ key_bytes nonce aad out_len tag_len s)
          × Keeps s (hkdf_extract_psa psa hash_alg salt ikm s)
          × Keeps s (hkdf_expand_psa psa hash_alg prk info out_len s)
          × Keeps s (sign_psa ex psa sign_alg sk pk msg s)
          × Keeps s (verify_psa ex psa sign_alg pk msg sgn s)
          × Keeps s (shared_secret_derive_psa ex psa ecdh_alg sk pk s)
          × Keeps s (ephemeral_dh_key_gen_psa ex psa ecdh_alg seed extended_seed pk_size s)
    crypto_wrapper_releases in_ key_bytes nonce aad salt ikm prk info sk pk msg sgn extended_seed
          tag_len out_len seed pk_size hash_alg sign_alg ecdh_alg s =
        (
          aead_encrypt_psa-Releases in_ key_bytes nonce aad tag_len s,
          aead_decrypt_psa-Releases in_ key_bytes nonce aad out_len tag_len s,
          hkdf_extract_psa-Releases hash_alg salt ikm s,
          hkdf_expand_psa-Releases hash_alg prk info out_len s,
          sign_psa-Releases sign_alg sk pk msg s,
          verify_psa-Releases sign_alg pk msg sgn s,
          shared_secret_derive_psa-Releases ecdh_alg sk pk s,
          ephemeral_dh_key_gen_psa-Releases ecdh_alg seed extended_seed pk_size s,
        )
