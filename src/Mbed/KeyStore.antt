-- ===== src/Mbed/KeyStore.antt =====
-- The keys that Mbed TLS holds over the calls of src/common/crypto_wrapper.c.
use zephyr_uoscore_uedhoc.Mbed.{
  ◌>>=◌, ◌>>◌, Attributes, Psa, PsaAlg, Stateful, checked, continued, destroy, destroyed,
  initialise, try_expect_psa, unchanged,
}
use zephyr_uoscore_uedhoc.Context.{call}
use zephyr_uoscore_uedhoc.Prelude.{
  List, Option, arith, false, none, some, ℕ, ◌==◌, ◌∙◌, ◌∷◌, ◌≡◌, ◌≢◌, subst,
}
use zephyr_uoscore_uedhoc.Memory.{
  Bytes, Err, Result, err, fault, ok, unexpected_result_from_ext_lib,
}

module _ {Store Mpi : Type 0} (psa : Psa Store Mpi) where
  abbrev pub Added : (Store → List ℕ) → List ℕ → Option ℕ × Store → Type 0
  Added key_ids ids (none, s) = key_ids s ≡ ids
  Added key_ids ids (some id, s) = (id ≢ 0) × (key_ids s ≡ id ∷ ids)

  -- The identifiers of the keys in a store: a key that is imported or generated enters with one that
  -- is not 0, one that is destroyed leaves, and the other calls leave them as they are.
  pub record IsKeyStore (key_ids : Store → List ℕ) : Type 0 where
    pub init : (s : Store) → key_ids (psa.psa_crypto_init s).1 ≡ key_ids s
    pub imported :
        (a : Attributes) (k : Bytes) (s : Store)
        → Added key_ids (key_ids s) (psa.psa_import_key a k s)
    pub generated :
        (a : Attributes) (s : Store) → Added key_ids (key_ids s) (psa.psa_generate_key a s)
    pub destroys :
        (id : ℕ) (ids : List ℕ) (s : Store)
        → key_ids s ≡ id ∷ ids
        → key_ids (psa.psa_destroy_key id s).1 ≡ ids
    pub encrypts :
        (id : ℕ) (alg : PsaAlg) (n a m : Bytes) (size : ℕ) (s : Store)
        → key_ids (psa.psa_aead_encrypt id alg n a m size s).1 ≡ key_ids s
    pub decrypts :
        (id : ℕ) (alg : PsaAlg) (n a m : Bytes) (size : ℕ) (s : Store)
        → key_ids (psa.psa_aead_decrypt id alg n a m size s).1 ≡ key_ids s
    pub computes :
        (id : ℕ) (alg : PsaAlg) (m : Bytes) (size : ℕ) (s : Store)
        → key_ids (psa.psa_mac_compute id alg m size s).1 ≡ key_ids s
    pub signs :
        (id : ℕ) (alg : PsaAlg) (m : Bytes) (size : ℕ) (s : Store)
        → key_ids (psa.psa_sign_message id alg m size s).1 ≡ key_ids s
    pub verifies :
        (id : ℕ) (alg : PsaAlg) (m g : Bytes) (s : Store)
        → key_ids (psa.psa_verify_message id alg m g s).1 ≡ key_ids s
    pub agrees :
        (alg : PsaAlg) (id : ℕ) (pk : Bytes) (size : ℕ) (s : Store)
        → key_ids (psa.psa_raw_key_agreement alg id pk size s).1 ≡ key_ids s
    pub exports : (id size : ℕ) (s : Store) → key_ids (psa.psa_export_key id size s).1 ≡ key_ids s
    pub exports_public :
        (id size : ℕ) (s : Store) → key_ids (psa.psa_export_public_key id size s).1 ≡ key_ids s

  -- What is held where a call returns a value, and where it returns an error.
  abbrev pub Ends :
      {A : Type 0} → (Store → List ℕ) → (A → List ℕ → Type 0) → List ℕ → Result A × Store → Type 0
  Ends key_ids good bad (ok a, s) = good a (key_ids s)
  Ends key_ids good bad (err e, s) = key_ids s ≡ bad
  Ends key_ids good bad (fault, s) = Unit

  module _ (key_ids : Store → List ℕ) (law : IsKeyStore key_ids) (ids : List ℕ) where
    pub bind-Ends :
        {A B : Type 0} (mid : A → List ℕ → Type 0) (good : B → List ℕ → Type 0)
        (r : Result A × Store) (f : A → Stateful Store B)
        → Ends key_ids mid ids r
        → ((a : A) (s : Store) → mid a (key_ids s) → Ends key_ids good ids (f a s))
        → Ends key_ids good ids (continued f r)
    bind-Ends mid good (ok a, s) f h k = k a s h
    bind-Ends mid good (err e, s) f h k = h
    bind-Ends mid good (fault, s) f h k = tt

    pub unchanged-Ends :
        {A : Type 0} (r : Result A) (s : Store)
        → key_ids s ≡ ids
        → Ends key_ids (λ a h. h ≡ ids) ids (unchanged r s)
    unchanged-Ends (ok a) s h = h
    unchanged-Ends (err e) s h = h
    unchanged-Ends fault s h = tt

    checked_init :
        (r : Option (Unit {0}) × Store)
        → key_ids r.1 ≡ ids
        → Ends key_ids (λ a h. h ≡ ids) ids (checked psa 0 unexpected_result_from_ext_lib r)
    checked_init (some tt, s) h = h
    checked_init (none, s) h = h

    pub initialise-Ends :
        (s : Store) → key_ids s ≡ ids → Ends key_ids (λ a h. h ≡ ids) ids (initialise psa s)
    unfolding try_expect_psa
    initialise-Ends s h = checked_init (psa.psa_crypto_init s) (law.init s ∙ h)

    pub checked_import :
        (r : Option ℕ × Store)
        → Added key_ids ids r
        → Ends key_ids
            (λ id h. (id ≢ 0) × (h ≡ id ∷ ids))
            ids
            (checked psa 0 unexpected_result_from_ext_lib r)
    checked_import (some id, s) h = h
    checked_import (none, s) h = h

    checked_call :
        {A : Type 0} (id : ℕ) (e : Err) (r : Option A × Store)
        → id ≢ 0
        → key_ids r.1 ≡ id ∷ ids
        → Ends key_ids (λ a h. h ≡ id ∷ ids) ids (checked psa id e r)
    checked_call id e (some a, s) n h = h
    checked_call id e (none, s) n h =
        let there : (id == 0) ≡ false = ground arith in rw there (law.destroys id ids s h)

    pub call-Ends :
        {A : Type 0} (id : ℕ) (e : Err) (call : Store → Option A × Store) (s : Store)
        → ((t : Store) → key_ids (call t).1 ≡ key_ids t)
        → id ≢ 0
        → key_ids s ≡ id ∷ ids
        → Ends key_ids (λ a h. h ≡ id ∷ ids) ids (try_expect_psa psa id e call s)
    unfolding try_expect_psa
    call-Ends id e call s keep n h = checked_call id e (call s) n (keep s ∙ h)

    destroyed_lem :
        (r : Option (Unit {0}) × Store)
        → key_ids r.1 ≡ ids
        → Ends key_ids (λ a h. h ≡ ids) ids (destroyed psa r)
    destroyed_lem (some tt, s) h = h
    destroyed_lem (none, s) h = h

    -- The key is destroyed, and a result returned.
    pub finish-Ends :
        {A : Type 0} (id : ℕ) (r : Result A) (s : Store)
        → key_ids s ≡ id ∷ ids
        → Ends key_ids (λ a h. h ≡ ids) ids ((destroy psa id >> unchanged r) s)
    unfolding destroy
    finish-Ends id r s h =
        bind-Ends (λ a h'. h' ≡ ids) (λ a h'. h' ≡ ids) (destroy psa id s) (λ a. unchanged r)
          (destroyed_lem (psa.psa_destroy_key id s) (law.destroys id ids s h))
          (λ a t e. unchanged-Ends r t e)

    -- A body between the import of a key and its destruction.
    pub import-Ends :
        {A : Type 0} (a : Attributes) (k : Bytes) (body : ℕ → Stateful Store A) (s : Store)
        → key_ids s ≡ ids
        → ((id : ℕ) (t : Store)
            → id ≢ 0
            → key_ids t ≡ id ∷ ids
            → Ends key_ids (λ x h. h ≡ ids) ids (body id t))
        → Ends key_ids
            (λ x h. h ≡ ids)
            ids
            ((initialise psa
                >> (try_expect_psa psa 0 unexpected_result_from_ext_lib (psa.psa_import_key a k)
                    >>= body))
              s)
    unfolding try_expect_psa
    import-Ends a k body s h go =
        bind-Ends (λ x h'. h' ≡ ids) (λ x h'. h' ≡ ids) (initialise psa s) _ (initialise-Ends s h)
          (λ x t e.
            bind-Ends (λ id h'. (id ≢ 0) × (h' ≡ id ∷ ids)) (λ y h'. h' ≡ ids)
              (checked psa 0 unexpected_result_from_ext_lib (psa.psa_import_key a k t)) body
              (checked_import (psa.psa_import_key a k t)
                (subst (λ is. Added key_ids is (psa.psa_import_key a k t)) e (law.imported a k t)))
              (λ id u n. go id u n.0 n.1))

    -- The same after the generation of a key.
    pub generate-Ends :
        {A : Type 0} (a : Attributes) (body : ℕ → Stateful Store A) (s : Store)
        → key_ids s ≡ ids
        → ((id : ℕ) (t : Store)
            → id ≢ 0
            → key_ids t ≡ id ∷ ids
            → Ends key_ids (λ x h. h ≡ ids) ids (body id t))
        → Ends key_ids
            (λ x h. h ≡ ids)
            ids
            ((initialise psa
                >> (try_expect_psa psa 0 unexpected_result_from_ext_lib (psa.psa_generate_key a)
                    >>= body))
              s)
    unfolding try_expect_psa
    generate-Ends a body s h go =
        bind-Ends (λ x h'. h' ≡ ids) (λ x h'. h' ≡ ids) (initialise psa s) _ (initialise-Ends s h)
          (λ x t e.
            bind-Ends (λ id h'. (id ≢ 0) × (h' ≡ id ∷ ids)) (λ y h'. h' ≡ ids)
              (checked psa 0 unexpected_result_from_ext_lib (psa.psa_generate_key a t)) body
              (checked_import (psa.psa_generate_key a t)
                (subst (λ is. Added key_ids is (psa.psa_generate_key a t)) e (law.generated a t)))
              (λ id u n. go id u n.0 n.1))

    -- A call that uses the key, and what follows it.
    pub next-Ends :
        {A B : Type 0} (id : ℕ) (e : Err) (call : Store → Option A × Store)
        (body : A → Stateful Store B) (s : Store)
        → ((t : Store) → key_ids (call t).1 ≡ key_ids t)
        → id ≢ 0
        → key_ids s ≡ id ∷ ids
        → ((a : A) (t : Store)
            → key_ids t ≡ id ∷ ids
            → Ends key_ids (λ b h. h ≡ ids) ids (body a t))
        → Ends key_ids (λ b h. h ≡ ids) ids ((try_expect_psa psa id e call >>= body) s)
    next-Ends id e call body s keep n h go =
        bind-Ends (λ a h'. h' ≡ id ∷ ids) (λ b h'. h' ≡ ids) (try_expect_psa psa id e call s) body
          (call-Ends id e call s keep n h) go
