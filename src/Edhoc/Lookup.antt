-- ===== src/Edhoc/Lookup.antt =====
-- The search for a credential of the other party (src/edhoc/retrieve_cred.c).
use zephyr_uoscore_uedhoc.Prelude.{
  ℕ, ◌≡◌, ◌≢◌, true, false, length, All, Bool, List, [], arith, refl, sym, ◌++◌, ◌-◌, ◌∷◌,
}
use zephyr_uoscore_uedhoc.Memory.{Bytes, ok, array_equals_from, credential_not_found, err}
use zephyr_uoscore_uedhoc.Edhoc.Credentials.{OtherPartyCred, get_local_cred, same_id, use_cred}
use zephyr_uoscore_uedhoc.Protect.Parts.{after}

same_bytes : (n : ℕ) (xs ys : Bytes) → n ≡ length xs → xs ≡ ys → array_equals_from n xs ys ≡ ok true
unfolding array_equals_from
same_bytes n [] [] h e = ground arith
same_bytes n [] (y ∷ ys) h e = ground arith
same_bytes n (x ∷ xs) [] h e = ground arith
same_bytes n (x ∷ xs) (y ∷ ys) h e = ground (arith, same_bytes (n - 1) xs ys)

other_bytes :
    (n : ℕ) (xs ys : Bytes)
    → n ≡ length xs
    → n ≡ length ys
    → xs ≢ ys
    → array_equals_from n xs ys ≡ ok false
unfolding array_equals_from
other_bytes n [] [] h k e = absurd (e refl)
other_bytes n [] (y ∷ ys) h k e = absurd (omega arith)
other_bytes n (x ∷ xs) [] h k e = absurd (omega arith)
other_bytes n (x ∷ xs) (y ∷ ys) h k e = ground (arith, other_bytes (n - 1) xs ys)

same_id-same : (xs ys : Bytes) → xs ≡ ys → same_id xs ys ≡ ok true
same_id-same xs ys e = rw e (ground (arith, same_bytes (length ys) ys ys refl refl))

same_id-other : (xs ys : Bytes) → xs ≢ ys → same_id xs ys ≡ ok false
same_id-other xs ys e =
    ground (arith, λ (h : length xs ≡ length ys). other_bytes (length ys) xs ys (sym h) refl e)

-- The credential of the first entry with the identifier is used, whatever stands behind it; where
-- no entry has it, the search ends with `credential_not_found`.
pub get_local_cred-first :
    (static_dh_auth : Bool) (before after : List OtherPartyCred) (entry : OtherPartyCred)
    → All (λ other. other.id_cred ≢ entry.id_cred) before
    → (get_local_cred static_dh_auth (before ++ entry ∷ after) entry.id_cred
        ≡ use_cred static_dh_auth entry)
      × (get_local_cred static_dh_auth before entry.id_cred ≡ err credential_not_found)
unfolding get_local_cred
get_local_cred-first static_dh_auth [] after entry h =
    (rw (same_id-same entry.id_cred entry.id_cred refl) refl, refl)
get_local_cred-first static_dh_auth (other ∷ before) after entry h =
    let rest = get_local_cred-first static_dh_auth before after entry h.1 in
    (
      rw (same_id-other other.id_cred entry.id_cred h.0) rest.0,
      rw (same_id-other other.id_cred entry.id_cred h.0) rest.1,
    )
