-- ===== src/Edhoc/Support.antt =====
-- The loop of `selected_suite_is_supported` (src/edhoc/responder.c), whose counter is a
-- `uint8_t` and whose bound is not.
use zephyr_uoscore_uedhoc.Prelude.{
  ℕ, zero, suc, ◌+◌, ◌≡◌, ◌≤◌, ◌<◌, arith, Bool, true, false, ◌==◌, Option, some, if◌then◌else◌,
  length, [], ◌∷◌, drop, get_elem?, Bool-cases, drop_all, inl, inr, ltb, ltb→le, ltb→lt, lt→ltb,
  none, refl, take, u8,
}
use zephyr_uoscore_uedhoc.Memory.{Bytes, ok, Result}
use zephyr_uoscore_uedhoc.Edhoc.Responder.{suite_loop, suite_round, selected_suite_is_supported}

-- Whether a suite is in a list
abbrev pub member : ℕ → Bytes → Bool
member selected [] = false
member selected (s ∷ suites) = if s == selected then true else member selected suites

-- A list from a place on
member_step :
    (i selected : ℕ) (suites : Bytes) (rest : Option (Result Bool))
    → i < length suites
    → rest ≡ some (ok (member selected (drop (suc i) suites)))
    → suite_round (get_elem? suites i) selected rest ≡ some (ok (member selected (drop i suites)))
member_step zero selected [] rest h e = absurd (omega arith)
member_step (suc i) selected [] rest h e = absurd (omega arith)
member_step zero selected (s ∷ suites) rest h e = ground arith
member_step (suc i) selected (s ∷ suites) rest h e =
    member_step i selected suites rest (omega arith) e

suite_loop_lem :
    (fuel i selected : ℕ) (suites : Bytes)
    → length suites ≤ 255
    → i ≤ length suites
    → length suites < i + fuel
    → suite_loop fuel i selected suites ≡ some (ok (member selected (drop i suites)))
unfolding suite_loop
suite_loop_lem zero i selected suites h k l = absurd (omega arith)
suite_loop_lem (suc fuel) i selected suites h k l = elim (Bool-cases (ltb i (length suites))) [
  | inl e ↦
      let next = suite_loop_lem fuel (suc i) selected suites h (ltb→lt i _ e) (omega arith) in
      let small : u8 (i + 1) ≡ suc i = omega (arith, ltb→lt i _ e) in
      rw (e, small) (member_step i selected suites _ (ltb→lt i _ e) next)
  | inr e ↦ rw (e, drop_all i suites (ltb→le i _ e)) refl
]

-- With at most 255 suites the loop ends, and says whether the selected suite is one of them.
pub selected_suite_is_supported-member :
    (selected : ℕ) (suites : Bytes)
    → length suites ≤ 255
    → selected_suite_is_supported selected suites ≡ ok (member selected suites)
unfolding selected_suite_is_supported
selected_suite_is_supported-member selected suites h =
    rw (suite_loop_lem 257 0 selected suites h (omega arith) (omega arith)) refl

-- A place that the loop passes
passed :
    (i selected : ℕ) (suites : Bytes) (rest : Option (Result Bool))
    → i < length suites
    → member selected (take (suc i) suites) ≡ false
    → suite_round (get_elem? suites i) selected rest ≡ rest
passed zero selected [] rest h e = absurd (omega arith)
passed (suc i) selected [] rest h e = absurd (omega arith)
passed zero selected (s ∷ suites) rest h e = ground arith
passed (suc i) selected (s ∷ suites) rest h e =
    passed i selected suites rest (omega arith) (ground arith)

not_before :
    (i n selected : ℕ) (suites : Bytes)
    → i < n
    → member selected (take n suites) ≡ false
    → member selected (take (suc i) suites) ≡ false
not_before i zero selected suites h e = absurd (omega arith)
not_before i (suc n) selected [] h e = refl
not_before zero (suc n) selected (s ∷ suites) h e = ground arith
not_before (suc i) (suc n) selected (s ∷ suites) h e =
    ground (arith, not_before i n selected suites)

-- With more than 255 suites, none of the first 256 the selected one, the loop never ends: it
-- starts again at the first suite.
pub suite_loop_endless :
    (fuel i selected : ℕ) (suites : Bytes)
    → 255 < length suites
    → i < 256
    → member selected (take 256 suites) ≡ false
    → suite_loop fuel i selected suites ≡ none
unfolding suite_loop
suite_loop_endless zero i selected suites h k e = refl
suite_loop_endless (suc fuel) i selected suites h k e =
    let next = suite_loop_endless fuel (u8 (i + 1)) selected suites h (omega arith) e in
    rw (lt→ltb i (length suites) (omega arith), next)
      (passed i selected suites none (omega arith) (not_before i 256 selected suites k e))
