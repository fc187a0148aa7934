-- ===== src/Replay/Window.antt =====
-- The replay window of src/oscore/oscore2coap.c before and after an update.
use zephyr_uoscore_uedhoc.Prelude.{
  ℕ, List, [], false, if◌then◌else◌, ltb, refl, ◌+◌, ◌<◌, ◌∷◌, ◌≡◌, Bool-cases, arith, inl, inr,
  length, suc, ◌==◌, ◌||◌, drop, true, ◌≤◌, le→ltb, ◌-◌,
}
use zephyr_uoscore_uedhoc.Replay.{
  find_position, in_window, update_replay_window, window_check, replay_check,
}
use zephyr_uoscore_uedhoc.Memory.{deref, err, ok, replayed_packed_received}

-- Increasing; the first window is all zeros.
abbrev pub IsSorted : List ℕ → Type 0
IsSorted [] = Unit
IsSorted (x ∷ []) = Unit
IsSorted (x ∷ y ∷ w) = (x ≤ y) × IsSorted (y ∷ w)

-- The last element.
abbrev pub newest : ℕ → List ℕ → ℕ
newest x [] = x
newest x (y ∷ w) = newest y w

-- The specification of an update: the number enters at its place, and the smallest leaves.
abbrev pub enter : ℕ → List ℕ → List ℕ
enter s [] = s ∷ []
enter s (x ∷ w) = if ltb s x then s ∷ x ∷ w else x ∷ enter s w

find_position-suc : (s i : ℕ) (w : List ℕ) → find_position s (i + 1) w ≡ suc (find_position s i w)
unfolding find_position
find_position-suc s i [] = omega arith
find_position-suc s i (x ∷ []) = omega arith
find_position-suc s i (x ∷ y ∷ w) = ground (arith, find_position-suc s (i + 1) (y ∷ w))

-- The loops of the source do what the specification says, for a number that is not in the
-- window and not below it.
pub update_replay_window-enter :
    (w : List ℕ) (s x : ℕ)
    → IsSorted (x ∷ w)
    → x < s
    → in_window s (x ∷ w) ≡ false
    → update_replay_window s (x ∷ w) ≡ enter s w
unfolding update_replay_window in_window
update_replay_window-enter [] s x h lt new = refl
update_replay_window-enter (y ∷ w) s x h lt new = elim (Bool-cases (ltb s y)) [
  | inl below ↦ ground arith
  | inr above ↦
      let y_lt : y < s = ground arith in
      let found : find_position s 0 (x ∷ y ∷ w) ≡ suc (find_position s 0 (y ∷ w)) =
        ground (arith, find_position-suc s 0 (y ∷ w)) in
      let new' : in_window s (y ∷ w) ≡ false = ground arith in
      rw (found, above) (rw (← update_replay_window-enter w s y h.1 y_lt new'))
]

enter-IsSorted :
    (w : List ℕ) (s x : ℕ)
    → IsSorted (x ∷ w)
    → x ≤ s
    → in_window s w ≡ false
    → IsSorted (x ∷ enter s w)
unfolding in_window
enter-IsSorted [] s x h lt new = (lt, tt)
enter-IsSorted (y ∷ w) s x h lt new = ground (arith, enter-IsSorted w s y h.1)

length-enter : (w : List ℕ) (s : ℕ) → length (enter s w) ≡ suc (length w)
length-enter [] s = refl
length-enter (x ∷ w) s = ground (arith, length-enter w s)

in_window-enter : (w : List ℕ) (s t : ℕ) → in_window t (enter s w) ≡ (t == s || in_window t w)
unfolding in_window
in_window-enter [] s t = refl
in_window-enter (x ∷ w) s t = ground (arith, in_window-enter w s t)

enter-IsSorted_tail :
    (w : List ℕ) (s x : ℕ) → IsSorted (x ∷ w) → x < s → in_window s w ≡ false → IsSorted (enter s w)
unfolding in_window
enter-IsSorted_tail [] s x h lt new = tt
enter-IsSorted_tail (y ∷ w) s x h lt new = ground (arith, enter-IsSorted w s y h.1)

-- The update of a sorted window by a number above its oldest and not in it gives a sorted window
-- of the same length, which holds that number and the old ones but the oldest.
pub update_replay_window-IsSorted :
    (w : List ℕ) (s x : ℕ)
    → IsSorted (x ∷ w)
    → x < s
    → in_window s (x ∷ w) ≡ false
    → IsSorted (update_replay_window s (x ∷ w))
      × (length (update_replay_window s (x ∷ w)) ≡ length (x ∷ w))
      × ((t : ℕ) → in_window t (update_replay_window s (x ∷ w)) ≡ (t == s || in_window t w))
unfolding in_window
update_replay_window-IsSorted w s x h lt new =
    let new' : in_window s w ≡ false = ground arith in
    rw (update_replay_window-enter w s x h lt new)
      (enter-IsSorted_tail w s x h lt new', length-enter w s, in_window-enter w s)

-- The last number of a sorted window bounds the others.
deref-newest : (w : List ℕ) (x : ℕ) → deref (drop (length w) (x ∷ w)) ≡ ok (newest x w)
unfolding deref
deref-newest [] x = refl
deref-newest (y ∷ w) x = deref-newest w y

le-newest : (w : List ℕ) (s x : ℕ) → IsSorted (x ∷ w) → in_window s (x ∷ w) ≡ true → s ≤ newest x w
unfolding in_window
le-newest [] s x h e = ground arith
le-newest (y ∷ w) s x h e =
    let self : in_window y (y ∷ w) ≡ true = ground arith in
    ground (arith, le-newest w s y h.1, le-newest w y y h.1 self)

-- A number in a sorted window would be found by the check behind `first_run`.
pub window_check-member :
    (w : List ℕ) (s : ℕ)
    → IsSorted w
    → in_window s w ≡ true
    → window_check s w ≡ err replayed_packed_received
unfolding window_check
window_check-member [] s h e = unfold in_window in cc e
window_check-member (x ∷ w) s h e =
    let len : suc (length w) - 1 ≡ length w = omega arith in
    let le = le-newest w s x h e in
    let above : ltb (newest x w) s ≡ false = le→ltb _ _ le in
    rw (len, deref-newest w x, above, e) (unfold deref in ground arith)

-- A number that was just recorded is a replay to the check behind `first_run`, but
-- `replay_check` accepts it.
pub replay_check-update_replay_window :
    (w : List ℕ) (s x : ℕ)
    → IsSorted (x ∷ w)
    → x < s
    → in_window s (x ∷ w) ≡ false
    → (window_check s (update_replay_window s (x ∷ w)) ≡ err replayed_packed_received)
      × (replay_check s (update_replay_window s (x ∷ w)) ≡ ok tt)
unfolding replay_check
replay_check-update_replay_window w s x h lt new =
    let (sorted, _, holds) = update_replay_window-IsSorted w s x h lt new in
    (window_check-member (update_replay_window s (x ∷ w)) s sorted (ground (arith, holds s)), refl)
