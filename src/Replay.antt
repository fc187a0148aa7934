-- ===== src/Replay.antt =====
-- The replay window of src/oscore/oscore2coap.c.
pub mod Window
use zephyr_uoscore_uedhoc.Prelude.{
  ℕ, Bool, List, [], false, if◌then◌else◌, ltb, suc, true, zero, ◌&&◌, ◌+◌, ◌-◌, ◌==◌, ◌||◌, ◌∷◌,
  drop, length,
}
use zephyr_uoscore_uedhoc.Memory.{Result, deref, replayed_packed_received, err, ok, ◌>>=◌}

-- The loop that looks for the number in the window.
unfoldable pub in_window : ℕ → List ℕ → Bool
in_window sender_sequence_number [] = false
in_window sender_sequence_number (x ∷ replay_window) =
    sender_sequence_number == x || in_window sender_sequence_number replay_window

-- The `else` branch of `replay_check`. The first and the last element are read with no test.
unfoldable pub window_check : ℕ → List ℕ → Result (Unit {0})
unfolding deref in_window
window_check sender_sequence_number replay_window = do
  last ← deref (drop (length replay_window - 1) replay_window)
  first ← deref replay_window
  if ltb last sender_sequence_number
      then ok tt
      else if ltb sender_sequence_number first
      then err replayed_packed_received
      else if in_window sender_sequence_number replay_window
      then err replayed_packed_received
      else ok tt

-- `first_run` is a local variable, set on each call.
unfoldable pub replay_check : ℕ → List ℕ → Result (Unit {0})
unfolding window_check
replay_check sender_sequence_number replay_window =
    let first_run = true in
    if first_run then ok tt else window_check sender_sequence_number replay_window

-- The shift to the left and the store; the position lies in the window.
unfoldable pub insert_sender_seq_number : ℕ → List ℕ → ℕ → List ℕ
insert_sender_seq_number sender_seq_number [] position = []
insert_sender_seq_number sender_seq_number (x ∷ w) zero = sender_seq_number ∷ w
insert_sender_seq_number sender_seq_number (x ∷ []) (suc position) = x ∷ []
insert_sender_seq_number sender_seq_number (x ∷ y ∷ w) (suc position) =
    y ∷ insert_sender_seq_number sender_seq_number (y ∷ w) position

-- The loop that looks for two neighbours with the number between them; else the last position.
unfoldable pub find_position : ℕ → ℕ → List ℕ → ℕ
find_position sender_seq_number i [] = i
find_position sender_seq_number i (x ∷ []) = i
find_position sender_seq_number i (x ∷ y ∷ w) =
    let later = find_position sender_seq_number (i + 1) (y ∷ w) in
    if ltb x sender_seq_number && ltb sender_seq_number y then i else later

unfoldable pub update_replay_window : ℕ → List ℕ → List ℕ
unfolding insert_sender_seq_number find_position
update_replay_window sender_seq_number replay_window =
    insert_sender_seq_number sender_seq_number replay_window
      (find_position sender_seq_number 0 replay_window)
