-- ===== src/Tests/Window.antt =====
-- The theorems on the replay window at a concrete window.
use zephyr_uoscore_uedhoc.Memory.{err, ok, replayed_packed_received}
use zephyr_uoscore_uedhoc.Replay.Window.{
  IsSorted, replay_check-update_replay_window, update_replay_window-IsSorted,
  update_replay_window-enter,
}
use zephyr_uoscore_uedhoc.Prelude.{List, [], arith, length, refl, ℕ, ◌==◌, ◌||◌, ◌∷◌, ◌≡◌}
use zephyr_uoscore_uedhoc.Replay.{in_window, replay_check, update_replay_window, window_check}

-- The numbers 4 and 9 were received; 6 is new.
abbrev window : List ℕ
window = 4 ∷ 9 ∷ []

window-IsSorted : IsSorted (0 ∷ window)
window-IsSorted = (omega arith, (omega arith, tt))

update_replay_window-enter_example : update_replay_window 6 (0 ∷ window) ≡ 4 ∷ 6 ∷ 9 ∷ []
unfolding in_window
update_replay_window-enter_example =
    update_replay_window-enter window 6 0 window-IsSorted (omega arith) refl

update_replay_window-IsSorted_example :
    IsSorted (update_replay_window 6 (0 ∷ window))
    × (length (update_replay_window 6 (0 ∷ window)) ≡ 3)
    × ((t : ℕ) → in_window t (update_replay_window 6 (0 ∷ window)) ≡ (t == 6 || in_window t window))
unfolding in_window
update_replay_window-IsSorted_example =
    update_replay_window-IsSorted window 6 0 window-IsSorted (omega arith) refl

replay_check-update_replay_window_example :
    (window_check 6 (update_replay_window 6 (0 ∷ window)) ≡ err replayed_packed_received)
    × (replay_check 6 (update_replay_window 6 (0 ∷ window)) ≡ ok tt)
unfolding in_window
replay_check-update_replay_window_example =
    replay_check-update_replay_window window 6 0 window-IsSorted (omega arith) refl
