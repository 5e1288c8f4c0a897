-- ===== src/Runtime/FlowControl/Tests.antt =====
-- Runs of the flow controller.
use tmuxcc_driver.Prelude.{◌≤◌, ◌<◌, ◌≡◌, refl, true, List, [], ◌∷◌, arith}
use tmuxcc_driver.Prelude.Keyed.{nat_keyed}
use tmuxcc_driver.Prelude.Dict.{has, add, get, set}
use tmuxcc_driver.Runtime.FlowControl.{
  FlowController, Waters, new_controller, max_buffered, max_of, credit, clamp, on_pane_bytes,
  note_drained, Call, adds_client, removes_client, pane_bytes, drained, paused_by_tmux, call,
  add_client, run,
}
use tmuxcc_driver.Runtime.FlowControl.Accounts.{owed, IsWellFormed}
use tmuxcc_driver.Runtime.FlowControl.History.{
  held_back, run-IsWellFormed, new_controller-IsWellFormed, run-held_back, run-max_buffered,
}
use tmuxcc_driver.Runtime.FlowControl.Gates.{gates, gates-run}

abbrev small : Waters
small = record { high_water = 10; low_water = 4; clamp_throws = true }

-- Two clients, and a pane that crosses the mark; the first client drains.
abbrev flood : List Call
flood = adds_client 1 ∷ adds_client 2 ∷ pane_bytes 7 6 ∷ pane_bytes 7 6 ∷ drained 7 10 1 ∷ []

run-held_back_example :
    (has (run small flood new_controller).0.paused 7 ≡ true)
    × (4 < max_buffered (run small flood new_controller).0 7)
unfolding has add get set run call held_back on_pane_bytes note_drained credit clamp max_of
    add_client
run-held_back_example = run-held_back small flood 7 (omega arith) refl

run-max_buffered_example :
    (owed (run small flood new_controller).0 7 2
      ≤ max_buffered (run small flood new_controller).0 7)
    × (max_buffered (run small flood new_controller).0 7 ≤ 10)
run-max_buffered_example = run-max_buffered small flood 7 2

-- The slow client leaves, and the other one.
abbrev leaving : List Call
leaving =
    adds_client 1
    ∷ adds_client 2
    ∷ pane_bytes 7 16
    ∷ removes_client 2
    ∷ removes_client 1
    ∷ pane_bytes 7 16
    ∷ []

gates-run_example :
    gates (run small (paused_by_tmux 3 ∷ flood) new_controller).1 []
    ≡ (run small (paused_by_tmux 3 ∷ flood) new_controller).0.paused
gates-run_example = gates-run small (paused_by_tmux 3 ∷ flood) new_controller

-- The controller before the first bytes.
abbrev attended : FlowController
attended = (run small (adds_client 1 ∷ adds_client 2 ∷ []) new_controller).0

attended-IsWellFormed : IsWellFormed small attended
attended-IsWellFormed =
    run-IsWellFormed small (adds_client 1 ∷ adds_client 2 ∷ []) new_controller
      (new_controller-IsWellFormed small)
