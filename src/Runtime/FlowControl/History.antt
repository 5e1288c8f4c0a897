-- ===== src/Runtime/FlowControl/History.antt =====
-- Histories of calls: the ledgers stay within the mark, and a pane is held back only while a client
-- is behind.
use tmuxcc_driver.Prelude.{
  ℕ, ◌≤◌, ◌<◌, ◌≡◌, inl, inr, true, false, List, [], ◌∷◌, arith, Bool-cases, Option-cases,
}
use tmuxcc_driver.Prelude.Keyed.{nat_keyed}
use tmuxcc_driver.Prelude.Dict.{get, has}
use tmuxcc_driver.Runtime.FlowControl.{
  FlowController, Waters, inner_for, max_buffered, add_client, Call, adds_client, removes_client,
  pane_bytes, extended_output, drained, paused_by_tmux, continued_by_tmux, on_extended_output, call,
  run, new_controller,
}
use tmuxcc_driver.Runtime.FlowControl.Ledger.{max_of_ge, max_of_le}
use tmuxcc_driver.Runtime.FlowControl.Accounts.{entry, owed, IsWellFormed}
use tmuxcc_driver.Runtime.FlowControl.Calls.{call-IsWellFormed}
use tmuxcc_driver.Runtime.FlowControl.Held.{mark, released, Holds}
use tmuxcc_driver.Runtime.FlowControl.NoWedge.{
  on_pane_bytes-Holds, note_drained-Holds, remove_client-Holds, on_pause-Holds, on_continue-Holds,
}

-- The panes held back after a history.
unfoldable pub held_back : Waters → List Call → FlowController → List ℕ → List ℕ
held_back w [] fc held = held
held_back w (c ∷ cs) fc held =
    held_back w cs (call w c fc).0 (mark (call w c fc).1 (released c held))

module _ (w : Waters) where
  call-Holds :
      (c : Call) (fc : FlowController) (held : List ℕ)
      → w.low_water < w.high_water
      → Holds w fc held
      → Holds w (call w c fc).0 (mark (call w c fc).1 (released c held))
  unfolding call on_extended_output add_client
  call-Holds (adds_client client) fc held marks h = h
  call-Holds (removes_client client) fc held marks h = remove_client-Holds w fc client held h
  call-Holds (pane_bytes pane n) fc held marks h = on_pane_bytes-Holds w fc pane n held marks h
  call-Holds (extended_output pane n) fc held marks h = on_pane_bytes-Holds w fc pane n held marks h
  call-Holds (drained pane n client) fc held marks h = note_drained-Holds w fc pane n client held h
  call-Holds (paused_by_tmux pane) fc held marks h = on_pause-Holds w fc pane held h
  call-Holds (continued_by_tmux pane) fc held marks h = on_continue-Holds w fc pane held h

  run-Holds :
      (cs : List Call) (fc : FlowController) (held : List ℕ)
      → w.low_water < w.high_water
      → Holds w fc held
      → Holds w (run w cs fc).0 (held_back w cs fc held)
  unfolding run held_back
  run-Holds [] fc held marks h = h
  run-Holds (c ∷ cs) fc held marks h =
      run-Holds cs (call w c fc).0 (mark (call w c fc).1 (released c held)) marks
        (call-Holds c fc held marks h)

  pub run-IsWellFormed :
      (cs : List Call) (fc : FlowController) → IsWellFormed w fc → IsWellFormed w (run w cs fc).0
  unfolding run
  run-IsWellFormed [] fc h = h
  run-IsWellFormed (c ∷ cs) fc h = run-IsWellFormed cs (call w c fc).0 (call-IsWellFormed w c fc h)

  pub new_controller-IsWellFormed : IsWellFormed w new_controller
  unfolding get
  new_controller-IsWellFormed = record {
    unique = λ q. tt;
    distinct = tt;
    within = λ q k n found. absurd (cc found);
  }

  new_controller-Holds : Holds w new_controller []
  unfolding has
  new_controller-Holds = (λ q h. absurd (cc h), λ q h. absurd (cc h))

  -- No history holds a pane back for longer than a client is behind: whenever the last flow command
  -- sent for a pane is a pause, and tmux has not let it go on since, the pane is paused here and its
  -- slowest client is owed more than the low-water mark, so that drains will reach the resume edge.
  pub run-held_back :
      (cs : List Call) (pane : ℕ)
      → w.low_water < w.high_water
      → has (held_back w cs new_controller []) pane ≡ true
      → (has (run w cs new_controller).0.paused pane ≡ true)
        × (w.low_water < max_buffered (run w cs new_controller).0 pane)
  run-held_back cs pane marks is_held =
      let (paused, behind) = run-Holds cs new_controller [] marks new_controller-Holds in
      (paused pane is_held, behind pane is_held)

  max_within :
      (fc : FlowController) (pane : ℕ) → IsWellFormed w fc → max_buffered fc pane ≤ w.high_water
  max_within fc pane h =
      max_of_le (inner_for fc pane) w.high_water (h.unique pane)
        (λ k n found. (h.within pane k n found).0)

  owed_max : (fc : FlowController) (pane client : ℕ) → owed fc pane client ≤ max_buffered fc pane
  owed_max fc pane client = elim (Option-cases (entry fc pane client)) [
    | inl none_yet ↦ rw none_yet (omega arith)
    | inr (n, found) ↦ rw found (max_of_ge (inner_for fc pane) client n found)
  ]

  -- Through any history no client is owed more of a pane than the pane's buffered count, the largest
  -- backlog, and that count stays within the high-water mark.
  pub run-max_buffered :
      (cs : List Call) (pane client : ℕ)
      → (owed (run w cs new_controller).0 pane client
          ≤ max_buffered (run w cs new_controller).0 pane)
        × (max_buffered (run w cs new_controller).0 pane ≤ w.high_water)
  run-max_buffered cs pane client =
      let fc = (run w cs new_controller).0 in
      (
        owed_max fc pane client,
        max_within fc pane (run-IsWellFormed cs new_controller new_controller-IsWellFormed),
      )

  unattended_max :
      (fc : FlowController) (pane : ℕ)
      → IsWellFormed w fc
      → fc.clients ≡ []
      → max_buffered fc pane ≤ 0
  unfolding has
  unattended_max fc pane h nobody = max_of_le (inner_for fc pane) 0 (h.unique pane) (λ k n found.
      let known = (h.within pane k n found).1 in
      let e : false ≡ true = rw nobody at known in absurd (cc e))

  -- With no client registered, whatever happened before, no bytes are buffered for any pane, and no
  -- pane is held back.
  pub run-unattended :
      (cs : List Call) (pane : ℕ)
      → w.low_water < w.high_water
      → (run w cs new_controller).0.clients ≡ []
      → (max_buffered (run w cs new_controller).0 pane ≡ 0)
        × (has (held_back w cs new_controller []) pane ≡ false)
  run-unattended cs pane marks nobody =
      let fc = (run w cs new_controller).0 in
      let none_owed =
        unattended_max fc pane (run-IsWellFormed cs new_controller new_controller-IsWellFormed)
          nobody in
      (
        omega arith,
        elim (Bool-cases (has (held_back w cs new_controller []) pane)) [
          | inl is_held ↦
              let (_, behind) = run-held_back cs pane marks is_held in absurd (omega arith)
          | inr free ↦ free
        ],
      )
