-- ===== src/Runtime/FlowControl/Gates.antt =====
-- The demux gates, which the effects open and close, against the controller's paused set.
use tmuxcc_driver.Prelude.{
  ℕ, ◌-◌, ◌≡◌, refl, ap, ◌∙◌, inl, inr, ◌&&◌, List, [], ◌∷◌, ◌++◌, arith, ltb, leb, ◌==◌,
  Bool-cases, Option-cases,
}
use tmuxcc_driver.Prelude.Keyed.{nat_keyed}
use tmuxcc_driver.Prelude.Dict.{get, has, add, remove}
use tmuxcc_driver.Runtime.FlowControl.{
  FlowController, Waters, Outcome, inner_for, max_buffered, add_client, on_pause_notification,
  on_continue_notification, resume_if_low, resume_all, remove_client, on_pane_bytes, debit,
  note_drained, Call, adds_client, removes_client, pane_bytes, extended_output, drained,
  paused_by_tmux, continued_by_tmux, on_extended_output, call, run,
}
use tmuxcc_driver.Runtime.FlowControl.Accounts.{debited, without}
use tmuxcc_driver.Runtime.FlowControl.{
  Effect, pause_pane, resume_pane, send_flow, on_drain_clamped, on_bytes_while_paused,
  on_command_failed,
}

-- The panes whose demux gate is closed after these effects.
abbrev pub gates : List Effect → List ℕ → List ℕ
gates [] closed = closed
gates (pause_pane pane ∷ es) closed = gates es (add closed pane)
gates (resume_pane pane ∷ es) closed = gates es (remove closed pane)
gates (_ ∷ es) closed = gates es closed

gates-append :
    (es fs : List Effect) (closed : List ℕ) → gates (es ++ fs) closed ≡ gates fs (gates es closed)
gates-append [] fs closed = refl
gates-append (pause_pane p ∷ es) fs closed = gates-append es fs (add closed p)
gates-append (resume_pane p ∷ es) fs closed = gates-append es fs (remove closed p)
gates-append (send_flow p s ∷ es) fs closed = gates-append es fs closed
gates-append (on_drain_clamped p n ∷ es) fs closed = gates-append es fs closed
gates-append (on_bytes_while_paused p n ∷ es) fs closed = gates-append es fs closed
gates-append (on_command_failed s ∷ es) fs closed = gates-append es fs closed

module _ (w : Waters) where
  -- The gates follow the paused set through an operation.
  abbrev Follows : FlowController → Outcome → Type 0
  Follows fc o = gates o.1 fc.paused ≡ o.0.paused

  resume_if_low-Follows : (pane : ℕ) (fc : FlowController) → Follows fc (resume_if_low w pane fc)
  resume_if_low-Follows pane fc =
      elim (Bool-cases (has fc.paused pane && leb (max_buffered fc pane) w.low_water)) [
        | inl low ↦ rw low refl
        | inr kept ↦ rw kept refl
      ]

  resume_all-Follows : (panes : List ℕ) (fc : FlowController) → Follows fc (resume_all w panes fc)
  unfolding resume_all
  resume_all-Follows [] fc = refl
  resume_all-Follows (pane ∷ panes) fc =
      let first = resume_if_low w pane fc in
      gates-append first.1 (resume_all w panes first.0).1 fc.paused
      ∙ ap (gates (resume_all w panes first.0).1) (resume_if_low-Follows pane fc)
      ∙ resume_all-Follows panes first.0

  remove_client-Follows :
      (client : ℕ) (fc : FlowController) → Follows fc (remove_client w client fc)
  unfolding remove_client
  remove_client-Follows client fc = elim (Bool-cases (has fc.clients client)) [
    | inl known ↦ rw known (resume_all-Follows fc.paused (without w fc client))
    | inr unknown ↦ rw unknown refl
  ]

  on_pane_bytes-Follows :
      (pane n : ℕ) (fc : FlowController) → Follows fc (on_pane_bytes w pane n fc)
  unfolding on_pane_bytes
  on_pane_bytes-Follows pane n fc = ground arith

  debit-Follows :
      (pane n client prev : ℕ) (fc : FlowController) → Follows fc (debit w pane n client prev fc)
  debit-Follows pane n client prev fc =
      let resumed = resume_if_low-Follows pane (debited w fc pane client (prev - n)) in
      elim (Bool-cases (ltb prev n)) [ inl over ↦ rw over resumed | inr under ↦ rw under resumed ]

  note_drained-Follows :
      (pane n client : ℕ) (fc : FlowController) → Follows fc (note_drained w pane n client fc)
  unfolding note_drained
  note_drained-Follows pane n client fc = elim (Bool-cases (n == 0)) [
    | inl nothing ↦ rw nothing refl
    | inr bytes ↦ elim (Option-cases (get (inner_for fc pane) client)) [
      | inl unknown ↦ rw (bytes, unknown) refl
      | inr (prev, found) ↦ elim (Bool-cases (w.clamp_throws && ltb prev n)) [
        | inl throws ↦ rw (bytes, found, throws) refl
        | inr returns ↦ rw (bytes, found, returns) (debit-Follows pane n client prev fc)
      ]
    ]
  ]

  notified-Follows :
      (pane : ℕ) (fc : FlowController)
      → Follows fc (on_pause_notification pane fc) × Follows fc (on_continue_notification pane fc)
  unfolding on_pause_notification on_continue_notification
  notified-Follows pane fc = elim (Bool-cases (has fc.paused pane)) [
    | inl held ↦ rw held (refl, refl)
    | inr free ↦ rw free (refl, refl)
  ]

  call-Follows : (c : Call) (fc : FlowController) → Follows fc (call w c fc)
  unfolding call on_extended_output add_client
  call-Follows (adds_client client) fc = refl
  call-Follows (removes_client client) fc = remove_client-Follows client fc
  call-Follows (pane_bytes pane n) fc = on_pane_bytes-Follows pane n fc
  call-Follows (extended_output pane n) fc = on_pane_bytes-Follows pane n fc
  call-Follows (drained pane n client) fc = note_drained-Follows pane n client fc
  call-Follows (paused_by_tmux pane) fc = (notified-Follows pane fc).0
  call-Follows (continued_by_tmux pane) fc = (notified-Follows pane fc).1

  -- The demux gates always agree with the controller: through any history the panes whose gate the
  -- effects leave closed are the panes that the controller counts as paused, in the same order.
  pub gates-run :
      (cs : List Call) (fc : FlowController)
      → gates (run w cs fc).1 fc.paused ≡ (run w cs fc).0.paused
  unfolding run
  gates-run [] fc = refl
  gates-run (c ∷ cs) fc =
      let first = call w c fc in
      gates-append first.1 (run w cs first.0).1 fc.paused
      ∙ ap (gates (run w cs first.0).1) (call-Follows c fc)
      ∙ gates-run cs first.0
