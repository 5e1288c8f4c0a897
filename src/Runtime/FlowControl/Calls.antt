-- ===== src/Runtime/FlowControl/Calls.antt =====
-- Every call keeps the ledgers well-formed.
use tmuxcc_driver.Prelude.{
  ◌&&◌, ℕ, ◌-◌, refl, inl, inr, length, ltb, ◌==◌, Bool-cases, Option-cases,
}
use tmuxcc_driver.Prelude.Keyed.{nat_keyed}
use tmuxcc_driver.Prelude.Dict.{get, set, has}
use tmuxcc_driver.Runtime.FlowControl.{
  FlowController, Waters, inner_for, max_of, clamp, on_pause_notification, on_continue_notification,
  resume_all, remove_client, on_pane_bytes, note_drained, Call, adds_client, removes_client,
  pane_bytes, extended_output, drained, paused_by_tmux, continued_by_tmux, on_extended_output, call,
}
use tmuxcc_driver.Runtime.FlowControl.Accounts.{
  IsWellFormed, same_books, credited, debited, without, resume_if_low-books, resume_all-books,
}
use tmuxcc_driver.Runtime.FlowControl.Books.{
  add_client-IsWellFormed, without-IsWellFormed, credited-IsWellFormed, clamped-IsWellFormed,
  debited-IsWellFormed,
}

module _ (w : Waters) where
  remove_client-IsWellFormed :
      (fc : FlowController) (client : ℕ)
      → IsWellFormed w fc
      → IsWellFormed w (remove_client w client fc).0
  unfolding remove_client
  remove_client-IsWellFormed fc client h = elim (Bool-cases (has fc.clients client)) [
    | inl known ↦
        let (b, c) = resume_all-books w fc.paused (without w fc client) in
        rw known (
          same_books w (without w fc client) (resume_all w fc.paused (without w fc client)).0 b c
            (without-IsWellFormed w fc client h))
    | inr unknown ↦ rw unknown h
  ]

  on_pane_bytes-IsWellFormed :
      (fc : FlowController) (pane n : ℕ)
      → IsWellFormed w fc
      → IsWellFormed w (on_pane_bytes w pane n fc).0
  unfolding on_pane_bytes
  on_pane_bytes-IsWellFormed fc pane n h = elim (Bool-cases (n == 0)) [
    | inl nothing ↦ rw nothing h
    | inr bytes ↦ elim (Bool-cases (has fc.paused pane)) [
      | inl held ↦ rw (bytes, held) h
      | inr free ↦ elim (Bool-cases (length fc.clients == 0)) [
        | inl nobody ↦ rw (bytes, free, nobody) h
        | inr somebody ↦ elim (Bool-cases (ltb w.high_water (max_of (credited w fc pane n)))) [
          | inl over ↦
              rw (bytes, free, somebody, over)
                (same_books w
                  (record fc {
                    buffered =
                        set fc.buffered pane (clamp fc.clients w.high_water (credited w fc pane n));
                  })
                  _ refl refl (clamped-IsWellFormed w fc pane n h))
          | inr under ↦
              rw (bytes, free, somebody, under) (credited-IsWellFormed w fc pane n h under)
        ]
      ]
    ]
  ]

  note_drained-IsWellFormed :
      (fc : FlowController) (pane n client : ℕ)
      → IsWellFormed w fc
      → IsWellFormed w (note_drained w pane n client fc).0
  unfolding note_drained
  note_drained-IsWellFormed fc pane n client h = elim (Bool-cases (n == 0)) [
    | inl nothing ↦ rw nothing h
    | inr bytes ↦ elim (Option-cases (get (inner_for fc pane) client)) [
      | inl unknown ↦ rw (bytes, unknown) h
      | inr (prev, found) ↦ elim (Bool-cases (w.clamp_throws && ltb prev n)) [
        | inl throws ↦ rw (bytes, found, throws) h
        | inr returns ↦
            let (b, c) = resume_if_low-books w pane (debited w fc pane client (prev - n)) in
            rw (bytes, found, returns)
              (same_books w (debited w fc pane client (prev - n)) _ b c
                (debited-IsWellFormed w fc pane n client prev h found))
      ]
    ]
  ]

  paused-IsWellFormed :
      (fc : FlowController) (pane : ℕ)
      → IsWellFormed w fc
      → IsWellFormed w (on_pause_notification pane fc).0
        × IsWellFormed w (on_continue_notification pane fc).0
  unfolding on_pause_notification on_continue_notification
  paused-IsWellFormed fc pane h = elim (Bool-cases (has fc.paused pane)) [
    | inl held ↦ rw held (h, same_books w fc _ refl refl h)
    | inr free ↦ rw free (same_books w fc _ refl refl h, h)
  ]

  pub call-IsWellFormed :
      (c : Call) (fc : FlowController) → IsWellFormed w fc → IsWellFormed w (call w c fc).0
  unfolding call on_extended_output
  call-IsWellFormed (adds_client client) fc h = add_client-IsWellFormed w fc client h
  call-IsWellFormed (removes_client client) fc h = remove_client-IsWellFormed fc client h
  call-IsWellFormed (pane_bytes pane n) fc h = on_pane_bytes-IsWellFormed fc pane n h
  call-IsWellFormed (extended_output pane n) fc h = on_pane_bytes-IsWellFormed fc pane n h
  call-IsWellFormed (drained pane n client) fc h = note_drained-IsWellFormed fc pane n client h
  call-IsWellFormed (paused_by_tmux pane) fc h = (paused-IsWellFormed fc pane h).0
  call-IsWellFormed (continued_by_tmux pane) fc h = (paused-IsWellFormed fc pane h).1
