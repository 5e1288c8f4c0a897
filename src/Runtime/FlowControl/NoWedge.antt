-- ===== src/Runtime/FlowControl/NoWedge.antt =====
-- Each operation keeps it so that a pane is held back only while a client is behind.
use tmuxcc_driver.Prelude.{
  ◌&&◌, ℕ, ◌-◌, ◌<◌, ◌≡◌, refl, inl, inr, Bool, true, false, List, [], ◌∷◌, ◌++◌, arith, length,
  ltb, ◌==◌, if◌then◌else◌, Bool-cases, Option-cases,
}
use tmuxcc_driver.Prelude.Keyed.{nat_keyed}
use tmuxcc_driver.Prelude.Dict.{Dict, get, set, has, add, remove, has-add}
use tmuxcc_driver.Runtime.FlowControl.{
  FlowController, Waters, inner_for, max_of, clamp, on_pause_notification, on_continue_notification,
  resume_if_low, remove_client, on_pane_bytes, debit, note_drained,
}
use tmuxcc_driver.Runtime.FlowControl.Ledger.{max_of-clamp}
use tmuxcc_driver.Runtime.FlowControl.Accounts.{
  inner_for-set, credited, debited, without, resume_all-books,
}
use tmuxcc_driver.Runtime.FlowControl.{Effect, on_drain_clamped}
use tmuxcc_driver.Runtime.FlowControl.Held.{
  mark, Holds, still_there, ArePaused-remove, resume_if_low-Holds, resume_all_lem,
}

module _ (w : Waters) where
  credit_over-Holds :
      (fc : FlowController) (pane n : ℕ) (held : List ℕ)
      → w.low_water < w.high_water
      → ltb w.high_water (max_of (credited w fc pane n)) ≡ true
      → Holds w fc held
      → Holds w
          (record fc {
            buffered = set fc.buffered pane (clamp fc.clients w.high_water (credited w fc pane n));
            paused = add fc.paused pane;
          })
          (add held pane)
  credit_over-Holds fc pane n held marks over (paused, behind) =
      let inner = clamp fc.clients w.high_water (credited w fc pane n) in
      let full = max_of-clamp fc.clients w.high_water (credited w fc pane n) (ground arith) in
      (
        λ q is_held. elim (Bool-cases (pane == q)) [
          | inl here ↦ rw (has-add fc.paused pane q, here) refl
          | inr there ↦
              rw (has-add fc.paused pane q, there)
                (paused q (rw (has-add held pane q, there) at is_held))
        ],
        λ q is_held. elim (Bool-cases (pane == q)) [
          | inl here ↦ rw (inner_for-set fc pane q inner, here) (omega arith)
          | inr there ↦
              rw (inner_for-set fc pane q inner, there)
                (behind q (rw (has-add held pane q, there) at is_held))
        ],
      )

  -- A pane that is not paused is not held back, so the ledgers of the panes held back stay.
  credit_under-Holds :
      (fc : FlowController) (pane : ℕ) (inner : Dict ℕ ℕ) (held : List ℕ)
      → has fc.paused pane ≡ false
      → Holds w fc held
      → Holds w (record fc { buffered = set fc.buffered pane inner }) held
  credit_under-Holds fc pane inner held free (paused, behind) = (
    paused,
    λ q is_held. elim (Bool-cases (pane == q)) [
      | inl here ↦ let e : pane ≡ q = ground arith in absurd (cc (paused q is_held, rw e at free))
      | inr there ↦ rw (inner_for-set fc pane q inner, there) (behind q is_held)
    ],
  )

  pub on_pane_bytes-Holds :
      (fc : FlowController) (pane n : ℕ) (held : List ℕ)
      → w.low_water < w.high_water
      → Holds w fc held
      → Holds w (on_pane_bytes w pane n fc).0 (mark (on_pane_bytes w pane n fc).1 held)
  unfolding on_pane_bytes
  on_pane_bytes-Holds fc pane n held marks h = elim (Bool-cases (n == 0)) [
    | inl nothing ↦ rw nothing h
    | inr bytes ↦ elim (Bool-cases (has fc.paused pane)) [
      | inl is_held ↦ rw (bytes, is_held) h
      | inr free ↦ elim (Bool-cases (length fc.clients == 0)) [
        | inl nobody ↦ rw (bytes, free, nobody) h
        | inr somebody ↦ elim (Bool-cases (ltb w.high_water (max_of (credited w fc pane n)))) [
          | inl over ↦
              rw (bytes, free, somebody, over) (credit_over-Holds fc pane n held marks over h)
          | inr under ↦
              rw (bytes, free, somebody, under)
                (credit_under-Holds fc pane (credited w fc pane n) held free h)
        ]
      ]
    ]
  ]

  mark-clamped :
      (b : Bool) (pane n : ℕ) (es : List Effect) (held : List ℕ)
      → mark ((if b then on_drain_clamped pane n ∷ [] else []) ++ es) held ≡ mark es held
  mark-clamped true pane n es held = refl
  mark-clamped false pane n es held = refl

  debit-Holds :
      (fc : FlowController) (pane n client prev : ℕ) (held : List ℕ)
      → Holds w fc held
      → Holds w (debit w pane n client prev fc).0 (mark (debit w pane n client prev fc).1 held)
  debit-Holds fc pane n client prev held (paused, behind) =
      let fc' = debited w fc pane client (prev - n) in
      let inner = set (inner_for fc pane) client (prev - n) in
      rw (mark-clamped (ltb prev n) pane (n - prev) (resume_if_low w pane fc').1 held) (
        resume_if_low-Holds w fc' pane held paused
          (λ q there is_held. rw (inner_for-set fc pane q inner, there) (behind q is_held)))

  pub note_drained-Holds :
      (fc : FlowController) (pane n client : ℕ) (held : List ℕ)
      → Holds w fc held
      → Holds w (note_drained w pane n client fc).0 (mark (note_drained w pane n client fc).1 held)
  unfolding note_drained
  note_drained-Holds fc pane n client held h = elim (Bool-cases (n == 0)) [
    | inl nothing ↦ rw nothing h
    | inr bytes ↦ elim (Option-cases (get (inner_for fc pane) client)) [
      | inl unknown ↦ rw (bytes, unknown) h
      | inr (prev, found) ↦ elim (Bool-cases (w.clamp_throws && ltb prev n)) [
        | inl throws ↦ rw (bytes, found, throws) h
        | inr returns ↦ rw (bytes, found, returns) (debit-Holds fc pane n client prev held h)
      ]
    ]
  ]

  pub remove_client-Holds :
      (fc : FlowController) (client : ℕ) (held : List ℕ)
      → Holds w fc held
      → Holds w (remove_client w client fc).0 (mark (remove_client w client fc).1 held)
  unfolding remove_client
  remove_client-Holds fc client held (paused, behind) = elim (Bool-cases (has fc.clients client)) [
    | inl known ↦
        let fc' = without w fc client in
        let (books, _) = resume_all-books w fc.paused fc' in
        let (still, evaluated) = resume_all_lem w fc.paused fc' held paused in
        rw known (
          still,
          λ q is_held. let (was, low_or) = evaluated q is_held in rw books (low_or (paused q was)),
        )
    | inr unknown ↦ rw unknown (paused, behind)
  ]

  pub on_pause-Holds :
      (fc : FlowController) (pane : ℕ) (held : List ℕ)
      → Holds w fc held
      → Holds w (on_pause_notification pane fc).0 (mark (on_pause_notification pane fc).1 held)
  unfolding on_pause_notification
  on_pause-Holds fc pane held (paused, behind) = elim (Bool-cases (has fc.paused pane)) [
    | inl already ↦ rw already (paused, behind)
    | inr free ↦
        rw free (λ q is_held. ground (arith, has-add fc.paused pane q, paused q is_held), behind)
  ]

  pub on_continue-Holds :
      (fc : FlowController) (pane : ℕ) (held : List ℕ)
      → Holds w fc held
      → Holds w
          (on_continue_notification pane fc).0
          (mark (on_continue_notification pane fc).1 (remove held pane))
  unfolding on_continue_notification
  on_continue-Holds fc pane held (paused, behind) =
      let still : (q : ℕ) → has (remove held pane) q ≡ true → has held q ≡ true =
        λ q is_held. (still_there held pane q is_held).1 in
      elim (Bool-cases (has fc.paused pane)) [
        | inl already ↦
            rw already
              (ArePaused-remove fc pane held paused, λ q is_held. behind q (still q is_held))
        | inr free ↦
            rw free
              (λ q is_held. paused q (still q is_held), λ q is_held. behind q (still q is_held))
      ]
