-- ===== src/Runtime/FlowControl/Held.antt =====
-- A pane that the controller has told tmux to hold back is one whose slowest client is above the
-- low-water mark.
use tmuxcc_driver.Prelude.{
  ℕ, ◌<◌, ◌≡◌, refl, inl, inr, true, false, ◌&&◌, List, [], ◌∷◌, ◌++◌, arith, leb, ◌==◌, Bool-cases,
}
use tmuxcc_driver.Prelude.Keyed.{nat_keyed}
use tmuxcc_driver.Prelude.Dict.{has, add, remove, has-remove}
use tmuxcc_driver.Runtime.FlowControl.{
  FlowController, Waters, max_buffered, resume, resume_if_low, resume_all, Call, continued_by_tmux,
}
use tmuxcc_driver.Runtime.FlowControl.{
  Effect, pause_pane, resume_pane, send_flow, on_drain_clamped, on_bytes_while_paused,
  on_command_failed, pause, continue,
}

-- The panes that tmux was told to hold back, after these effects: the last command for each is a
-- pause.
abbrev pub mark : List Effect → List ℕ → List ℕ
mark [] held = held
mark (send_flow pane pause ∷ es) held = mark es (add held pane)
mark (send_flow pane continue ∷ es) held = mark es (remove held pane)
mark (_ ∷ es) held = mark es held

-- tmux may also let a pane go on by itself.
abbrev pub released : Call → List ℕ → List ℕ
released (continued_by_tmux pane) held = remove held pane
released _ held = held

pub mark-append :
    (es fs : List Effect) (held : List ℕ) → mark (es ++ fs) held ≡ mark fs (mark es held)
mark-append [] fs held = refl
mark-append (send_flow pane pause ∷ es) fs held = mark-append es fs (add held pane)
mark-append (send_flow pane continue ∷ es) fs held = mark-append es fs (remove held pane)
mark-append (pause_pane p ∷ es) fs held = mark-append es fs held
mark-append (resume_pane p ∷ es) fs held = mark-append es fs held
mark-append (on_drain_clamped p n ∷ es) fs held = mark-append es fs held
mark-append (on_bytes_while_paused p n ∷ es) fs held = mark-append es fs held
mark-append (on_command_failed s ∷ es) fs held = mark-append es fs held

-- Held back panes are paused.
abbrev pub ArePaused : FlowController → List ℕ → Type 0
ArePaused fc held = (pane : ℕ) → has held pane ≡ true → has fc.paused pane ≡ true

-- Membership behind a removal.
pub still_there :
    (s : List ℕ) (p q : ℕ) → has (remove s p) q ≡ true → ((p == q) ≡ false) × (has s q ≡ true)
still_there s p q h = elim (Bool-cases (p == q)) [
  | inl gone ↦ let e : false ≡ true = rw (has-remove s p q, gone) at h in absurd (cc e)
  | inr stays ↦ (stays, rw (has-remove s p q, stays) at h)
]

kept_there : (s : List ℕ) (p q : ℕ) → (p == q) ≡ false → has s q ≡ true → has (remove s p) q ≡ true
kept_there s p q other h = rw (has-remove s p q, other) h

pub ArePaused-remove :
    (fc : FlowController) (pane : ℕ) (held : List ℕ)
    → ArePaused fc held
    → ArePaused (record fc { paused = remove fc.paused pane }) (remove held pane)
ArePaused-remove fc pane held paused q is_held =
    let (other, was) = still_there held pane q is_held in
    kept_there fc.paused pane q other (paused q was)

module _ (w : Waters) where
  -- A paused pane that does not pass the resume test is behind.
  not_low :
      (fc : FlowController) (pane q : ℕ)
      → (has fc.paused pane && leb (max_buffered fc pane) w.low_water) ≡ false
      → (pane == q) ≡ true
      → has fc.paused q ≡ true
      → w.low_water < max_buffered fc q
  not_low fc pane q kept same paused =
      let e : q ≡ pane = ground arith in
      rw e (let is_paused : has fc.paused pane ≡ true = rw e at paused in ground arith)

  -- And one of their clients is owed more than the low-water mark.
  abbrev pub AreBehind : FlowController → List ℕ → Type 0
  AreBehind fc held = (pane : ℕ) → has held pane ≡ true → w.low_water < max_buffered fc pane

  abbrev pub Holds : FlowController → List ℕ → Type 0
  Holds fc held = ArePaused fc held × AreBehind fc held

  -- A pane whose resume edge was evaluated, and that is still held back, is behind.
  pub resume_if_low-Holds :
      (fc : FlowController) (pane : ℕ) (held : List ℕ)
      → ArePaused fc held
      → ((q : ℕ) → (pane == q) ≡ false → has held q ≡ true → w.low_water < max_buffered fc q)
      → Holds (resume_if_low w pane fc).0 (mark (resume_if_low w pane fc).1 held)
  resume_if_low-Holds fc pane held paused others =
      elim (Bool-cases (has fc.paused pane && leb (max_buffered fc pane) w.low_water)) [
        | inl low ↦ rw low (
          ArePaused-remove fc pane held paused,
          λ q is_held. let (other, was) = still_there held pane q is_held in others q other was,
        )
        | inr kept ↦ rw kept (
          paused,
          λ q is_held. elim (Bool-cases (pane == q)) [
            | inl same ↦ not_low fc pane q kept same (paused q is_held)
            | inr other ↦ others q other is_held
          ],
        )
      ]

  -- Every pane of the list was evaluated; those held back after it were so before, and are behind.
  pub resume_all_lem :
      (panes : List ℕ) (fc : FlowController) (held : List ℕ)
      → ArePaused fc held
      → ArePaused (resume_all w panes fc).0 (mark (resume_all w panes fc).1 held)
        × ((q : ℕ)
            → has (mark (resume_all w panes fc).1 held) q ≡ true
            → (has held q ≡ true) × (has panes q ≡ true → w.low_water < max_buffered fc q))
  unfolding resume_all has
  resume_all_lem [] fc held paused = (paused, λ q is_held. (is_held, λ e. absurd (cc e)))
  resume_all_lem (pane ∷ panes) fc held paused =
      elim (Bool-cases (has fc.paused pane && leb (max_buffered fc pane) w.low_water)) [
        | inl low ↦
            let (still, behind) =
              resume_all_lem panes (resume pane fc).0 (remove held pane)
                (ArePaused-remove fc pane held paused) in
            rw low (
              still,
              λ q is_held.
                  let (later, low_or) = behind q is_held in
                  let (other, was) = still_there held pane q later in
                  (was, λ listed. low_or (rw other at listed)),
            )
        | inr kept ↦
            let (still, behind) = resume_all_lem panes fc held paused in
            rw kept (
              still,
              λ q is_held.
                  let (was, low_or) = behind q is_held in
                  (
                    was,
                    λ listed. elim (Bool-cases (pane == q)) [
                      | inl same ↦ not_low fc pane q kept same (paused q was)
                      | inr other ↦ low_or (rw other at listed)
                    ],
                  ),
            )
      ]
