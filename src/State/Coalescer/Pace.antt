-- ===== src/State/Coalescer/Pace.antt =====
-- The pace of the requery cycles: never two at once, and never closer than the ceiling.
use tmuxcc_driver.Prelude.{
  ℕ, ◌+◌, ◌≤◌, ◌≡◌, refl, sym, inl, inr, Bool, true, false, Option, none, some, List, [], ◌∷◌, ◌++◌,
  arith, Bool-cases, Option-cases, append-nil,
}
use tmuxcc_driver.State.Coalescer.{
  CycleMeta, leading, Effect, on_notify, mark_dirty, requery, on_error, on_fatal_error, on_deltas,
  CoalescerOptions, Coalescer, observed, Settled, converged, failed, codec_error, other_error,
  marked, run_requery, edge_or, quiet, window_end, restored, fire_or_arm, maybe_fire, notify,
  arm_heartbeat, stop, trailing_fires, heartbeat_noted, heartbeat_fires, schedule_retry, retried,
  on_cycle_settled, AreDue, landed,
}

-- The times of the cycles' starts, the newest first.
abbrev pub note : ℕ → List Effect → List ℕ → List ℕ
note now [] starts = starts
note now (requery ∷ es) starts = note now es (now ∷ starts)
note now (_ ∷ es) starts = note now es starts

abbrev pub newest : List ℕ → Option ℕ
newest [] = none
newest (s ∷ _) = some s

-- Consecutive starts lie at least the ceiling apart.
abbrev pub IsSpaced : ℕ → List ℕ → Type 0
IsSpaced ceiling [] = Unit
IsSpaced ceiling (s ∷ []) = Unit
IsSpaced ceiling (s ∷ r ∷ rest) = (r + ceiling ≤ s) × IsSpaced ceiling (r ∷ rest)

-- The window of the last cycle is over at a time.
abbrev IsOver : ℕ → Option ℕ → ℕ → Type 0
IsOver ceiling none now = Unit
IsOver ceiling (some last) now = last + ceiling ≤ now

abbrev pub NotAfter : ℕ → Option ℕ → Type 0
NotAfter now none = Unit
NotAfter now (some last) = last ≤ now

-- An armed trailing timer: no cycle is in flight, and it is due when the window is over, within a
-- ceiling from now.
abbrev pub TimerOk : ℕ → ℕ → Option ℕ → Bool → Option ℕ → Type 0
TimerOk ceiling now last flight none = Unit
TimerOk ceiling now last flight (some due) =
    (flight ≡ false) × (due ≤ now + ceiling) × IsOver ceiling last due

-- A cycle is in flight when its promise is waited for.
abbrev Flies : Bool → Option CycleMeta → Type 0
Flies true (some meta) = Unit
Flies false none = Unit
Flies _ _ = ⊥

pub record Orderly (ceiling now : ℕ) (last : Option ℕ) (timer : Option ℕ) (flight : Bool)
    (cycle : Option CycleMeta) (starts : List ℕ) : Type 0 where
  pub recorded : last ≡ newest starts
  pub past : NotAfter now last
  pub armed : TimerOk ceiling now last flight timer
  pub flying : Flies flight cycle
  pub spaced : IsSpaced ceiling starts

abbrev pub IsOrderly : ℕ → ℕ → Coalescer → List ℕ → Type 0
IsOrderly ceiling now c starts =
    Orderly ceiling now c.last_requery_at c.trailing_handle c.in_flight c.cycle starts

-- A new start behind the window of the last one.
IsSpaced-next :
    (ceiling now : ℕ) (last : Option ℕ) (starts : List ℕ)
    → last ≡ newest starts
    → IsOver ceiling last now
    → IsSpaced ceiling starts
    → IsSpaced ceiling (now ∷ starts)
IsSpaced-next ceiling now last [] e over h = tt
IsSpaced-next ceiling now none (s ∷ rest) e over h = absurd (cc e)
IsSpaced-next ceiling now (some l) (s ∷ rest) e over h =
    let same : l ≡ s = ground arith in (omega arith, h)

IsOver-quiet :
    (ceiling now : ℕ) (last : Option ℕ)
    → NotAfter now last
    → quiet ceiling now last ≡ true
    → IsOver ceiling last now
IsOver-quiet ceiling now none past h = tt
IsOver-quiet ceiling now (some l) past h = ground arith

-- The timer that is armed within an open window, or at once when it is over.
window_end-TimerOk :
    (ceiling now : ℕ) (last : Option ℕ) (flight : Bool)
    → NotAfter now last
    → flight ≡ false
    → TimerOk ceiling now last flight (some (window_end ceiling now last))
window_end-TimerOk ceiling now none flight past idle = (idle, omega arith, tt)
window_end-TimerOk ceiling now (some l) flight past idle = (idle, omega arith, omega arith)

module _ (opts : CoalescerOptions) (now : ℕ) where
  run_requery-IsOrderly :
      (c : Coalescer) (starts : List ℕ)
      → c.last_requery_at ≡ newest starts
      → IsOver opts.ceiling_ms c.last_requery_at now
      → c.trailing_handle ≡ none
      → IsSpaced opts.ceiling_ms starts
      → IsOrderly opts.ceiling_ms now (run_requery now c).0 (note now (run_requery now c).1 starts)
  unfolding run_requery
  run_requery-IsOrderly c starts recorded over idle spaced = rw idle (record {
    recorded = refl;
    past = omega arith;
    armed = tt;
    flying = tt;
    spaced = IsSpaced-next opts.ceiling_ms now c.last_requery_at starts recorded over spaced;
  })

  fire_or_arm-IsOrderly :
      (c : Coalescer) (starts : List ℕ)
      → IsOrderly opts.ceiling_ms now c starts
      → c.in_flight ≡ false
      → c.trailing_handle ≡ none
      → IsOrderly opts.ceiling_ms now
          (fire_or_arm opts now c).0
          (note now (fire_or_arm opts now c).1 starts)
  fire_or_arm-IsOrderly c starts h idle free =
      elim (Bool-cases (quiet opts.ceiling_ms now c.last_requery_at)) [
        | inl over ↦ rw over (
            run_requery-IsOrderly (record c { pending_edge = edge_or c.heartbeat_pending leading })
              starts h.recorded (IsOver-quiet opts.ceiling_ms now c.last_requery_at h.past over)
              free h.spaced)
        | inr within ↦ rw within (record {
          recorded = h.recorded;
          past = h.past;
          armed = window_end-TimerOk opts.ceiling_ms now c.last_requery_at c.in_flight h.past idle;
          flying = h.flying;
          spaced = h.spaced;
        })
      ]

  maybe_fire-IsOrderly :
      (c : Coalescer) (starts : List ℕ)
      → IsOrderly opts.ceiling_ms now c starts
      → IsOrderly opts.ceiling_ms now
          (maybe_fire opts now c).0
          (note now (maybe_fire opts now c).1 starts)
  unfolding maybe_fire
  maybe_fire-IsOrderly c starts h = elim (Bool-cases c.in_flight) [
    | inl busy ↦ rw busy (rw busy at h)
    | inr idle ↦ elim (Option-cases c.trailing_handle) [
      | inl free ↦ rw (idle, free) (fire_or_arm-IsOrderly c starts h idle free)
      | inr (due, armed) ↦ rw (idle, armed) h
    ]
  ]

  -- An observer's call is no start.
  pub note-observed :
      (b : Bool) (e : Effect) (es : List Effect) (starts : List ℕ)
      → note now (e ∷ es) starts ≡ note now es starts
      → note now (observed b e ++ es) starts ≡ note now es starts
  note-observed true e es starts h = h
  note-observed false e es starts h = refl

  pub notify-IsOrderly :
      (kind : ℕ) (c : Coalescer) (starts : List ℕ)
      → IsOrderly opts.ceiling_ms now c starts
      → IsOrderly opts.ceiling_ms now
          (notify opts now kind c).0
          (note now (notify opts now kind c).1 starts)
  unfolding notify
  notify-IsOrderly kind c starts h =
      let c' = marked (record c { first_notify_at = restored c.first_notify_at (some now) }) in
      let fired = maybe_fire opts now c' in
      rw (note-observed opts.observes_notify (on_notify kind) (mark_dirty ∷ fired.1) starts refl)
        (maybe_fire-IsOrderly c' starts h)

  due-IsOver :
      (last : Option ℕ) (timer : Option ℕ) (flight : Bool)
      → TimerOk opts.ceiling_ms now last flight timer
      → AreDue now timer
      → IsOver opts.ceiling_ms last now
  due-IsOver last none flight armed due = absurd due
  due-IsOver none (some at) flight armed due = tt
  due-IsOver (some l) (some at) flight (idle, soon, over) due = omega arith

  pub trailing_fires-IsOrderly :
      (c : Coalescer) (starts : List ℕ)
      → IsOrderly opts.ceiling_ms now c starts
      → AreDue now c.trailing_handle
      → IsOrderly opts.ceiling_ms now
          (trailing_fires opts now c).0
          (note now (trailing_fires opts now c).1 starts)
  unfolding trailing_fires
  trailing_fires-IsOrderly c starts h due =
      run_requery-IsOrderly (record c { trailing_handle = none }) starts h.recorded
        (due-IsOver c.last_requery_at c.trailing_handle c.in_flight h.armed due) refl h.spaced

  pub arm_heartbeat-IsOrderly :
      (c : Coalescer) (starts : List ℕ)
      → IsOrderly opts.ceiling_ms now c starts
      → IsOrderly opts.ceiling_ms now (arm_heartbeat opts now c) starts
  unfolding arm_heartbeat
  arm_heartbeat-IsOrderly c starts h = elim (Option-cases c.heartbeat_handle) [
    | inl unarmed ↦ rw unarmed h
    | inr (due, armed) ↦ rw armed h
  ]

  noted-IsOrderly :
      (c : Coalescer) (starts : List ℕ)
      → IsOrderly opts.ceiling_ms now c starts
      → IsOrderly opts.ceiling_ms now (heartbeat_noted opts now c) starts
  noted-IsOrderly c starts h = elim (Option-cases c.first_notify_at) [
    | inl silent ↦ rw silent h
    | inr (at, seen) ↦ rw seen h
  ]

  pub heartbeat_fires-IsOrderly :
      (c : Coalescer) (starts : List ℕ)
      → IsOrderly opts.ceiling_ms now c starts
      → IsOrderly opts.ceiling_ms now
          (heartbeat_fires opts now c).0
          (note now (heartbeat_fires opts now c).1 starts)
  unfolding heartbeat_fires
  heartbeat_fires-IsOrderly c starts h =
      let c' = marked (heartbeat_noted opts now c) in
      let fired = maybe_fire opts now c' in
      arm_heartbeat-IsOrderly fired.0 (note now fired.1 starts)
        (maybe_fire-IsOrderly c' starts (noted-IsOrderly c starts h))

  retried-IsOrderly :
      (c : Coalescer) (meta : CycleMeta) (starts : List ℕ)
      → IsOrderly opts.ceiling_ms now c starts
      → c.in_flight ≡ false
      → IsOrderly opts.ceiling_ms now (retried opts now c meta) starts
  unfolding schedule_retry
  retried-IsOrderly c meta starts h idle = elim (Option-cases c.trailing_handle) [
    | inl free ↦ rw free (record {
      recorded = h.recorded;
      past = h.past;
      armed = window_end-TimerOk opts.ceiling_ms now c.last_requery_at c.in_flight h.past idle;
      flying = h.flying;
      spaced = h.spaced;
    })
    | inr (due, armed) ↦ rw armed (rw armed at h)
  ]

  pub on_cycle_settled-IsOrderly :
      (r : Settled) (meta : CycleMeta) (c : Coalescer) (starts : List ℕ)
      → IsOrderly opts.ceiling_ms now c starts
      → c.in_flight ≡ false
      → IsOrderly opts.ceiling_ms now
          (on_cycle_settled opts now r meta c).0
          (note now (on_cycle_settled opts now r meta c).1 starts)
  unfolding on_cycle_settled
  on_cycle_settled-IsOrderly codec_error meta c starts h idle =
      rw
        (
          sym (append-nil (observed opts.observes_fatal_error on_fatal_error)),
          note-observed opts.observes_fatal_error on_fatal_error [] starts refl,
        )
        h
  on_cycle_settled-IsOrderly other_error meta c starts h idle =
      rw (note-observed opts.observes_error on_error (mark_dirty ∷ []) starts refl)
        (retried-IsOrderly c meta starts h idle)
  on_cycle_settled-IsOrderly failed meta c starts h idle = retried-IsOrderly c meta starts h idle
  on_cycle_settled-IsOrderly (converged true) meta c starts h idle =
      let c' = record c { dirty = true } in
      let fired = maybe_fire opts now c' in
      rw (note-observed opts.observes_deltas (on_deltas meta) fired.1 starts refl)
        (maybe_fire-IsOrderly c' starts h)
  on_cycle_settled-IsOrderly (converged false) meta c starts h idle =
      rw (note-observed opts.observes_deltas (on_deltas meta) [] starts refl) h

later_past :
    (before now : ℕ) (last : Option ℕ) → before ≤ now → NotAfter before last → NotAfter now last
later_past before now none le h = tt
later_past before now (some l) le h = omega arith

later_armed :
    (ceiling before now : ℕ) (last : Option ℕ) (flight : Bool) (timer : Option ℕ)
    → before ≤ now
    → TimerOk ceiling before last flight timer
    → TimerOk ceiling now last flight timer
later_armed ceiling before now last flight none le h = tt
later_armed ceiling before now last flight (some due) le (idle, soon, over) =
    (idle, omega arith, over)

landed_armed :
    (ceiling now : ℕ) (last : Option ℕ) (flight : Bool) (timer : Option ℕ)
    → TimerOk ceiling now last flight timer
    → TimerOk ceiling now last false timer
landed_armed ceiling now last flight none h = tt
landed_armed ceiling now last flight (some due) (idle, soon, over) = (refl, soon, over)

-- Time goes by.
pub later-IsOrderly :
    (ceiling before now : ℕ) (c : Coalescer) (starts : List ℕ)
    → before ≤ now
    → IsOrderly ceiling before c starts
    → IsOrderly ceiling now c starts
later-IsOrderly ceiling before now c starts le h = record {
  recorded = h.recorded;
  past = later_past before now c.last_requery_at le h.past;
  armed = later_armed ceiling before now c.last_requery_at c.in_flight c.trailing_handle le h.armed;
  flying = h.flying;
  spaced = h.spaced;
}

-- The state that the callback of a settled cycle finds.
pub landed-IsOrderly :
    (ceiling now : ℕ) (c : Coalescer) (starts : List ℕ)
    → IsOrderly ceiling now c starts
    → IsOrderly ceiling now (landed c) starts
landed-IsOrderly ceiling now c starts h = record {
  recorded = h.recorded;
  past = h.past;
  armed = landed_armed ceiling now c.last_requery_at c.in_flight c.trailing_handle h.armed;
  flying = tt;
  spaced = h.spaced;
}

pub stop-IsOrderly :
    (opts : CoalescerOptions) (now : ℕ) (c : Coalescer) (starts : List ℕ)
    → IsOrderly opts.ceiling_ms now c starts
    → IsOrderly opts.ceiling_ms now (stop opts now c) starts
unfolding stop
stop-IsOrderly opts now c starts h = record {
  recorded = h.recorded;
  past = h.past;
  armed = tt;
  flying = h.flying;
  spaced = h.spaced;
}
