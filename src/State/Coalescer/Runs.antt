-- ===== src/State/Coalescer/Runs.antt =====
-- Histories of a coalescer: the spacing of the cycles, and that nothing dirty is forgotten.
use tmuxcc_driver.Prelude.{
  ℕ, ◌+◌, ◌≤◌, ◌≡◌, ◌⊎◌, refl, sym, ap, ◌∙◌, inl, inr, Bool, true, false, ◌&&◌, Option, none, some,
  List, [], arith, Bool-cases, Option-cases,
}
use tmuxcc_driver.State.Coalescer.{
  CycleMeta, CoalescerOptions, Coalescer, new_coalescer, Settled, converged, failed, codec_error,
  other_error, marked, run_requery, maybe_fire, notify, arm_heartbeat, trailing_fires,
  heartbeat_noted, heartbeat_fires, schedule_retry, retried, on_cycle_settled, Event, notified,
  started, stopped, trailing_due, heartbeat_due, settled, IsEnabled, AreDue, landed, handle, quiet,
  window_end,
}
use tmuxcc_driver.State.Coalescer.Pace.{
  note, IsSpaced, IsOrderly, TimerOk, later-IsOrderly, notify-IsOrderly, trailing_fires-IsOrderly,
  arm_heartbeat-IsOrderly, heartbeat_fires-IsOrderly, on_cycle_settled-IsOrderly, note-observed,
  landed-IsOrderly, stop-IsOrderly,
}

-- A coalescer that is stopped, or whose engine fails for good, schedules nothing more.
abbrev pub goes_on : Event → Bool
goes_on stopped = false
goes_on (settled codec_error) = false
goes_on _ = true

-- The states that a new coalescer reaches, at a time, with the starts of its cycles so far and
-- whether it went on all the time. Time does not run backwards.
pub data Reaches (opts : CoalescerOptions) : ℕ → Coalescer → List ℕ → Bool → Type 0 where
  begins : (now : ℕ) → Reaches opts now new_coalescer [] true
  then_ :
      {before : ℕ} {c : Coalescer} {starts : List ℕ} {live : Bool} (now : ℕ) (e : Event)
      → Reaches opts before c starts live
      → before ≤ now
      → IsEnabled now e c
      → Reaches opts now
          (handle opts now e c).0
          (note now (handle opts now e c).1 starts)
          (live && goes_on e)

module _ (opts : CoalescerOptions) where
  settled-IsOrderly :
      (now : ℕ) (r : Settled) (c : Coalescer) (starts : List ℕ)
      → IsOrderly opts.ceiling_ms now c starts
      → IsEnabled now (settled r) c
      → IsOrderly opts.ceiling_ms now
          (handle opts now (settled r) c).0
          (note now (handle opts now (settled r) c).1 starts)
  unfolding handle
  settled-IsOrderly now r c starts h (meta, waits) =
      rw (waits, handle)
        (on_cycle_settled-IsOrderly opts now r meta (landed c) starts
          (landed-IsOrderly opts.ceiling_ms now c starts h) refl)

  handle-IsOrderly :
      (now : ℕ) (e : Event) (c : Coalescer) (starts : List ℕ)
      → IsOrderly opts.ceiling_ms now c starts
      → IsEnabled now e c
      → IsOrderly opts.ceiling_ms now
          (handle opts now e c).0
          (note now (handle opts now e c).1 starts)
  unfolding handle
  handle-IsOrderly now (notified kind) c starts h on = notify-IsOrderly opts now kind c starts h
  handle-IsOrderly now started c starts h on = arm_heartbeat-IsOrderly opts now c starts h
  handle-IsOrderly now stopped c starts h on = stop-IsOrderly opts now c starts h
  handle-IsOrderly now trailing_due c starts h on = trailing_fires-IsOrderly opts now c starts h on
  handle-IsOrderly now heartbeat_due c starts h on = heartbeat_fires-IsOrderly opts now c starts h
  handle-IsOrderly now (settled r) c starts h on = settled-IsOrderly now r c starts h on

  reached-IsOrderly :
      {now : ℕ} {c : Coalescer} {starts : List ℕ} {live : Bool}
      → Reaches opts now c starts live
      → IsOrderly opts.ceiling_ms now c starts
  reached-IsOrderly (begins now) = record {
    recorded = refl;
    past = tt;
    armed = tt;
    flying = tt;
    spaced = tt;
  }
  reached-IsOrderly (then_ {before} {c} {starts} now e earlier le on) =
      handle-IsOrderly now e c starts
        (later-IsOrderly opts.ceiling_ms before now c starts le (reached-IsOrderly earlier)) on

  -- Whatever notifications, heartbeats, failures and retries come, in whatever order, two requery
  -- cycles never start closer together than the ceiling.
  pub reached-IsSpaced :
      {now : ℕ} {c : Coalescer} {starts : List ℕ} {live : Bool}
      → Reaches opts now c starts live
      → IsSpaced opts.ceiling_ms starts
  reached-IsSpaced r = (reached-IsOrderly r).spaced

  -- A cycle in flight, or a timer for one.
  abbrev IsBusy : Bool → Option ℕ → Type 0
  IsBusy true timer = Unit
  IsBusy false (some due) = Unit
  IsBusy false none = ⊥

  abbrev IsScheduled : Coalescer → Type 0
  IsScheduled c = c.dirty ≡ true → IsBusy c.in_flight c.trailing_handle

  IsBusy-armed : (flight : Bool) (due : ℕ) → IsBusy flight (some due)
  IsBusy-armed true due = tt
  IsBusy-armed false due = tt

  maybe_fire-IsBusy :
      (now : ℕ) (c : Coalescer)
      → IsBusy (maybe_fire opts now c).0.in_flight (maybe_fire opts now c).0.trailing_handle
  unfolding maybe_fire run_requery
  maybe_fire-IsBusy now c = elim (Bool-cases c.in_flight) [
    | inl busy ↦ rw busy tt
    | inr idle ↦ elim (Option-cases c.trailing_handle) [
      | inr (due, armed) ↦
          let busy : IsBusy c.in_flight c.trailing_handle =
            rw armed (IsBusy-armed c.in_flight due) in
          rw (idle, armed) busy
      | inl free ↦ elim (Bool-cases (quiet opts.ceiling_ms now c.last_requery_at)) [
        | inl over ↦ rw (idle, free, over) tt
        | inr within ↦
            rw (idle, free, within)
              (IsBusy-armed c.in_flight (window_end opts.ceiling_ms now c.last_requery_at))
      ]
    ]
  ]

  arm_heartbeat_lem :
      (now : ℕ) (c : Coalescer)
      → ((arm_heartbeat opts now c).in_flight ≡ c.in_flight)
        × ((arm_heartbeat opts now c).trailing_handle ≡ c.trailing_handle)
        × ((arm_heartbeat opts now c).dirty ≡ c.dirty)
  unfolding arm_heartbeat
  arm_heartbeat_lem now c = elim (Option-cases c.heartbeat_handle) [
    | inl unarmed ↦ rw unarmed (refl, refl, refl)
    | inr (due, armed) ↦ rw armed (refl, refl, refl)
  ]

  retried-IsBusy :
      (now : ℕ) (c : Coalescer) (meta : CycleMeta)
      → c.in_flight ≡ false
      → IsBusy (retried opts now c meta).in_flight (retried opts now c meta).trailing_handle
  unfolding schedule_retry
  retried-IsBusy now c meta idle = elim (Option-cases c.trailing_handle) [
    | inl free ↦ rw (free, idle) tt
    | inr (due, armed) ↦ rw (armed, idle) tt
  ]

  settled-IsScheduled :
      (now : ℕ) (r : Settled) (meta : CycleMeta) (c : Coalescer)
      → goes_on (settled r) ≡ true
      → c.in_flight ≡ false
      → IsScheduled (on_cycle_settled opts now r meta c).0
  unfolding on_cycle_settled
  settled-IsScheduled now codec_error meta c going idle dirty = absurd (cc going)
  settled-IsScheduled now other_error meta c going idle dirty = retried-IsBusy now c meta idle
  settled-IsScheduled now failed meta c going idle dirty = retried-IsBusy now c meta idle
  settled-IsScheduled now (converged true) meta c going idle dirty =
      maybe_fire-IsBusy now (record c { dirty = true })
  settled-IsScheduled now (converged false) meta c going idle dirty = absurd (cc dirty)

  heartbeat-IsScheduled : (now : ℕ) (c : Coalescer) → IsScheduled (heartbeat_fires opts now c).0
  unfolding heartbeat_fires
  heartbeat-IsScheduled now c dirty =
      let c' = marked (heartbeat_noted opts now c) in
      let fired = maybe_fire opts now c' in
      let (flight, timer, _) = arm_heartbeat_lem now fired.0 in
      rw (flight, timer) (maybe_fire-IsBusy now c')

  handle-IsScheduled :
      (now : ℕ) (e : Event) (c : Coalescer)
      → IsEnabled now e c
      → goes_on e ≡ true
      → IsScheduled c
      → IsScheduled (handle opts now e c).0
  unfolding handle notify trailing_fires run_requery
  handle-IsScheduled now (notified kind) c on going h dirty = maybe_fire-IsBusy now _
  handle-IsScheduled now started c on going h dirty =
      let (flight, timer, same) = arm_heartbeat_lem now c in
      rw (flight, timer) (h (sym same ∙ dirty))
  handle-IsScheduled now stopped c on going h dirty = absurd (cc going)
  handle-IsScheduled now trailing_due c on going h dirty = tt
  handle-IsScheduled now heartbeat_due c on going h dirty = heartbeat-IsScheduled now c dirty
  handle-IsScheduled now (settled r) c (meta, waits) going h dirty =
      rw (waits, handle)
        (settled-IsScheduled now r meta (landed c) going refl (rw (waits, handle) at dirty))

  reached-IsScheduled :
      {now : ℕ} {c : Coalescer} {starts : List ℕ} {live : Bool}
      → Reaches opts now c starts live
      → live ≡ true
      → IsScheduled c
  reached-IsScheduled (begins now) going dirty = absurd (cc dirty)
  reached-IsScheduled (then_ {before} {c} {starts} {live} now e earlier le on) going dirty =
      let both : (live ≡ true) × (goes_on e ≡ true) = ground arith in
      handle-IsScheduled now e c on both.1 (reached-IsScheduled earlier both.0) dirty

  busy_cases :
      (ceiling now : ℕ) (last timer : Option ℕ) (flight : Bool)
      → TimerOk ceiling now last flight timer
      → IsBusy flight timer
      → (flight ≡ true) ⊎ ((due : ℕ) × (timer ≡ some due) × (due ≤ now + ceiling))
  busy_cases ceiling now last timer true armed busy = inl refl
  busy_cases ceiling now last none false armed busy = absurd busy
  busy_cases ceiling now last (some due) false (idle, soon, over) busy = inr (due, refl, soon)

  -- No change is forgotten: as long as the coalescer was not stopped and no reply failed to decode,
  -- whenever the engine is dirty a cycle is in flight, or a timer for one is armed that is due
  -- within a ceiling from now.
  pub reached_dirty :
      {now : ℕ} {c : Coalescer} {starts : List ℕ} {live : Bool}
      → Reaches opts now c starts live
      → live ≡ true
      → c.dirty ≡ true
      → (c.in_flight ≡ true)
        ⊎ ((due : ℕ) × (c.trailing_handle ≡ some due) × (due ≤ now + opts.ceiling_ms))
  reached_dirty {now} {c} r going dirty =
      busy_cases opts.ceiling_ms now c.last_requery_at c.trailing_handle c.in_flight
        (reached-IsOrderly r).armed (reached-IsScheduled r going dirty)

  abbrev pub is_settling : Event → Bool
  is_settling (settled r) = true
  is_settling _ = false

  maybe_fire_busy : (now : ℕ) (c : Coalescer) → c.in_flight ≡ true → maybe_fire opts now c ≡ (c, [])
  unfolding maybe_fire
  maybe_fire_busy now c busy = rw busy refl

  noted_busy :
      (now : ℕ) (c : Coalescer) → c.in_flight ≡ true → (heartbeat_noted opts now c).in_flight ≡ true
  noted_busy now c busy = elim (Option-cases c.first_notify_at) [
    | inl silent ↦ rw silent busy
    | inr (at, seen) ↦ rw seen busy
  ]

  no_timer :
      (ceiling now : ℕ) (last timer : Option ℕ) (flight : Bool)
      → TimerOk ceiling now last flight timer
      → AreDue now timer
      → flight ≡ false
  no_timer ceiling now last none flight armed due = absurd due
  no_timer ceiling now last (some at) flight (idle, _, _) due = idle

  starts_none :
      (now : ℕ) (e : Event) (c : Coalescer) (starts : List ℕ)
      → IsOrderly opts.ceiling_ms now c starts
      → IsEnabled now e c
      → is_settling e ≡ false
      → c.in_flight ≡ true
      → note now (handle opts now e c).1 starts ≡ starts
  unfolding handle notify heartbeat_fires
  starts_none now (notified kind) c starts h on other busy =
      note-observed opts now opts.observes_notify _ _ starts refl
      ∙ ap (λ o. note now o.1 starts) (maybe_fire_busy now _ busy)
  starts_none now started c starts h on other busy = refl
  starts_none now stopped c starts h on other busy = refl
  starts_none now trailing_due c starts h on other busy =
      let idle =
        no_timer opts.ceiling_ms now c.last_requery_at c.trailing_handle c.in_flight h.armed on in
      absurd (cc (idle, busy))
  starts_none now heartbeat_due c starts h on other busy =
      ap (λ o. note now o.1 starts) (maybe_fire_busy now _ (noted_busy now c busy))
  starts_none now (settled r) c starts h on other busy = absurd (cc other)

  -- Never two cycles at once: while one is in flight, no notification, no timer and no heartbeat
  -- starts another.
  pub reached_in_flight :
      {before : ℕ} {c : Coalescer} {starts : List ℕ} {live : Bool} (now : ℕ) (e : Event)
      → Reaches opts before c starts live
      → before ≤ now
      → IsEnabled now e c
      → is_settling e ≡ false
      → c.in_flight ≡ true
      → note now (handle opts now e c).1 starts ≡ starts
  reached_in_flight {before} {c} {starts} now e r le on other busy =
      starts_none now e c starts
        (later-IsOrderly opts.ceiling_ms before now c starts le (reached-IsOrderly r)) on other busy
