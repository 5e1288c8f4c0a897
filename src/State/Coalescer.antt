-- ===== src/State/Coalescer.antt =====
-- packages/driver/src/state/coalescer.ts: when the requery engine runs.
-- The clock is an argument, in milliseconds. The engine is known by what it is asked (`mark_dirty`,
-- `requery`) and by what a settled cycle reports: `dirty` is its dirty bit as the coalescer last set
-- or read it. A timer is the time at which it is due; the callback that waits for the engine's
-- promise is `cycle`, with what it captured.
pub mod Pace
pub mod Runs
pub mod Tests
use tmuxcc_driver.Prelude.{
  ℕ, zero, suc, ◌+◌, ◌-◌, ◌≤◌, ◌≡◌, Bool, true, false, Option, none, some, List, [], ◌∷◌, ◌++◌, leb,
  if◌then◌else◌, max,
}

pub data CycleEdge : Type 0 where
  leading trailing heartbeat bootstrap : CycleEdge

pub record CycleMeta : Type 0 where
  pub edge : CycleEdge
  pub first_notify_at : Option ℕ

pub data Effect : Type 0 where
  on_notify : ℕ → Effect
  mark_dirty requery on_error on_fatal_error : Effect
  on_deltas : CycleMeta → Effect

-- Which of the optional callbacks were supplied, and the intervals.
pub record CoalescerOptions : Type 0 where
  pub ceiling_ms : ℕ
  pub heartbeat_ms : ℕ
  pub observes_notify : Bool
  pub observes_error : Bool
  pub observes_fatal_error : Bool
  pub observes_deltas : Bool

abbrev pub default_ceiling_ms : ℕ
default_ceiling_ms = 1000

abbrev pub default_heartbeat_ms : ℕ
default_heartbeat_ms = 30_000

-- `last_requery_at` is `none` for negative infinity.
pub record Coalescer : Type 0 where
  pub first_notify_at : Option ℕ
  pub pending_edge : CycleEdge
  pub heartbeat_pending : Bool
  pub last_requery_at : Option ℕ
  pub trailing_handle : Option ℕ
  pub heartbeat_handle : Option ℕ
  pub in_flight : Bool
  pub cycle : Option CycleMeta
  pub dirty : Bool

abbrev pub new_coalescer : Coalescer
new_coalescer = record {
  first_notify_at = none;
  pending_edge = leading;
  heartbeat_pending = false;
  last_requery_at = none;
  trailing_handle = none;
  heartbeat_handle = none;
  in_flight = false;
  cycle = none;
  dirty = false;
}

abbrev pub Outcome : Type 0
Outcome = Coalescer × List Effect

abbrev pub observed : Bool → Effect → List Effect
observed true e = e ∷ []
observed false e = []

-- What the engine's promise settles with. A cycle without failure reports the dirty bit.
pub data Settled : Type 0 where
  converged : (dirty : Bool) → Settled
  failed codec_error other_error : Settled

abbrev pub marked : Coalescer → Coalescer
marked c = record c { dirty = true }

unfoldable pub run_requery : ℕ → Coalescer → Outcome
run_requery now c = (
  record c {
    last_requery_at = some now;
    in_flight = true;
    first_notify_at = none;
    heartbeat_pending = false;
    cycle = some (record { edge = c.pending_edge; first_notify_at = c.first_notify_at });
  },
  requery ∷ [],
)

abbrev pub edge_or : Bool → CycleEdge → CycleEdge
edge_or true e = heartbeat
edge_or false e = e

-- `now - lastRequeryAt >= ceiling`, with an infinite distance before the first cycle.
abbrev pub quiet : ℕ → ℕ → Option ℕ → Bool
quiet ceiling now none = true
quiet ceiling now (some last) = leb ceiling (now - last)

-- When the ceiling window that is open ends.
abbrev pub window_end : ℕ → ℕ → Option ℕ → ℕ
window_end ceiling now none = now
window_end ceiling now (some last) = now + (ceiling - (now - last))

-- The first notification's time is kept when a cycle has to be repeated.
abbrev pub restored : Option ℕ → Option ℕ → Option ℕ
restored none before = before
restored (some at) before = some at

module _ (opts : CoalescerOptions) (now : ℕ) where
  -- No cycle in flight and no timer armed: the leading edge, or a trailing timer.
  abbrev pub fire_or_arm : Coalescer → Outcome
  fire_or_arm c =
      if quiet opts.ceiling_ms now c.last_requery_at
      then run_requery now (record c { pending_edge = edge_or c.heartbeat_pending leading })
      else (
        record c {
          pending_edge = edge_or c.heartbeat_pending trailing;
          trailing_handle = some (window_end opts.ceiling_ms now c.last_requery_at);
        },
        [],
      )

  unfoldable pub maybe_fire : Coalescer → Outcome
  maybe_fire c =
      if c.in_flight
      then (c, [])
      else elim c.trailing_handle [ some due ↦ (c, []) | none ↦ fire_or_arm c ]

  unfoldable pub notify : ℕ → Coalescer → Outcome
  notify kind c =
      let fired =
        maybe_fire
          (marked (record c { first_notify_at = restored c.first_notify_at (some now) })) in
      (fired.0, observed opts.observes_notify (on_notify kind) ++ mark_dirty ∷ fired.1)

  unfoldable pub arm_heartbeat : Coalescer → Coalescer
  arm_heartbeat c = elim c.heartbeat_handle [
    | some due ↦ c
    | none ↦ record c { heartbeat_handle = some (now + opts.heartbeat_ms) }
  ]

  unfoldable pub stop : Coalescer → Coalescer
  stop c = record c { trailing_handle = none; heartbeat_handle = none }

  unfoldable pub trailing_fires : Coalescer → Outcome
  trailing_fires c = run_requery now (record c { trailing_handle = none })

  abbrev pub heartbeat_noted : Coalescer → Coalescer
  heartbeat_noted c = elim c.first_notify_at [
    | none ↦ record c { heartbeat_handle = none; heartbeat_pending = true }
    | some at ↦ record c { heartbeat_handle = none }
  ]

  unfoldable pub heartbeat_fires : Coalescer → Outcome
  heartbeat_fires c =
      let fired = maybe_fire (marked (heartbeat_noted c)) in
      (arm_heartbeat fired.0, mark_dirty ∷ fired.1)

  unfoldable pub schedule_retry : Coalescer → Coalescer
  schedule_retry c = elim c.trailing_handle [
    | some due ↦ c
    | none ↦ record c { trailing_handle = some (window_end opts.ceiling_ms now c.last_requery_at) }
  ]

  -- A cycle that failed is repeated from its own trigger.
  abbrev pub retried : Coalescer → CycleMeta → Coalescer
  retried c meta =
      schedule_retry
        (marked (record c { first_notify_at = restored c.first_notify_at meta.first_notify_at }))

  -- The callback of a cycle, once `_inFlight` is cleared.
  unfoldable pub on_cycle_settled : Settled → CycleMeta → Coalescer → Outcome
  on_cycle_settled codec_error meta c = (c, observed opts.observes_fatal_error on_fatal_error)
  on_cycle_settled other_error meta c =
      (retried c meta, observed opts.observes_error on_error ++ mark_dirty ∷ [])
  on_cycle_settled failed meta c = (retried c meta, [])
  on_cycle_settled (converged still_dirty) meta c =
      let c' = record c { dirty = still_dirty } in
      let fired = if still_dirty then maybe_fire c' else (c', []) in
      (fired.0, observed opts.observes_deltas (on_deltas meta) ++ fired.1)

-- What happens to a coalescer.
pub data Event : Type 0 where
  notified : ℕ → Event
  started stopped trailing_due heartbeat_due : Event
  settled : Settled → Event

-- A timer fires when it is armed, at its time or later; a promise settles when one is waited for.
abbrev pub AreDue : ℕ → Option ℕ → Type 0
AreDue now none = ⊥
AreDue now (some due) = due ≤ now

abbrev pub IsEnabled : ℕ → Event → Coalescer → Type 0
IsEnabled now trailing_due c = AreDue now c.trailing_handle
IsEnabled now heartbeat_due c = AreDue now c.heartbeat_handle
IsEnabled now (settled r) c = (meta : CycleMeta) × (c.cycle ≡ some meta)
IsEnabled now _ c = Unit

abbrev pub landed : Coalescer → Coalescer
landed c = record c { in_flight = false; cycle = none }

unfoldable pub handle : CoalescerOptions → ℕ → Event → Coalescer → Outcome
handle opts now (notified kind) c = notify opts now kind c
handle opts now started c = (arm_heartbeat opts now c, [])
handle opts now stopped c = (stop opts now c, [])
handle opts now trailing_due c = trailing_fires opts now c
handle opts now heartbeat_due c = heartbeat_fires opts now c
handle opts now (settled r) c = elim c.cycle [
  | none ↦ (c, [])
  | some meta ↦ on_cycle_settled opts now r meta (landed c)
]
