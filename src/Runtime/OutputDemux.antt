-- ===== src/Runtime/OutputDemux.antt =====
-- packages/driver/src/runtime/output-demux.ts: the fan-out of pane bytes to the attached clients.
-- A transport is a number, its identity; what is sent, and what the observer of dropped bytes and
-- the console are told, are effects in order (an absent or a throwing observer changes nothing).
-- `queueMicrotask` appends to the list of tasks, and `run_microtask` is the event loop's next task.
pub mod Queues
pub mod Carried
pub mod Stream
pub mod Staging
pub mod Hidden
pub mod Bound
pub mod Tapped
pub mod Tests
use Prim.Native.String.{String}
use tmuxcc_driver.Prelude.{
  ℕ, ◌+◌, ◌*◌, not, Option, none, some, List, [], ◌∷◌, ◌++◌, Bytes, ltb, ◌==◌, if◌then◌else◌,
  length,
}
use tmuxcc_driver.Prelude.Keyed.{Keyed, string_keyed, nat_keyed}
use tmuxcc_driver.Prelude.Dict.{Dict, get, set, delete, has, add, remove}
use tmuxcc_driver.State.Scrollback
use tmuxcc_driver.State.Scrollback.{Store}

abbrev pub max_pending_bytes_per_pane : ℕ
max_pending_bytes_per_pane = 128 * 1024

pub data Provenance : Type 0 where
  owned foreign : Provenance

pub data Effect : Type 0 where
  send_data : (transport : ℕ) (pane : String) → Bytes → Effect
  on_pretopology_dropped : ℕ → Provenance → Effect
  warn_overflow : (pane : String) (current dropped : ℕ) → Effect

-- The queues of one transport that hydrates panes.
abbrev pub Queues : Type 0
Queues = Dict String (List Bytes)

pub record OutputDemux : Type 0 where
  pub inner : Store
  pub transports : List ℕ
  pub paused_panes : List String
  pub hydrating : Dict ℕ Queues
  pub pending_dropped_bytes : Dict String ℕ
  pub known_panes : List String
  pub pending_fanout : Dict String (List Bytes)
  pub pending_fanout_bytes : Dict String ℕ
  pub pending_fanout_overflowed : List String
  pub microtasks : List (String × List Bytes)

abbrev pub Outcome : Type 0
Outcome = OutputDemux × List Effect

unfoldable pub create_output_demux : Store → OutputDemux
create_output_demux inner_store = record {
  inner = inner_store;
  transports = [];
  paused_panes = [];
  hydrating = [];
  pending_dropped_bytes = [];
  known_panes = [];
  pending_fanout = [];
  pending_fanout_bytes = [];
  pending_fanout_overflowed = [];
  microtasks = [];
}

abbrev pub or_zero : Option ℕ → ℕ
or_zero none = 0
or_zero (some n) = n

abbrev pub or_empty {ℓ} : {A : Type ℓ} → Option (List A) → List A
or_empty none = []
or_empty (some xs) = xs

-- `_settleDroppedBytes`.
unfoldable pub settle_dropped_bytes : String → Provenance → OutputDemux → Outcome
settle_dropped_bytes pane provenance d =
    if ltb 0 (or_zero (get d.pending_dropped_bytes pane))
    then (
      record d { pending_dropped_bytes = delete d.pending_dropped_bytes pane },
      on_pretopology_dropped (or_zero (get d.pending_dropped_bytes pane)) provenance ∷ [],
    )
    else (d, [])

-- A transport with no map of queues reads like one with an empty map.
unfoldable pub queue_for : Dict ℕ Queues → ℕ → String → Option (List Bytes)
queue_for hydrating t pane = get (or_empty (get hydrating t)) pane

abbrev pub set_queue : Dict ℕ Queues → ℕ → String → List Bytes → Dict ℕ Queues
set_queue hydrating t pane queue = set hydrating t (set (or_empty (get hydrating t)) pane queue)

unfoldable pub queue_or_send :
    String → Bytes → ℕ → Dict ℕ Queues → Option (List Bytes) → Dict ℕ Queues × List Effect
queue_or_send pane bytes t hydrating none = (hydrating, send_data t pane bytes ∷ [])
queue_or_send pane bytes t hydrating (some queue) =
    (set_queue hydrating t pane (queue ++ bytes ∷ []), [])

-- One transport of the loop in `_fanOut`: its queue where it hydrates the pane, or the wire.
unfoldable pub fan_one : String → Bytes → ℕ → Dict ℕ Queues → Dict ℕ Queues × List Effect
unfolding queue_or_send
fan_one pane bytes t hydrating = queue_or_send pane bytes t hydrating (queue_for hydrating t pane)

unfoldable pub fan_loop : String → Bytes → List ℕ → Dict ℕ Queues → Dict ℕ Queues × List Effect
fan_loop pane bytes [] hydrating = (hydrating, [])
fan_loop pane bytes (t ∷ ts) hydrating =
    let first = fan_one pane bytes t hydrating in
    let rest = fan_loop pane bytes ts first.0 in (rest.0, first.1 ++ rest.1)

unfoldable pub fan_out : String → Bytes → OutputDemux → Outcome
fan_out pane bytes d =
    let fanned = fan_loop pane bytes d.transports d.hydrating in
    (record d { hydrating = fanned.0 }, fanned.1)

-- The bytes of a pane that is not known: staged up to the limit, dropped behind it.
unfoldable pub stage : String → Bytes → OutputDemux → Outcome
stage pane bytes d =
    let current = or_zero (get d.pending_fanout_bytes pane) in
    let dropped = or_zero (get d.pending_dropped_bytes pane) + length bytes in
    let warning =
      if has d.pending_fanout_overflowed pane
      then []
      else warn_overflow pane current (length bytes) ∷ [] in
    if ltb max_pending_bytes_per_pane (current + length bytes)
    then (
      record d {
        pending_fanout_overflowed = add d.pending_fanout_overflowed pane;
        pending_dropped_bytes = set d.pending_dropped_bytes pane dropped;
      },
      warning,
    )
    else (
      record d {
        pending_fanout =
            set d.pending_fanout pane (or_empty (get d.pending_fanout pane) ++ bytes ∷ []);
        pending_fanout_bytes = set d.pending_fanout_bytes pane (current + length bytes);
      },
      [],
    )

-- The two gates and the fan-out of the bytes of a known pane.
unfoldable pub deliver : String → Bytes → OutputDemux → Outcome
deliver pane bytes d =
    if has d.paused_panes pane
    then (d, [])
    else if length d.transports == 0
    then (d, [])
    else fan_out pane bytes d

-- `store.append` behind the write to the inner store.
unfoldable pub tap : String → Bytes → OutputDemux → Outcome
tap pane bytes d =
    if length bytes == 0
    then (d, [])
    else if has d.known_panes pane
    then deliver pane bytes d
    else stage pane bytes d

unfoldable pub append : ℕ → String → Bytes → OutputDemux → Outcome
append cap_bytes pane bytes d =
    tap pane bytes (record d { inner = Scrollback.append cap_bytes d.inner pane bytes })

unfoldable pub attach_transport : ℕ → OutputDemux → OutputDemux
attach_transport t d = record d { transports = add d.transports t }

-- The function that `attachTransport` returns.
unfoldable pub unsubscribe : ℕ → OutputDemux → OutputDemux
unsubscribe t d = record d { transports = remove d.transports t }

unfoldable pub detach_transport : ℕ → OutputDemux → OutputDemux
detach_transport t d = record d {
  transports = remove d.transports t;
  hydrating = delete d.hydrating t;
}

unfoldable pub pause_pane : String → OutputDemux → OutputDemux
pause_pane pane d = record d { paused_panes = add d.paused_panes pane }

unfoldable pub resume_pane : String → OutputDemux → OutputDemux
resume_pane pane d = record d { paused_panes = remove d.paused_panes pane }

-- The staged chunks become a task, if there are any.
abbrev pub task_for : String → List Bytes → List (String × List Bytes)
task_for pane [] = []
task_for pane (c ∷ cs) = (pane, c ∷ cs) ∷ []

unfoldable pub notify_pane_bound : String → OutputDemux → Outcome
notify_pane_bound pane d =
    let settled =
      settle_dropped_bytes pane owned (record d { known_panes = add d.known_panes pane }) in
    if has d.known_panes pane then (d, []) else (
      record settled.0 {
        pending_fanout = delete d.pending_fanout pane;
        pending_fanout_bytes = delete d.pending_fanout_bytes pane;
        microtasks = d.microtasks ++ task_for pane (or_empty (get d.pending_fanout pane));
      },
      settled.1,
    )

-- The loop over the chunks in the deferred flush.
unfoldable pub fan_chunks : String → List Bytes → OutputDemux → Outcome
fan_chunks pane [] d = (d, [])
fan_chunks pane (c ∷ cs) d =
    let first = fan_out pane c d in
    let rest = fan_chunks pane cs first.0 in (rest.0, first.1 ++ rest.1)

unfoldable pub flush : String → List Bytes → OutputDemux → Outcome
flush pane chunks d =
    if not (has d.known_panes pane)
    then (d, [])
    else if has d.paused_panes pane
    then (d, [])
    else if length d.transports == 0
    then (d, [])
    else fan_chunks pane chunks d

unfoldable pub run_microtask : OutputDemux → Outcome
run_microtask d = elim d.microtasks [
  | [] ↦ (d, [])
  | (pane, chunks) ∷ later ↦ flush pane chunks (record d { microtasks = later })
]

-- The loop that discards the queues of a pane.
unfoldable pub discard_queues : String → Dict ℕ Queues → Dict ℕ Queues
discard_queues pane [] = []
discard_queues pane ((t, queues) ∷ rest) =
    let later = discard_queues pane rest in
    elim (get queues pane) [
      | none ↦ (t, queues) ∷ later
      | some queue ↦
          if length (delete queues pane) == 0 then later else (t, delete queues pane) ∷ later
    ]

unfoldable pub notify_pane_closed : String → OutputDemux → Outcome
notify_pane_closed pane d =
    let settled = settle_dropped_bytes pane (if has d.known_panes pane then owned else foreign) d in
    (
      record settled.0 {
        known_panes = remove d.known_panes pane;
        pending_fanout = delete d.pending_fanout pane;
        pending_fanout_bytes = delete d.pending_fanout_bytes pane;
        pending_fanout_overflowed = remove d.pending_fanout_overflowed pane;
        hydrating = discard_queues pane d.hydrating;
      },
      settled.1,
    )

unfoldable pub pending_bytes : OutputDemux → String → ℕ
pending_bytes d pane = or_zero (get d.pending_fanout_bytes pane)

-- A repeated begin keeps the queue.
unfoldable pub open_queue : ℕ → String → Dict ℕ Queues → Option (List Bytes) → Dict ℕ Queues
open_queue t pane hydrating none = set_queue hydrating t pane []
open_queue t pane hydrating (some queue) = hydrating

unfoldable pub begin_pane_hydration : ℕ → String → OutputDemux → OutputDemux
unfolding open_queue
begin_pane_hydration t pane d = record d {
  hydrating = open_queue t pane d.hydrating (queue_for d.hydrating t pane);
}

-- The queued chunks, sent to the one transport.
unfoldable pub sends : ℕ → String → List Bytes → List Effect
sends t pane [] = []
sends t pane (c ∷ cs) = send_data t pane c ∷ sends t pane cs

-- The map of queues without a pane, and no map where it was the last one.
abbrev pub close_queue : ℕ → String → Dict ℕ Queues → Dict ℕ Queues
close_queue t pane hydrating =
    let left = delete (or_empty (get hydrating t)) pane in
    if length left == 0 then delete hydrating t else set hydrating t left

unfoldable pub flush_queue :
    ℕ → String → Dict ℕ Queues → Option (List Bytes) → Dict ℕ Queues × List Effect
unfolding sends
flush_queue t pane hydrating none = (hydrating, [])
flush_queue t pane hydrating (some queue) = (close_queue t pane hydrating, sends t pane queue)

unfoldable pub end_pane_hydration : ℕ → String → OutputDemux → Outcome
unfolding flush_queue
end_pane_hydration t pane d =
    let flushed = flush_queue t pane d.hydrating (queue_for d.hydrating t pane) in
    (record d { hydrating = flushed.0 }, flushed.1)

-- The calls of a session, with the event loop's turns, and a history of them.
pub data Call : Type 0 where
  appends : String → Bytes → Call
  drops : String → Call
  clears : Call
  attaches unsubscribes detaches : ℕ → Call
  pauses resumes binds closes : String → Call
  begins_hydration ends_hydration : ℕ → String → Call
  microtask : Call

unfoldable pub call : ℕ → Call → OutputDemux → Outcome
call cap_bytes (appends pane bytes) d = append cap_bytes pane bytes d
call cap_bytes (drops pane) d = (record d { inner = Scrollback.drop_pane d.inner pane }, [])
call cap_bytes clears d = (record d { inner = Scrollback.clear d.inner }, [])
call cap_bytes (attaches t) d = (attach_transport t d, [])
call cap_bytes (unsubscribes t) d = (unsubscribe t d, [])
call cap_bytes (detaches t) d = (detach_transport t d, [])
call cap_bytes (pauses pane) d = (pause_pane pane d, [])
call cap_bytes (resumes pane) d = (resume_pane pane d, [])
call cap_bytes (binds pane) d = notify_pane_bound pane d
call cap_bytes (closes pane) d = notify_pane_closed pane d
call cap_bytes (begins_hydration t pane) d = (begin_pane_hydration t pane d, [])
call cap_bytes (ends_hydration t pane) d = end_pane_hydration t pane d
call cap_bytes microtask d = run_microtask d

unfoldable pub run : ℕ → List Call → OutputDemux → Outcome
run cap_bytes [] d = (d, [])
run cap_bytes (c ∷ cs) d =
    let first = call cap_bytes c d in
    let rest = run cap_bytes cs first.0 in (rest.0, first.1 ++ rest.1)
