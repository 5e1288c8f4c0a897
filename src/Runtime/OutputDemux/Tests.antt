-- ===== src/Runtime/OutputDemux/Tests.antt =====
-- Runs of the demux, and its theorems at them.
use tmuxcc_driver.Prelude.{◌+◌, ◌≤◌, ◌≡◌, refl, some, List, [], ◌∷◌, ◌++◌, Bytes, length, concat}
use tmuxcc_driver.Prelude.Dict.{get, set, delete, has, add, remove}
use tmuxcc_driver.State.Scrollback
use tmuxcc_driver.State.Scrollback.Contents.{take_last}
use tmuxcc_driver.State.Scrollback.History.{written}
use tmuxcc_driver.Runtime.OutputDemux.Tapped.{store_calls, get_contents-inner-run}
use tmuxcc_driver.Runtime.OutputDemux.{
  max_pending_bytes_per_pane, OutputDemux, Outcome, send_data, or_empty, Call, appends, attaches,
  binds, detaches, begins_hydration, ends_hydration, microtask, create_output_demux,
  settle_dropped_bytes, queue_for, queue_or_send, fan_one, fan_loop, fan_out, stage, deliver, tap,
  append, attach_transport, pause_pane, notify_pane_bound, fan_chunks, flush, run_microtask,
  notify_pane_closed, discard_queues, pending_bytes, open_queue, begin_pane_hydration, sends,
  flush_queue, end_pane_hydration, call, run,
}
use tmuxcc_driver.Runtime.OutputDemux.Queues.{sent}
use tmuxcc_driver.Runtime.OutputDemux.Carried.{IsLive, chunks_of}
use tmuxcc_driver.Runtime.OutputDemux.Stream.{run_stream}
use tmuxcc_driver.Runtime.OutputDemux.Staging.{staged, dropped}
use tmuxcc_driver.Runtime.OutputDemux.Hidden.{bytes_of, pending_bytes-run}
use tmuxcc_driver.Runtime.OutputDemux.Bound.{reported_owned, bound_stream}

play : List Call → OutputDemux → Outcome
unfolding run call append attach_transport pause_pane notify_pane_bound settle_dropped_bytes
    notify_pane_closed begin_pane_hydration end_pane_hydration run_microtask flush fan_chunks
    fan_out fan_loop fan_one queue_or_send queue_for tap deliver stage open_queue flush_queue sends
    discard_queues get set delete has add remove Scrollback.append create_output_demux
play cs d = run 100 cs d

start : OutputDemux
unfolding play
start = create_output_demux []

abbrev a : Bytes
a = 1 ∷ []

abbrev b : Bytes
b = 2 ∷ []

-- Staged bytes go out by the task behind the binding.
staged_then_bound :
    (play (attaches 7 ∷ appends "p1" a ∷ binds "p1" ∷ microtask ∷ appends "p1" b ∷ []) start).1
    ≡ send_data 7 "p1" a ∷ send_data 7 "p1" b ∷ []
unfolding play start
staged_then_bound = refl

-- Bytes that come between the binding and its task overtake the staged ones.
overtaking :
    (play (attaches 7 ∷ appends "p1" a ∷ binds "p1" ∷ appends "p1" b ∷ microtask ∷ []) start).1
    ≡ send_data 7 "p1" b ∷ send_data 7 "p1" a ∷ []
unfolding play start
overtaking = refl

-- A hydrating transport gets its bytes at the end, another one at once.
hydration :
    (play
      (attaches 7
        ∷ attaches 8
        ∷ binds "p1"
        ∷ begins_hydration 7 "p1"
        ∷ appends "p1" a
        ∷ appends "p1" b
        ∷ ends_hydration 7 "p1"
        ∷ [])
      start).1
    ≡ send_data 8 "p1" a ∷ send_data 8 "p1" b ∷ send_data 7 "p1" a ∷ send_data 7 "p1" b ∷ []
unfolding play start
hydration = refl

-- Two clients, of which client 7 hydrates pane p1.
abbrev warm : OutputDemux
warm = record {
  inner = [];
  transports = 7 ∷ 8 ∷ [];
  paused_panes = "p2" ∷ [];
  hydrating = (7, ("p1", a ∷ []) ∷ []) ∷ [];
  pending_dropped_bytes = [];
  known_panes = "p1" ∷ [];
  pending_fanout = [];
  pending_fanout_bytes = [];
  pending_fanout_overflowed = [];
  microtasks = [];
}

abbrev history : List Call
history = appends "p1" b ∷ detaches 8 ∷ ends_hydration 7 "p1" ∷ appends "p1" a ∷ []

run_stream_example :
    sent 7 "p1" (run 100 history warm).1
      ++ or_empty (queue_for (run 100 history warm).0.hydrating 7 "p1")
    ≡ or_empty (queue_for warm.hydrating 7 "p1") ++ chunks_of "p1" history
run_stream_example =
    run_stream 100 7 "p1" history warm (refl, (refl, (refl, (refl, tt))))
      (unfold has get in
        record {
          known = refl;
          unpaused = refl;
          attached = refl;
          distinct = (refl, (refl, tt));
          unique = (refl, tt);
          settled = refl;
        })

abbrev before_binding : List Call
before_binding = attaches 7 ∷ appends "p1" a ∷ binds "p2" ∷ microtask ∷ appends "p1" b ∷ []

pending_bytes-run_example :
    let r = run 100 before_binding (create_output_demux []) in
    (sent 7 "p1" r.1 ≡ [])
    × (pending_bytes r.0 "p1" ≡ length (concat (staged "p1" r.0)))
    × (pending_bytes r.0 "p1" ≤ max_pending_bytes_per_pane)
    × (pending_bytes r.0 "p1" + dropped "p1" r.0 ≡ bytes_of "p1" before_binding)
pending_bytes-run_example =
    pending_bytes-run 100 [] 7 "p1" before_binding (refl, (refl, (refl, (refl, (refl, tt)))))

-- A pane with a staged chunk and a count of dropped bytes.
abbrev overflowing : OutputDemux
overflowing = record {
  inner = [];
  transports = 7 ∷ [];
  paused_panes = [];
  hydrating = [];
  pending_dropped_bytes = ("p1", 5) ∷ [];
  known_panes = [];
  pending_fanout = ("p1", a ∷ b ∷ []) ∷ [];
  pending_fanout_bytes = ("p1", 2) ∷ [];
  pending_fanout_overflowed = "p1" ∷ [];
  microtasks = [];
}

bound_stream_example :
    let r = run 100 (binds "p1" ∷ microtask ∷ []) overflowing in
    (sent 7 "p1" r.1 ++ or_empty (queue_for r.0.hydrating 7 "p1")
      ≡ or_empty (queue_for overflowing.hydrating 7 "p1") ++ staged "p1" overflowing)
    × (reported_owned r.1 ≡ dropped "p1" overflowing)
    × (staged "p1" r.0 ≡ [])
    × (dropped "p1" r.0 ≡ 0)
    × IsLive 7 "p1" r.0
bound_stream_example = bound_stream 100 7 "p1" overflowing (
    unfold has get in
    record {
      unknown = refl;
      unpaused = refl;
      attached = refl;
      distinct = (refl, tt);
      unique = tt;
      idle = refl;
    })

get_contents-inner-run_example :
    Scrollback.get_contents (run 100 history (create_output_demux [])).0.inner "p1"
    ≡ some (take_last 100 (written "p1" [] (store_calls history)))
get_contents-inner-run_example = get_contents-inner-run 100 history "p1"
