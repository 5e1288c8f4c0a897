-- ===== src/Runtime/OutputDemux/Hidden.antt =====
-- Any history of a pane that the topology does not know yet.
use Prim.Native.String.{String}
use tmuxcc_driver.Prelude.{
  ℕ, ◌+◌, ◌≤◌, ◌≡◌, refl, ◌∙◌, true, false, List, [], ◌∷◌, arith, Bytes, ◌==◌, length, concat,
  Bool-cases, All, inl, inr,
}
use tmuxcc_driver.Prelude.Keyed.{string_keyed, nat_keyed}
use tmuxcc_driver.Prelude.Dict.{get, has, get-delete, has-add, has-remove}
use tmuxcc_driver.Prelude.Keys.{delete-IsUnique}
use tmuxcc_driver.State.Scrollback
use tmuxcc_driver.State.Scrollback.{Store}
use tmuxcc_driver.Runtime.OutputDemux.{
  max_pending_bytes_per_pane, OutputDemux, or_empty, or_zero, Call, appends, detaches, binds,
  closes, begins_hydration, ends_hydration, microtask, queue_for, fan_out, append, attach_transport,
  unsubscribe, detach_transport, pause_pane, resume_pane, settle_dropped_bytes, notify_pane_bound,
  fan_chunks, flush, run_microtask, notify_pane_closed, begin_pane_hydration, flush_queue,
  end_pane_hydration, pending_bytes, create_output_demux, call, run,
}
use tmuxcc_driver.Runtime.OutputDemux.Queues.{
  sent, flush_queue_lem, open_queue_lem, discard_queues-IsUnique, queue_for-discard_queues,
  queue_for-delete,
}
use tmuxcc_driver.Runtime.OutputDemux.Carried.{chunk_of, append-eq_nil}
use tmuxcc_driver.Runtime.OutputDemux.Stream.{open_queue-IsUnique, flush_queue-IsUnique}
use tmuxcc_driver.Runtime.OutputDemux.Staging.{
  staged, dropped, IsHidden, hides, Hides, still_hidden, fan_out_other, idle, tap_hidden,
  Hides-then,
}

module _ (t : ℕ) (p : String) where
  fan_chunks_other :
      (q : String) (cs : List Bytes) (d : OutputDemux)
      → string_keyed.matches q p ≡ false
      → IsHidden t p d
      → Hides t p 0 d (fan_chunks q cs d)
  unfolding fan_chunks
  fan_chunks_other q [] d other hidden = idle t p d hidden
  fan_chunks_other q (c ∷ cs) d other hidden =
      let first = fan_out_other t p q c d other hidden in
      Hides-then t p 0 0 d (fan_out q c d) (fan_chunks q cs (fan_out q c d).0) first
        (fan_chunks_other q cs (fan_out q c d).0 other first.0)

  flush_hidden :
      (q : String) (cs : List Bytes) (d : OutputDemux)
      → IsHidden t p d
      → Hides t p 0 d (flush q cs d)
  unfolding flush
  flush_hidden q cs d hidden = elim (Bool-cases (has d.known_panes q)) [
    | inr unknown ↦ rw unknown (idle t p d hidden)
    | inl known ↦
        let other : string_keyed.matches q p ≡ false =
          ground (arith, hidden.unknown, string_keyed.matches_iff q p) in
        rw known (elim (Bool-cases (has d.paused_panes q)) [
          | inl paused ↦ rw paused (idle t p d hidden)
          | inr open_gate ↦ rw open_gate (elim (Bool-cases (length d.transports == 0)) [
            | inl alone ↦ rw alone (idle t p d hidden)
            | inr clients ↦ rw clients (fan_chunks_other q cs d other hidden)
          ])
        ])
  ]

  microtask_hidden : (d : OutputDemux) → IsHidden t p d → Hides t p 0 d (run_microtask d)
  unfolding run_microtask
  microtask_hidden d hidden = first_task d.microtasks refl
    where
      first_task :
          (tasks : List (String × List Bytes))
          → d.microtasks ≡ tasks
          → Hides t p 0 d (run_microtask d)
      first_task [] e = rw (e, run_microtask) (idle t p d hidden)
      first_task ((q, cs) ∷ later) e =
          rw (e, run_microtask) (flush_hidden q cs (record d { microtasks = later }) (ground arith))

  bind_hidden :
      (q : String) (d : OutputDemux)
      → string_keyed.matches q p ≡ false
      → IsHidden t p d
      → Hides t p 0 d (notify_pane_bound q d)
  unfolding notify_pane_bound settle_dropped_bytes
  bind_hidden q d other hidden = elim (Bool-cases (has d.known_panes q)) [
    | inl known ↦ rw known (idle t p d hidden)
    | inr unknown ↦
        still_hidden t p d (notify_pane_bound q d) (ground (arith, has-add d.known_panes q p))
          (ground arith) (ground arith) (ground (arith, get-delete d.pending_fanout q p))
          (ground (arith, get-delete d.pending_fanout_bytes q p))
          (ground (arith, get-delete d.pending_dropped_bytes q p)) (ground arith) hidden
  ]

  close_hidden :
      (q : String) (d : OutputDemux)
      → string_keyed.matches q p ≡ false
      → IsHidden t p d
      → Hides t p 0 d (notify_pane_closed q d)
  unfolding notify_pane_closed settle_dropped_bytes
  close_hidden q d other hidden =
      still_hidden t p d (notify_pane_closed q d) (ground (arith, has-remove d.known_panes q p))
        (ground (arith, queue_for-discard_queues t p q d.hydrating hidden.unique))
        (ground (arith, discard_queues-IsUnique q d.hydrating hidden.unique))
        (ground (arith, get-delete d.pending_fanout q p))
        (ground (arith, get-delete d.pending_fanout_bytes q p))
        (ground (arith, get-delete d.pending_dropped_bytes q p)) (ground arith) hidden

  -- A queue of the pane holds nothing, so that its end sends nothing.
  end_hidden :
      (t' : ℕ) (q : String) (d : OutputDemux)
      → IsHidden t p d
      → (sent t p (flush_queue t' q d.hydrating (queue_for d.hydrating t' q)).1 ≡ [])
        × (or_empty (queue_for (flush_queue t' q d.hydrating (queue_for d.hydrating t' q)).0 t p)
            ≡ [])
  end_hidden t' q d hidden =
      append-eq_nil t p _ _
        (flush_queue_lem t p t' q d.hydrating (queue_for d.hydrating t' q) refl ∙ hidden.unqueued)

  call_hidden :
      (cap_bytes : ℕ) (c : Call) (d : OutputDemux)
      → hides p c ≡ true
      → IsHidden t p d
      → Hides t p (length (concat (chunk_of p c))) d (call cap_bytes c d)
  unfolding call append attach_transport unsubscribe detach_transport pause_pane resume_pane
      begin_pane_hydration end_pane_hydration
  call_hidden cap_bytes (appends q b) d k hidden =
      tap_hidden t p q b (record d { inner = Scrollback.append cap_bytes d.inner q b })
        (ground arith)
  call_hidden cap_bytes (detaches t') d k hidden =
      still_hidden t p d (call cap_bytes (detaches t') d) hidden.unknown
        (ground (arith, queue_for-delete t p t' d.hydrating, hidden.unqueued))
        (delete-IsUnique d.hydrating t' hidden.unique) refl refl refl refl hidden
  call_hidden cap_bytes (binds q) d k hidden = bind_hidden q d (ground arith) hidden
  call_hidden cap_bytes (closes q) d k hidden = close_hidden q d (ground arith) hidden
  call_hidden cap_bytes (begins_hydration t' q) d k hidden =
      still_hidden t p d (call cap_bytes (begins_hydration t' q) d) hidden.unknown
        (open_queue_lem t p t' q d.hydrating (queue_for d.hydrating t' q) refl ∙ hidden.unqueued)
        (open_queue-IsUnique t p t' q d.hydrating (queue_for d.hydrating t' q) hidden.unique) refl
        refl refl refl hidden
  call_hidden cap_bytes (ends_hydration t' q) d k hidden =
      let (quiet, unqueued) = end_hidden t' q d hidden in
      still_hidden t p d (call cap_bytes (ends_hydration t' q) d) hidden.unknown unqueued
        (flush_queue-IsUnique t p t' q d.hydrating (queue_for d.hydrating t' q) hidden.unique) refl
        refl refl quiet hidden
  call_hidden cap_bytes microtask d k hidden = microtask_hidden d hidden
  call_hidden cap_bytes c d k hidden =
      still_hidden t p d (call cap_bytes c d) hidden.unknown hidden.unqueued hidden.unique refl refl
        refl refl hidden

-- The bytes that a history brings for a pane.
abbrev pub bytes_of : String → List Call → ℕ
bytes_of p [] = 0
bytes_of p (c ∷ cs) = length (concat (chunk_of p c)) + bytes_of p cs

run_hidden :
    (cap_bytes : ℕ) (t : ℕ) (p : String) (cs : List Call) (d : OutputDemux)
    → All (λ c. hides p c ≡ true) cs
    → IsHidden t p d
    → Hides t p (bytes_of p cs) d (run cap_bytes cs d)
unfolding run
run_hidden cap_bytes t p [] d k hidden = idle t p d hidden
run_hidden cap_bytes t p (c ∷ cs) d (k, ks) hidden =
    let first = call_hidden t p cap_bytes c d k hidden in
    Hides-then t p (length (concat (chunk_of p c))) (bytes_of p cs) d (call cap_bytes c d)
      (run cap_bytes cs (call cap_bytes c d).0) first
      (run_hidden cap_bytes t p cs (call cap_bytes c d).0 ks first.0)

create_output_demux-IsHidden :
    (inner : Store) (t : ℕ) (p : String) → IsHidden t p (create_output_demux inner)
unfolding create_output_demux has queue_for get
create_output_demux-IsHidden inner t p = record {
  unknown = refl;
  unqueued = refl;
  unique = tt;
  counted = refl;
  bounded = omega arith;
}

nothing_yet :
    (inner : Store) (p : String)
    → or_zero (get (create_output_demux inner).pending_fanout_bytes p)
        + dropped p (create_output_demux inner)
      ≡ 0
unfolding create_output_demux get
nothing_yet inner p = refl

-- As long as a new demux is not told of a pane, whatever else happens, not a byte of it reaches a
-- client: each appended byte is staged, and the counter of the staged bytes is their number and
-- never above the limit, or it is counted as dropped.
pub pending_bytes-run :
    (cap_bytes : ℕ) (inner : Store) (t : ℕ) (p : String) (cs : List Call)
    → All (λ c. hides p c ≡ true) cs
    → let r = run cap_bytes cs (create_output_demux inner) in
      (sent t p r.1 ≡ [])
      × (pending_bytes r.0 p ≡ length (concat (staged p r.0)))
      × (pending_bytes r.0 p ≤ max_pending_bytes_per_pane)
      × (pending_bytes r.0 p + dropped p r.0 ≡ bytes_of p cs)
unfolding pending_bytes
pending_bytes-run cap_bytes inner t p cs k =
    let start = create_output_demux inner in
    let (hidden, quiet, sum) =
      run_hidden cap_bytes t p cs start k (create_output_demux-IsHidden inner t p) in
    (quiet, hidden.counted, hidden.bounded, omega (arith, nothing_yet inner p))
