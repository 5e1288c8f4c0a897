-- ===== src/Runtime/OutputDemux/Stream.antt =====
-- The stream of a known pane to an attached transport: nothing lost, repeated or reordered.
use Prim.Native.String.{String}
use tmuxcc_driver.Prelude.{
  ℕ, ◌≡◌, refl, sym, ◌∙◌, true, Option, none, some, List, [], ◌∷◌, ◌++◌, append-nil, arith, Bytes,
  All,
}
use tmuxcc_driver.Prelude.Keyed.{string_keyed, nat_keyed}
use tmuxcc_driver.Prelude.Dict.{Dict, get, delete, get-delete, has-add, has-remove}
use tmuxcc_driver.Prelude.Keys.{
  IsUnique, set-IsUnique, delete-IsUnique, add-IsDistinct, remove-IsDistinct,
}
use tmuxcc_driver.State.Scrollback
use tmuxcc_driver.Runtime.OutputDemux.{
  Queues, OutputDemux, or_empty, Call, appends, drops, clears, attaches, unsubscribes, detaches,
  pauses, resumes, binds, closes, begins_hydration, ends_hydration, microtask, queue_for, append,
  attach_transport, unsubscribe, detach_transport, pause_pane, resume_pane, open_queue,
  begin_pane_hydration, flush_queue, end_pane_hydration, call, run,
}
use tmuxcc_driver.Runtime.OutputDemux.Carried.{
  IsLive, keeps, chunk_of, chunks_of, Carries, Carries-nothing, Carries-then, quiet_lem, tap_lem,
  bind_lem, close_lem, microtask_lem,
}
use tmuxcc_driver.Runtime.OutputDemux.Queues.{sent, flush_queue_lem, open_queue_lem}

module _ (t : ℕ) (p : String) where
  pub open_queue-IsUnique :
      (t' : ℕ) (q : String) (h : Dict ℕ Queues) (o : Option (List Bytes))
      → IsUnique h
      → IsUnique (open_queue t' q h o)
  unfolding open_queue
  open_queue-IsUnique t' q h none u = set-IsUnique h t' _ u
  open_queue-IsUnique t' q h (some queue) u = u

  pub flush_queue-IsUnique :
      (t' : ℕ) (q : String) (h : Dict ℕ Queues) (o : Option (List Bytes))
      → IsUnique h
      → IsUnique (flush_queue t' q h o).0
  unfolding flush_queue
  flush_queue-IsUnique t' q h none u = u
  flush_queue-IsUnique t' q h (some queue) u =
      ground (arith, set-IsUnique h t' (delete (or_empty (get h t')) q) u, delete-IsUnique h t' u)

  call_lem :
      (cap_bytes : ℕ) (c : Call) (d : OutputDemux)
      → keeps t p c ≡ true
      → IsLive t p d
      → IsLive t p (call cap_bytes c d).0 × Carries t p (chunk_of p c) d (call cap_bytes c d)
  unfolding call append attach_transport unsubscribe detach_transport pause_pane resume_pane
      begin_pane_hydration end_pane_hydration
  call_lem cap_bytes (appends q b) d k live =
      tap_lem t p q b (record d { inner = Scrollback.append cap_bytes d.inner q b }) (ground arith)
  call_lem cap_bytes (drops q) d k live =
      quiet_lem t p d (call cap_bytes (drops q) d) (ground arith) refl refl
  call_lem cap_bytes clears d k live =
      quiet_lem t p d (call cap_bytes clears d) (ground arith) refl refl
  call_lem cap_bytes (attaches t') d k live =
      quiet_lem t p d (call cap_bytes (attaches t') d)
        (ground (arith, has-add d.transports t' t, add-IsDistinct d.transports t' live.distinct))
        refl refl
  call_lem cap_bytes (unsubscribes t') d k live =
      quiet_lem t p d (call cap_bytes (unsubscribes t') d)
        (ground
          (arith, has-remove d.transports t' t, remove-IsDistinct d.transports t' live.distinct))
        refl refl
  call_lem cap_bytes (detaches t') d k live = (
    record {
      known = live.known;
      unpaused = live.unpaused;
      attached = ground (arith, has-remove d.transports t' t);
      distinct = remove-IsDistinct d.transports t' live.distinct;
      unique = delete-IsUnique d.hydrating t' live.unique;
      settled = live.settled;
    },
    Carries-nothing t p d (call cap_bytes (detaches t') d) refl
        (unfold queue_for in ground (arith, get-delete d.hydrating t' t)),
  )
  call_lem cap_bytes (pauses q) d k live =
      quiet_lem t p d (call cap_bytes (pauses q) d) (ground (arith, has-add d.paused_panes q p))
        refl refl
  call_lem cap_bytes (resumes q) d k live =
      quiet_lem t p d (call cap_bytes (resumes q) d) (ground (arith, has-remove d.paused_panes q p))
        refl refl
  call_lem cap_bytes (binds q) d k live = bind_lem t p q d live
  call_lem cap_bytes (closes q) d k live = close_lem t p q d (ground arith) live
  call_lem cap_bytes (begins_hydration t' q) d k live = (
    record {
      known = live.known;
      unpaused = live.unpaused;
      attached = live.attached;
      distinct = live.distinct;
      unique = open_queue-IsUnique t' q d.hydrating (queue_for d.hydrating t' q) live.unique;
      settled = live.settled;
    },
    open_queue_lem t p t' q d.hydrating (queue_for d.hydrating t' q) refl ∙ sym (append-nil _),
  )
  call_lem cap_bytes (ends_hydration t' q) d k live = (
    record {
      known = live.known;
      unpaused = live.unpaused;
      attached = live.attached;
      distinct = live.distinct;
      unique = flush_queue-IsUnique t' q d.hydrating (queue_for d.hydrating t' q) live.unique;
      settled = live.settled;
    },
    flush_queue_lem t p t' q d.hydrating (queue_for d.hydrating t' q) refl ∙ sym (append-nil _),
  )
  call_lem cap_bytes microtask d k live = microtask_lem t p d live

-- For a pane that is known and not paused, with no flush of its staged bytes waiting in the event
-- loop, and a transport that is attached, over any history that does not close or pause the pane, nor
-- detach or unsubscribe the transport: the chunks sent to the transport, with
-- those that its hydration still holds back, are the chunks held back before and then the appended
-- ones, each once and in order. Other panes and transports may do what they like in between.
pub run_stream :
    (cap_bytes : ℕ) (t : ℕ) (p : String) (cs : List Call) (d : OutputDemux)
    → All (λ c. keeps t p c ≡ true) cs
    → IsLive t p d
    → sent t p (run cap_bytes cs d).1 ++ or_empty (queue_for (run cap_bytes cs d).0.hydrating t p)
      ≡ or_empty (queue_for d.hydrating t p) ++ chunks_of p cs
unfolding run
run_stream cap_bytes t p [] d k live = sym (append-nil _)
run_stream cap_bytes t p (c ∷ cs) d (k, ks) live =
    let (live', first) = call_lem t p cap_bytes c d k live in
    Carries-then t p (chunk_of p c) (chunks_of p cs) d (call cap_bytes c d)
      (run cap_bytes cs (call cap_bytes c d).0) first
      (run_stream cap_bytes t p cs (call cap_bytes c d).0 ks live')
