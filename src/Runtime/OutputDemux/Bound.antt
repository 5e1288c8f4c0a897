-- ===== src/Runtime/OutputDemux/Bound.antt =====
-- The moment a pane becomes known: what was staged, what was dropped, and the scrollback store.
use Prim.Native.String.{String}
use tmuxcc_driver.Prelude.{
  ℕ, ◌+◌, ◌≡◌, refl, ap, sym, ◌∙◌, true, false, Option, none, some, List, [], ◌∷◌, ◌++◌, append-nil,
  arith, Bytes,
}
use tmuxcc_driver.Prelude.Keyed.{string_keyed, nat_keyed, matches_refl}
use tmuxcc_driver.Prelude.Dict.{Dict, get, get-delete, has, has-add}
use tmuxcc_driver.Prelude.Keys.{IsUnique, IsDistinct}
use tmuxcc_driver.Runtime.OutputDemux.{
  owned, foreign, OutputDemux, Outcome, Effect, send_data, on_pretopology_dropped, warn_overflow,
  or_empty, or_zero, binds, microtask, queue_for, queue_or_send, fan_one, fan_loop, Queues, fan_out,
  settle_dropped_bytes, notify_pane_bound, task_for, fan_chunks, flush, run_microtask, call, run,
}
use tmuxcc_driver.Runtime.OutputDemux.Queues.{sent, sent-append}
use tmuxcc_driver.Runtime.OutputDemux.Carried.{
  IsLive, waiting, Carries, Carries-then, fan_out_lem, has_some,
}
use tmuxcc_driver.Runtime.OutputDemux.Staging.{staged, dropped}

-- A pane that is not known, and not paused, and an attached transport, with no task waiting.
pub record IsWaiting (t : ℕ) (p : String) (d : OutputDemux) : Type 0 where
  pub unknown : has d.known_panes p ≡ false
  pub unpaused : has d.paused_panes p ≡ false
  pub attached : has d.transports t ≡ true
  pub distinct : IsDistinct d.transports
  pub unique : IsUnique d.hydrating
  pub idle : d.microtasks ≡ []

-- The bytes that the observer is told were dropped from a pane of ours.
abbrev pub reported_owned : List Effect → ℕ
reported_owned [] = 0
reported_owned (on_pretopology_dropped n owned ∷ es) = n + reported_owned es
reported_owned (on_pretopology_dropped n foreign ∷ es) = reported_owned es
reported_owned (send_data t p b ∷ es) = reported_owned es
reported_owned (warn_overflow p m n ∷ es) = reported_owned es

module _ (t : ℕ) (p : String) where
  fan_chunks_self :
      (cs : List Bytes) (d : OutputDemux)
      → IsLive t p d
      → IsLive t p (fan_chunks p cs d).0 × Carries t p cs d (fan_chunks p cs d)
  unfolding fan_chunks
  fan_chunks_self [] d live = (live, sym (append-nil _))
  fan_chunks_self (c ∷ cs) d live =
      let (live', first) = fan_out_lem t p p c d live in
      let (live'', rest) = fan_chunks_self cs (fan_out p c d).0 live' in
      (
        live'',
        Carries-then t p (c ∷ []) cs d (fan_out p c d) (fan_chunks p cs (fan_out p c d).0)
            (rw (matches_refl p) at first) rest,
      )

  flush_self :
      (cs : List Bytes) (d : OutputDemux)
      → IsLive t p d
      → IsLive t p (flush p cs d).0 × Carries t p cs d (flush p cs d)
  unfolding flush
  flush_self cs d live =
      rw (live.known, live.unpaused, has_some t p d.transports live.attached)
        (fan_chunks_self cs d live)

  -- The task of the flush, if there was something to flush.
  run_task :
      (cs : List Bytes) (d : OutputDemux)
      → d.microtasks ≡ task_for p cs
      → IsLive t p (record d { microtasks = [] })
      → IsLive t p (run_microtask d).0 × Carries t p cs d (run_microtask d)
  unfolding run_microtask
  run_task [] d e live =
      rw (e, run_microtask)
        (
          record {
            known = live.known;
            unpaused = live.unpaused;
            attached = live.attached;
            distinct = live.distinct;
            unique = live.unique;
            settled = ap (waiting p) e;
          },
          sym (append-nil _),
        )
  run_task (c ∷ cs) d e live =
      rw (e, run_microtask) (flush_self (c ∷ cs) (record d { microtasks = [] }) live)

  -- What binding does to the pane's own entries, and what it tells the observer.
  bind_self :
      (d : OutputDemux)
      → IsWaiting t p d
      → let r = notify_pane_bound p d in
        IsLive t p (record r.0 { microtasks = [] })
        × (r.0.microtasks ≡ task_for p (staged p d))
        × (r.0.hydrating ≡ d.hydrating)
        × (sent t p r.1 ≡ [])
        × (reported_owned r.1 ≡ dropped p d)
        × (get r.0.pending_fanout p ≡ none)
        × (or_zero (get r.0.pending_dropped_bytes p) ≡ 0)
  unfolding notify_pane_bound settle_dropped_bytes
  bind_self d w = (
    record {
      known = ground (arith, has-add d.known_panes p p, matches_refl p);
      unpaused = ground arith;
      attached = ground arith;
      distinct = ground arith;
      unique = ground arith;
      settled = refl;
    },
    ground arith,
    ground arith,
    ground arith,
    ground arith,
    ground (arith, get-delete d.pending_fanout p p, matches_refl p),
    ground (arith, get-delete d.pending_dropped_bytes p p, matches_refl p),
  )

reported_owned-append :
    (es fs : List Effect) → reported_owned (es ++ fs) ≡ reported_owned es + reported_owned fs
reported_owned-append [] fs = omega arith
reported_owned-append (on_pretopology_dropped n owned ∷ es) fs =
    omega (arith, reported_owned-append es fs)
reported_owned-append (on_pretopology_dropped n foreign ∷ es) fs = reported_owned-append es fs
reported_owned-append (send_data t p b ∷ es) fs = reported_owned-append es fs
reported_owned-append (warn_overflow p m n ∷ es) fs = reported_owned-append es fs

-- Sending leaves what is staged and counted, and tells the observer nothing.
abbrev KeepsStaged : OutputDemux → Outcome → Type 0
KeepsStaged d r =
    (r.0.pending_fanout ≡ d.pending_fanout)
    × (r.0.pending_dropped_bytes ≡ d.pending_dropped_bytes)
    × (reported_owned r.1 ≡ 0)

fan_one_silent :
    (p : String) (b : Bytes) (t : ℕ) (h : Dict ℕ Queues) (o : Option (List Bytes))
    → reported_owned (queue_or_send p b t h o).1 ≡ 0
unfolding queue_or_send
fan_one_silent p b t h none = refl
fan_one_silent p b t h (some queue) = refl

fan_loop_silent :
    (p : String) (b : Bytes) (ts : List ℕ) (h : Dict ℕ Queues)
    → reported_owned (fan_loop p b ts h).1 ≡ 0
unfolding fan_loop fan_one
fan_loop_silent p b [] h = refl
fan_loop_silent p b (t ∷ ts) h =
    let first = fan_one p b t h in
    omega (
      arith,
      reported_owned-append first.1 (fan_loop p b ts first.0).1,
      fan_one_silent p b t h (queue_for h t p),
      fan_loop_silent p b ts first.0,
    )

fan_chunks-KeepsStaged :
    (p : String) (cs : List Bytes) (d : OutputDemux) → KeepsStaged d (fan_chunks p cs d)
unfolding fan_chunks fan_out
fan_chunks-KeepsStaged p [] d = (refl, refl, refl)
fan_chunks-KeepsStaged p (c ∷ cs) d =
    let first = fan_loop p c d.transports d.hydrating in
    let next = record d { hydrating = first.0 } in
    let (chunks, counts, silent) = fan_chunks-KeepsStaged p cs next in
    (
      chunks,
      counts,
      omega (
        arith,
        reported_owned-append first.1 (fan_chunks p cs next).1,
        fan_loop_silent p c d.transports d.hydrating,
      ),
    )

flush-KeepsStaged : (p : String) (cs : List Bytes) (d : OutputDemux) → KeepsStaged d (flush p cs d)
unfolding flush
flush-KeepsStaged p cs d = ground (arith, fan_chunks-KeepsStaged p cs d)

run_microtask-KeepsStaged : (d : OutputDemux) → KeepsStaged d (run_microtask d)
unfolding run_microtask
run_microtask-KeepsStaged d = first_task d.microtasks refl
  where
    first_task :
        (tasks : List (String × List Bytes))
        → d.microtasks ≡ tasks
        → KeepsStaged d (run_microtask d)
    first_task [] e = rw (e, run_microtask) (refl, refl, refl)
    first_task ((q, cs) ∷ later) e =
        rw (e, run_microtask) (flush-KeepsStaged q cs (record d { microtasks = later }))

-- When an unknown pane becomes known while a transport is attached, the pane is not paused and no
-- flush of any pane waits in the event loop, and the event loop then turns: the transport is sent what
-- the demux had staged, in order and behind what its hydration holds back; the observer is told how
-- many bytes were dropped, as owned ones; nothing stays staged or counted; and from here on the pane's
-- stream to the transport is live.
pub bound_stream :
    (cap_bytes : ℕ) (t : ℕ) (p : String) (d : OutputDemux)
    → IsWaiting t p d
    → let r = run cap_bytes (binds p ∷ microtask ∷ []) d in
      (sent t p r.1 ++ or_empty (queue_for r.0.hydrating t p)
        ≡ or_empty (queue_for d.hydrating t p) ++ staged p d)
      × (reported_owned r.1 ≡ dropped p d)
      × (staged p r.0 ≡ [])
      × (dropped p r.0 ≡ 0)
      × IsLive t p r.0
unfolding run call
bound_stream cap_bytes t p d w =
    let bound = notify_pane_bound p d in
    let (live, task, same, quiet, reported, unstaged, uncounted) = bind_self t p d w in
    let (live', carried) = run_task t p (staged p d) bound.0 task live in
    let (chunks, counts, silent) = run_microtask-KeepsStaged bound.0 in
    (
      rw (append-nil (run_microtask bound.0).1) (
          rw (sent-append t p bound.1 (run_microtask bound.0).1, quiet)
            (carried ∙ ap (λ h. or_empty (queue_for h t p) ++ staged p d) same)),
      omega (
        arith,
        reported_owned-append bound.1 ((run_microtask bound.0).1 ++ []),
        reported_owned-append (run_microtask bound.0).1 [],
      ),
      ap (λ m. or_empty (get m p)) chunks ∙ ap or_empty unstaged,
      ap (λ m. or_zero (get m p)) counts ∙ uncounted,
      live',
    )
