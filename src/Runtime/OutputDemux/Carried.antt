-- ===== src/Runtime/OutputDemux/Carried.antt =====
-- What each operation makes of the stream of a known pane to an attached transport.
use Prim.Native.String.{String}
use tmuxcc_driver.Prelude.{
  ℕ, ◌≡◌, refl, ap, sym, Bool, true, false, not, ◌&&◌, Option, none, some, List, [], ◌∷◌, ◌++◌,
  append-nil, append_assoc, arith, Bytes, ◌==◌, if◌then◌else◌, length, Bool-cases, inl, inr,
}
use tmuxcc_driver.Prelude.Keyed.{string_keyed, nat_keyed, matches_refl}
use tmuxcc_driver.Prelude.Dict.{Dict, get, has, has-add, has-remove}
use tmuxcc_driver.Prelude.Keys.{IsUnique, IsDistinct, set-IsUnique}
use tmuxcc_driver.Runtime.OutputDemux.{
  Queues, OutputDemux, Outcome, or_empty, Call, appends, unsubscribes, detaches, pauses, closes,
  queue_for, queue_or_send, fan_one, fan_loop, fan_out, stage, deliver, tap, settle_dropped_bytes,
  notify_pane_bound, task_for, fan_chunks, flush, run_microtask, notify_pane_closed,
}
use tmuxcc_driver.Runtime.OutputDemux.Queues.{
  sent, sent-append, fan_loop_absent, fan_loop_present, discard_queues-IsUnique,
  queue_for-discard_queues,
}

-- The chunks of a pane that wait in the event loop.
abbrev pub waiting : String → List (String × List Bytes) → List Bytes
waiting p [] = []
waiting p ((q, cs) ∷ tasks) =
    if string_keyed.matches q p then cs ++ waiting p tasks else waiting p tasks

-- A pane that is known and not paused, an attached transport, and no flush of the pane that waits in
-- the event loop. A `Set` and a `Map` hold no key twice.
pub record IsLive (t : ℕ) (p : String) (d : OutputDemux) : Type 0 where
  pub known : has d.known_panes p ≡ true
  pub unpaused : has d.paused_panes p ≡ false
  pub attached : has d.transports t ≡ true
  pub distinct : IsDistinct d.transports
  pub unique : IsUnique d.hydrating
  pub settled : waiting p d.microtasks ≡ []

-- The calls that leave both as they are.
abbrev pub keeps : ℕ → String → Call → Bool
keeps t p (unsubscribes t') = not (t' == t)
keeps t p (detaches t') = not (t' == t)
keeps t p (pauses q) = not (string_keyed.matches q p)
keeps t p (closes q) = not (string_keyed.matches q p)
keeps t p _ = true

-- The chunks that a call brings for the pane.
abbrev pub chunk_of : String → Call → List Bytes
chunk_of p (appends q bytes) =
    if string_keyed.matches q p && not (length bytes == 0) then bytes ∷ [] else []
chunk_of p _ = []

abbrev pub chunks_of : String → List Call → List Bytes
chunks_of p [] = []
chunks_of p (c ∷ cs) = chunk_of p c ++ chunks_of p cs

module _ (t : ℕ) (p : String) where
  -- What a call makes of the stream: the chunks that it brings come behind those queued.
  abbrev pub Carries : List Bytes → OutputDemux → Outcome → Type 0
  Carries chunks d r =
      sent t p r.1 ++ or_empty (queue_for r.0.hydrating t p)
      ≡ or_empty (queue_for d.hydrating t p) ++ chunks

  pub Carries-nothing :
      (d : OutputDemux) (r : Outcome)
      → sent t p r.1 ≡ []
      → queue_for r.0.hydrating t p ≡ queue_for d.hydrating t p
      → Carries [] d r
  Carries-nothing d r quiet kept = rw (quiet, kept, append-nil) refl

  pub Carries-then :
      (xs ys : List Bytes) (d : OutputDemux) (r s : Outcome)
      → Carries xs d r
      → Carries ys r.0 s
      → Carries (xs ++ ys) d (s.0, r.1 ++ s.1)
  Carries-then xs ys d r s first later =
      rw (sent-append t p r.1 s.1, append_assoc, later, ← append_assoc, first, append_assoc) refl

  queue_or_send-IsUnique :
      (q : String) (b : Bytes) (t' : ℕ) (h : Dict ℕ Queues) (o : Option (List Bytes))
      → IsUnique h
      → IsUnique (queue_or_send q b t' h o).0
  unfolding queue_or_send
  queue_or_send-IsUnique q b t' h none u = u
  queue_or_send-IsUnique q b t' h (some queue) u = set-IsUnique h t' _ u

  pub fan_loop-IsUnique :
      (q : String) (b : Bytes) (ts : List ℕ) (h : Dict ℕ Queues)
      → IsUnique h
      → IsUnique (fan_loop q b ts h).0
  unfolding fan_loop fan_one
  fan_loop-IsUnique q b [] h u = u
  fan_loop-IsUnique q b (t' ∷ ts) h u =
      fan_loop-IsUnique q b ts (fan_one q b t' h).0
        (queue_or_send-IsUnique q b t' h (queue_for h t' q) u)

  pub fan_out_lem :
      (q : String) (b : Bytes) (d : OutputDemux)
      → IsLive t p d
      → IsLive t p (fan_out q b d).0
        × Carries (if string_keyed.matches q p then b ∷ [] else []) d (fan_out q b d)
  unfolding fan_out
  fan_out_lem q b d live = (
    record {
      known = live.known;
      unpaused = live.unpaused;
      attached = live.attached;
      distinct = live.distinct;
      unique = fan_loop-IsUnique q b d.transports d.hydrating live.unique;
      settled = live.settled;
    },
    elim (Bool-cases (string_keyed.matches q p)) [
      | inl same ↦
          let e : q ≡ p = (string_keyed.matches_iff q p).0 same in
          rw same
            (rw e (fan_loop_present t p b d.transports d.hydrating live.distinct live.attached))
      | inr other ↦ rw other (
          let (kept, quiet) =
            fan_loop_absent t p q b d.transports d.hydrating (ground (arith, other)) in
          rw (quiet, kept, append-nil) refl)
    ],
  )

  fan_chunks_other :
      (q : String) (cs : List Bytes) (d : OutputDemux)
      → string_keyed.matches q p ≡ false
      → IsLive t p d
      → IsLive t p (fan_chunks q cs d).0 × Carries [] d (fan_chunks q cs d)
  unfolding fan_chunks
  fan_chunks_other q [] d other live = (live, sym (append-nil _))
  fan_chunks_other q (c ∷ cs) d other live =
      let (live', first) = fan_out_lem q c d live in
      let (live'', rest) = fan_chunks_other q cs (fan_out q c d).0 other live' in
      (
        live'',
        Carries-then [] [] d (fan_out q c d) (fan_chunks q cs (fan_out q c d).0) (rw other at first)
            rest,
      )

  -- A call that sends nothing and leaves the queues and what the pane's stream rests on.
  pub quiet_lem :
      (d : OutputDemux) (r : Outcome)
      → IsLive t p r.0
      → sent t p r.1 ≡ []
      → r.0.hydrating ≡ d.hydrating
      → IsLive t p r.0 × Carries [] d r
  quiet_lem d r live quiet same = (live, Carries-nothing d r quiet (ap (λ h. queue_for h t p) same))

  stage_lem :
      (q : String) (b : Bytes) (d : OutputDemux)
      → IsLive t p d
      → IsLive t p (stage q b d).0 × Carries [] d (stage q b d)
  unfolding stage
  stage_lem q b d live = quiet_lem d (stage q b d) (ground arith) (ground arith) (ground arith)

  pub has_some : (ts : List ℕ) → has ts t ≡ true → (length ts == 0) ≡ false
  unfolding has
  has_some [] h = absurd (ground arith)
  has_some (t' ∷ ts) h = ground arith

  deliver_self :
      (b : Bytes) (d : OutputDemux)
      → IsLive t p d
      → IsLive t p (deliver p b d).0 × Carries (b ∷ []) d (deliver p b d)
  unfolding deliver
  deliver_self b d live =
      rw (live.unpaused, has_some d.transports live.attached)
        (rw (matches_refl p) at (fan_out_lem p b d live))

  deliver_other :
      (q : String) (b : Bytes) (d : OutputDemux)
      → string_keyed.matches q p ≡ false
      → IsLive t p d
      → IsLive t p (deliver q b d).0 × Carries [] d (deliver q b d)
  unfolding deliver
  deliver_other q b d other live = elim (Bool-cases (has d.paused_panes q)) [
    | inl paused ↦ rw paused (quiet_lem d (d, []) live refl refl)
    | inr open_gate ↦ rw open_gate (elim (Bool-cases (length d.transports == 0)) [
      | inl alone ↦ rw alone (quiet_lem d (d, []) live refl refl)
      | inr some_client ↦ rw some_client (rw other at (fan_out_lem q b d live))
    ])
  ]

  pub tap_lem :
      (q : String) (b : Bytes) (d : OutputDemux)
      → IsLive t p d
      → IsLive t p (tap q b d).0 × Carries (chunk_of p (appends q b)) d (tap q b d)
  unfolding tap
  tap_lem q b d live = elim (Bool-cases (string_keyed.matches q p)) [
    | inl same ↦
        let e : q ≡ p = (string_keyed.matches_iff q p).0 same in
        rw e (
          rw (matches_refl p, live.known)
            (elim (Bool-cases (length b == 0)) [
              | inl empty ↦ rw empty (quiet_lem d (d, []) live refl refl)
              | inr full ↦ rw full (deliver_self b d live)
            ]))
    | inr other ↦ rw other (elim (Bool-cases (length b == 0)) [
      | inl empty ↦ rw empty (quiet_lem d (d, []) live refl refl)
      | inr full ↦ rw full (elim (Bool-cases (has d.known_panes q)) [
        | inl known ↦ rw known (deliver_other q b d other live)
        | inr unknown ↦ rw unknown (stage_lem q b d live)
      ])
    ])
  ]

  waiting-task_for :
      (q : String) (tasks : List (String × List Bytes)) (cs : List Bytes)
      → string_keyed.matches q p ≡ false
      → waiting p (tasks ++ task_for q cs) ≡ waiting p tasks
  waiting-task_for q [] [] other = refl
  waiting-task_for q [] (c ∷ cs) other = rw other refl
  waiting-task_for q ((r, xs) ∷ tasks) cs other = ground (arith, waiting-task_for q tasks cs other)

  -- Binding another pane, or this one again.
  pub bind_lem :
      (q : String) (d : OutputDemux)
      → IsLive t p d
      → IsLive t p (notify_pane_bound q d).0 × Carries [] d (notify_pane_bound q d)
  unfolding notify_pane_bound settle_dropped_bytes
  bind_lem q d live = elim (Bool-cases (has d.known_panes q)) [
    | inl known ↦ rw known (quiet_lem d (d, []) live refl refl)
    | inr unknown ↦
        let other : string_keyed.matches q p ≡ false =
          ground (arith, string_keyed.matches_iff q p) in
        quiet_lem d (notify_pane_bound q d)
          (record {
            known = ground (arith, has-add d.known_panes q p);
            unpaused = ground arith;
            attached = ground arith;
            distinct = ground arith;
            unique = ground arith;
            settled =
                ground (
                  arith,
                  waiting-task_for q d.microtasks (or_empty (get d.pending_fanout q)) other,
                );
          })
          (ground arith) (ground arith)
  ]

  pub close_lem :
      (q : String) (d : OutputDemux)
      → string_keyed.matches q p ≡ false
      → IsLive t p d
      → IsLive t p (notify_pane_closed q d).0 × Carries [] d (notify_pane_closed q d)
  unfolding notify_pane_closed settle_dropped_bytes
  close_lem q d other live = (
    record {
      known = ground (arith, has-remove d.known_panes q p);
      unpaused = ground arith;
      attached = ground arith;
      distinct = ground arith;
      unique = ground (arith, discard_queues-IsUnique q d.hydrating live.unique);
      settled = ground arith;
    },
    Carries-nothing d (notify_pane_closed q d) (ground arith)
        (ground (arith, queue_for-discard_queues t p q d.hydrating live.unique)),
  )

  pub fan_chunks_quiet :
      (q : String) (cs : List Bytes) (d : OutputDemux)
      → (if string_keyed.matches q p then cs else []) ≡ []
      → IsLive t p d
      → IsLive t p (fan_chunks q cs d).0 × Carries [] d (fan_chunks q cs d)
  fan_chunks_quiet q [] d none_left live = unfold fan_chunks in quiet_lem d (d, []) live refl refl
  fan_chunks_quiet q (c ∷ cs) d none_left live = fan_chunks_other q (c ∷ cs) d (ground arith) live

  flush_lem :
      (q : String) (cs : List Bytes) (d : OutputDemux)
      → (if string_keyed.matches q p then cs else []) ≡ []
      → IsLive t p d
      → IsLive t p (flush q cs d).0 × Carries [] d (flush q cs d)
  unfolding flush
  flush_lem q cs d none_left live = elim (Bool-cases (has d.known_panes q)) [
    | inr unknown ↦ rw unknown (quiet_lem d (d, []) live refl refl)
    | inl known ↦ rw known (elim (Bool-cases (has d.paused_panes q)) [
      | inl paused ↦ rw paused (quiet_lem d (d, []) live refl refl)
      | inr open_gate ↦ rw open_gate (elim (Bool-cases (length d.transports == 0)) [
        | inl alone ↦ rw alone (quiet_lem d (d, []) live refl refl)
        | inr some_client ↦ rw some_client (fan_chunks_quiet q cs d none_left live)
      ])
    ])
  ]

  pub append-eq_nil : (xs ys : List Bytes) → xs ++ ys ≡ [] → (xs ≡ []) × (ys ≡ [])
  append-eq_nil [] ys e = (refl, e)
  append-eq_nil (x ∷ xs) ys e = absurd (ground arith)

  pub microtask_lem :
      (d : OutputDemux)
      → IsLive t p d
      → IsLive t p (run_microtask d).0 × Carries [] d (run_microtask d)
  unfolding run_microtask
  microtask_lem d live = first_task d.microtasks refl
    where
      first_task :
          (tasks : List (String × List Bytes))
          → d.microtasks ≡ tasks
          → IsLive t p (run_microtask d).0 × Carries [] d (run_microtask d)
      first_task [] e = rw (e, run_microtask) (quiet_lem d (d, []) live refl refl)
      first_task ((q, cs) ∷ later) e =
          rw (e, run_microtask)
            (flush_lem q cs (record d { microtasks = later }) ahead.0
              (record {
                known = live.known;
                unpaused = live.unpaused;
                attached = live.attached;
                distinct = live.distinct;
                unique = live.unique;
                settled = ahead.1;
              }))
        where
          ahead : ((if string_keyed.matches q p then cs else []) ≡ []) × (waiting p later ≡ [])
          ahead = ground (arith, e, live.settled, append-eq_nil cs (waiting p later))
