-- ===== src/Runtime/OutputDemux/Staging.antt =====
-- A pane that the topology does not know yet: its bytes are staged or counted, and none is sent.
use Prim.Native.String.{String}
use tmuxcc_driver.Prelude.{
  ℕ, ◌+◌, ◌≤◌, ◌≡◌, refl, ap, ◌∙◌, Bool, true, false, not, List, [], ◌∷◌, ◌++◌, append-nil, arith,
  Bytes, ltb, ◌==◌, length, concat, length-append, Bool-cases, inl, inr,
}
use tmuxcc_driver.Prelude.Keyed.{string_keyed, nat_keyed, matches_refl}
use tmuxcc_driver.Prelude.Dict.{get, has, get-set, get-set_self}
use tmuxcc_driver.Prelude.Keys.{IsUnique}
use tmuxcc_driver.Runtime.OutputDemux.{
  max_pending_bytes_per_pane, OutputDemux, Outcome, or_empty, or_zero, Call, appends, binds, closes,
  queue_for, fan_out, stage, deliver, tap,
}
use tmuxcc_driver.Runtime.OutputDemux.Queues.{sent, sent-append, fan_loop_absent}
use tmuxcc_driver.Runtime.OutputDemux.Carried.{chunk_of, fan_loop-IsUnique}

abbrev pub staged : String → OutputDemux → List Bytes
staged p d = or_empty (get d.pending_fanout p)

abbrev pub dropped : String → OutputDemux → ℕ
dropped p d = or_zero (get d.pending_dropped_bytes p)

-- A pane that is not known, with the counter of its staged bytes right and within the limit.
pub record IsHidden (t : ℕ) (p : String) (d : OutputDemux) : Type 0 where
  pub unknown : has d.known_panes p ≡ false
  pub unqueued : or_empty (queue_for d.hydrating t p) ≡ []
  pub unique : IsUnique d.hydrating
  pub counted : or_zero (get d.pending_fanout_bytes p) ≡ length (concat (staged p d))
  pub bounded : or_zero (get d.pending_fanout_bytes p) ≤ max_pending_bytes_per_pane

-- The calls that do not bind or close the pane.
abbrev pub hides : String → Call → Bool
hides p (binds q) = not (string_keyed.matches q p)
hides p (closes q) = not (string_keyed.matches q p)
hides p _ = true

module _ (t : ℕ) (p : String) where
  -- Nothing is sent, and the bytes that came are staged or counted as dropped.
  abbrev pub Hides : ℕ → OutputDemux → Outcome → Type 0
  Hides n d r =
      IsHidden t p r.0
      × (sent t p r.1 ≡ [])
      × (or_zero (get r.0.pending_fanout_bytes p) + dropped p r.0
          ≡ or_zero (get d.pending_fanout_bytes p) + dropped p d + n)

  concat-snoc :
      (cs : List Bytes) (b : Bytes) → length (concat (cs ++ b ∷ [])) ≡ length (concat cs) + length b
  concat-snoc [] b = omega (arith, length-append b [])
  concat-snoc (c ∷ cs) b = omega (
    arith,
    concat-snoc cs b,
    length-append c (concat cs),
    length-append c (concat (cs ++ b ∷ [])),
  )

  -- One lemma for each kind of call: it sends nothing, and leaves the pane's entries.
  pub still_hidden :
      (d : OutputDemux) (r : Outcome)
      → has r.0.known_panes p ≡ false
      → or_empty (queue_for r.0.hydrating t p) ≡ []
      → IsUnique r.0.hydrating
      → get r.0.pending_fanout p ≡ get d.pending_fanout p
      → get r.0.pending_fanout_bytes p ≡ get d.pending_fanout_bytes p
      → get r.0.pending_dropped_bytes p ≡ get d.pending_dropped_bytes p
      → sent t p r.1 ≡ []
      → IsHidden t p d
      → Hides 0 d r
  still_hidden d r unknown unqueued unique chunks bytes counts quiet hidden = (
    record {
      unknown = unknown;
      unqueued = unqueued;
      unique = unique;
      counted = rw (bytes, chunks) hidden.counted;
      bounded = rw bytes hidden.bounded;
    },
    quiet,
    rw (bytes, counts) (omega arith),
  )

  stage_self : (b : Bytes) (d : OutputDemux) → IsHidden t p d → Hides (length b) d (stage p b d)
  unfolding stage
  stage_self b d hidden =
      let current = or_zero (get d.pending_fanout_bytes p) in
      let limit = max_pending_bytes_per_pane in
      elim (Bool-cases (ltb limit (current + length b))) [
        | inl full ↦ rw full (
          record {
            unknown = hidden.unknown;
            unqueued = hidden.unqueued;
            unique = hidden.unique;
            counted = hidden.counted;
            bounded = hidden.bounded;
          },
          ground arith,
          rw (get-set_self d.pending_dropped_bytes p (dropped p d + length b)) (omega arith),
        )
        | inr room ↦ rw room (
          record {
            unknown = hidden.unknown;
            unqueued = hidden.unqueued;
            unique = hidden.unique;
            counted =
                rw
                  (
                    get-set_self d.pending_fanout_bytes p (current + length b),
                    get-set_self d.pending_fanout p (staged p d ++ b ∷ []),
                  )
                  (omega (arith, concat-snoc (staged p d) b, hidden.counted));
            bounded =
                rw (get-set_self d.pending_fanout_bytes p (current + length b))
                  (fits current limit b room);
          },
          refl,
          rw (get-set_self d.pending_fanout_bytes p (current + length b)) (omega arith),
        )
      ]
    where
      fits : (m limit : ℕ) (c : Bytes) → ltb limit (m + length c) ≡ false → m + length c ≤ limit
      fits m limit c room = ground arith

  stage_other :
      (q : String) (b : Bytes) (d : OutputDemux)
      → string_keyed.matches q p ≡ false
      → IsHidden t p d
      → Hides 0 d (stage q b d)
  unfolding stage
  stage_other q b d other hidden =
      still_hidden d (stage q b d) (ground arith) (ground arith) (ground arith)
        (ground (arith, get-set d.pending_fanout q p (staged q d ++ b ∷ [])))
        (ground (
          arith,
          get-set d.pending_fanout_bytes q p (or_zero (get d.pending_fanout_bytes q) + length b),
        ))
        (ground (arith, get-set d.pending_dropped_bytes q p (dropped q d + length b)))
        (ground arith) hidden

  -- Bytes of another pane on their way to the clients.
  pub fan_out_other :
      (q : String) (b : Bytes) (d : OutputDemux)
      → string_keyed.matches q p ≡ false
      → IsHidden t p d
      → Hides 0 d (fan_out q b d)
  unfolding fan_out
  fan_out_other q b d other hidden =
      let (kept, quiet) =
        fan_loop_absent t p q b d.transports d.hydrating (ground (arith, other)) in
      still_hidden d (fan_out q b d) hidden.unknown (ap or_empty kept ∙ hidden.unqueued)
        (fan_loop-IsUnique t p q b d.transports d.hydrating hidden.unique) refl refl refl quiet
        hidden

  pub idle : (d : OutputDemux) → IsHidden t p d → Hides 0 d (d, [])
  idle d hidden = (hidden, refl, omega arith)

  pub tap_hidden :
      (q : String) (b : Bytes) (d : OutputDemux)
      → IsHidden t p d
      → Hides (length (concat (chunk_of p (appends q b)))) d (tap q b d)
  unfolding tap deliver
  tap_hidden q b d hidden = elim (Bool-cases (string_keyed.matches q p)) [
    | inl same ↦
        let e : q ≡ p = (string_keyed.matches_iff q p).0 same in
        rw e (
          rw (matches_refl p, hidden.unknown)
            (elim (Bool-cases (length b == 0)) [
              | inl empty ↦ rw empty (idle d hidden)
              | inr full ↦ rw full (rw append-nil (stage_self b d hidden))
            ]))
    | inr other ↦ rw other (elim (Bool-cases (length b == 0)) [
      | inl empty ↦ rw empty (idle d hidden)
      | inr full ↦ rw full (elim (Bool-cases (has d.known_panes q)) [
        | inr unknown ↦ rw unknown (stage_other q b d other hidden)
        | inl known ↦ rw known (elim (Bool-cases (has d.paused_panes q)) [
          | inl paused ↦ rw paused (idle d hidden)
          | inr open_gate ↦ rw open_gate (elim (Bool-cases (length d.transports == 0)) [
            | inl alone ↦ rw alone (idle d hidden)
            | inr clients ↦ rw clients (fan_out_other q b d other hidden)
          ])
        ])
      ])
    ])
  ]

  pub Hides-then :
      (m n : ℕ) (d : OutputDemux) (r s : Outcome)
      → Hides m d r
      → Hides n r.0 s
      → Hides (m + n) d (s.0, r.1 ++ s.1)
  Hides-then m n d r s (_, quiet, sum) (hidden, quiet', sum') =
      (hidden, rw (sent-append t p r.1 s.1, quiet, quiet') refl, omega arith)
