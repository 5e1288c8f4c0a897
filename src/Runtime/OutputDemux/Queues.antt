-- ===== src/Runtime/OutputDemux/Queues.antt =====
-- What one transport gets of one pane: the chunks sent, and those queued while it hydrates.
use Prim.Native.String.{String}
use tmuxcc_driver.Prelude.{
  ℕ, ◌≡◌, inl, inr, refl, ap, ◌∙◌, Bool, true, false, ◌&&◌, Option, none, some, List, [], ◌∷◌, ◌++◌,
  append-nil, arith, Bytes, ◌==◌, if◌then◌else◌, length, Bool-cases, ==_iff,
}
use tmuxcc_driver.Prelude.Keyed.{string_keyed, nat_keyed, matches_refl}
use tmuxcc_driver.Prelude.Dict.{Dict, get, set, delete, has, get-set, get-delete}
use tmuxcc_driver.Prelude.Keys.{IsUnique, IsDistinct}
use tmuxcc_driver.Runtime.OutputDemux.{
  Queues, Effect, send_data, queue_for, set_queue, queue_or_send, close_queue,
  on_pretopology_dropped, warn_overflow, or_empty, fan_one, fan_loop, sends, open_queue,
  flush_queue, discard_queues,
}

abbrev same_text : String → String → Bool
same_text = string_keyed.matches

-- The chunks of a pane that go to a transport.
abbrev pub sent : ℕ → String → List Effect → List Bytes
sent t p [] = []
sent t p (send_data t' p' b ∷ es) =
    if (t' == t) && string_keyed.matches p' p then b ∷ sent t p es else sent t p es
sent t p (on_pretopology_dropped n why ∷ es) = sent t p es
sent t p (warn_overflow p' current n ∷ es) = sent t p es

module _ (t : ℕ) (p : String) where
  pub sent-append : (es fs : List Effect) → sent t p (es ++ fs) ≡ sent t p es ++ sent t p fs
  sent-append [] fs = refl
  sent-append (send_data t' p' b ∷ es) fs = ground (arith, sent-append es fs)
  sent-append (on_pretopology_dropped n why ∷ es) fs = sent-append es fs
  sent-append (warn_overflow p' current n ∷ es) fs = sent-append es fs

  queue_for-set_queue :
      (t' : ℕ) (q : String) (h : Dict ℕ Queues) (queue : List Bytes)
      → queue_for (set_queue h t' q queue) t p
        ≡ (if (t' == t) && string_keyed.matches q p then some queue else queue_for h t p)
  unfolding queue_for
  queue_for-set_queue t' q h queue = ground (
    arith,
    get-set h t' t (set (or_empty (get h t')) q queue),
    get-set (or_empty (get h t')) q p queue,
  )

  -- One transport of the loop, for another transport or another pane.
  queue_or_send_other :
      (q : String) (b : Bytes) (t' : ℕ) (h : Dict ℕ Queues) (o : Option (List Bytes))
      → ((t' == t) && string_keyed.matches q p) ≡ false
      → (queue_for (queue_or_send q b t' h o).0 t p ≡ queue_for h t p)
        × (sent t p (queue_or_send q b t' h o).1 ≡ [])
  unfolding queue_or_send
  queue_or_send_other q b t' h none other = (refl, rw other refl)
  queue_or_send_other q b t' h (some queue) other =
      (rw (queue_for-set_queue t' q h (queue ++ b ∷ []), other) refl, refl)

  -- The transport itself, for the pane: on the wire, or behind what is queued.
  queue_or_send_self :
      (b : Bytes) (h : Dict ℕ Queues) (o : Option (List Bytes))
      → queue_for h t p ≡ o
      → sent t p (queue_or_send p b t h o).1 ++ or_empty (queue_for (queue_or_send p b t h o).0 t p)
        ≡ or_empty o ++ b ∷ []
  unfolding queue_or_send
  queue_or_send_self b h none e = rw (matches_refl t, matches_refl p, e) refl
  queue_or_send_self b h (some queue) e =
      rw (queue_for-set_queue t p h (queue ++ b ∷ []), matches_refl t, matches_refl p) refl

  -- The loop over all transports.
  pub fan_loop_absent :
      (q : String) (b : Bytes) (ts : List ℕ) (h : Dict ℕ Queues)
      → (string_keyed.matches q p && has ts t) ≡ false
      → (queue_for (fan_loop q b ts h).0 t p ≡ queue_for h t p)
        × (sent t p (fan_loop q b ts h).1 ≡ [])
  unfolding fan_loop fan_one has
  fan_loop_absent q b [] h other = (refl, refl)
  fan_loop_absent q b (t' ∷ ts) h other =
      let first = fan_one q b t' h in
      let (kept, quiet) = queue_or_send_other q b t' h (queue_for h t' q) (ground arith) in
      let (kept', quiet') = fan_loop_absent q b ts first.0 (ground arith) in
      (kept' ∙ kept, rw (sent-append first.1 (fan_loop q b ts first.0).1, quiet, quiet') refl)

  pub fan_loop_present :
      (b : Bytes) (ts : List ℕ) (h : Dict ℕ Queues)
      → IsDistinct ts
      → has ts t ≡ true
      → sent t p (fan_loop p b ts h).1 ++ or_empty (queue_for (fan_loop p b ts h).0 t p)
        ≡ or_empty (queue_for h t p) ++ b ∷ []
  unfolding fan_loop fan_one has
  fan_loop_present b [] h distinct present = absurd (ground arith)
  fan_loop_present b (t' ∷ ts) h (new, distinct) present =
      let first = fan_one p b t' h in
      let rest = fan_loop p b ts first.0 in
      elim (Bool-cases (t' == t)) [
        | inl self ↦
            let same : t' ≡ t = (==_iff t' t).0 self in
            let (kept, quiet) = fan_loop_absent p b ts first.0 (ground (arith, ap (has ts) same)) in
            rw (sent-append first.1 rest.1, quiet, append-nil, kept)
              (rw same (queue_or_send_self b h (queue_for h t p) refl))
        | inr other ↦
            let (kept, quiet) = queue_or_send_other p b t' h (queue_for h t' p) (ground arith) in
            rw (sent-append first.1 rest.1, quiet)
              (fan_loop_present b ts first.0 distinct (ground arith)
                ∙ ap (λ o. or_empty o ++ b ∷ []) kept)
      ]

  sent-sends_self : (cs : List Bytes) → sent t p (sends t p cs) ≡ cs
  unfolding sends
  sent-sends_self [] = refl
  sent-sends_self (c ∷ cs) = rw (matches_refl t, matches_refl p, sent-sends_self cs) refl

  sent-sends_other :
      (t' : ℕ) (q : String) (cs : List Bytes)
      → ((t' == t) && string_keyed.matches q p) ≡ false
      → sent t p (sends t' q cs) ≡ []
  unfolding sends
  sent-sends_other t' q [] other = refl
  sent-sends_other t' q (c ∷ cs) other = rw (other, sent-sends_other t' q cs other) refl

  length-nil : {A : Type 0} (xs : List A) → (length xs == 0) ≡ true → xs ≡ []
  length-nil [] h = refl
  length-nil (x ∷ xs) h = ground arith

  queue_for-close_queue :
      (t' : ℕ) (q : String) (h : Dict ℕ Queues)
      → queue_for (close_queue t' q h) t p
        ≡ (if (t' == t) && string_keyed.matches q p then none else queue_for h t p)
  unfolding queue_for
  queue_for-close_queue t' q h =
      let left = delete (or_empty (get h t')) q in
      let found = get-delete (or_empty (get h t')) q p in
      elim (Bool-cases (length left == 0)) [
        | inl none_left ↦
            rw none_left
              (ground (arith, get-delete h t' t, found, length-nil left none_left, ==_iff t' t))
        | inr some_left ↦ rw some_left (ground (arith, get-set h t' t left, found, ==_iff t' t))
      ]

  pub queue_for-delete :
      (t' : ℕ) (h : Dict ℕ Queues)
      → queue_for (delete h t') t p ≡ (if t' == t then none else queue_for h t p)
  unfolding queue_for get
  queue_for-delete t' h = ground (arith, get-delete h t' t)

  pub flush_queue_lem :
      (t' : ℕ) (q : String) (h : Dict ℕ Queues) (o : Option (List Bytes))
      → queue_for h t' q ≡ o
      → sent t p (flush_queue t' q h o).1 ++ or_empty (queue_for (flush_queue t' q h o).0 t p)
        ≡ or_empty (queue_for h t p)
  unfolding flush_queue
  flush_queue_lem t' q h none e = refl
  flush_queue_lem t' q h (some queue) e =
      rw (queue_for-close_queue t' q h) (elim (Bool-cases ((t' == t) && string_keyed.matches q p)) [
        | inl self ↦
            let here : t' ≡ t = (==_iff t' t).0 (ground arith) in
            let pane : q ≡ p = (string_keyed.matches_iff q p).0 (ground arith) in
            let there : queue_for h t p ≡ some queue = rw (← here, ← pane) e in
            rw (self, there) (rw (here, pane) (rw (sent-sends_self queue, append-nil) refl))
        | inr other ↦ rw (other, sent-sends_other t' q queue other) refl
      ])

  pub open_queue_lem :
      (t' : ℕ) (q : String) (h : Dict ℕ Queues) (o : Option (List Bytes))
      → queue_for h t' q ≡ o
      → or_empty (queue_for (open_queue t' q h o) t p) ≡ or_empty (queue_for h t p)
  unfolding open_queue
  open_queue_lem t' q h none e =
      ground (arith, queue_for-set_queue t' q h [], ==_iff t' t, string_keyed.matches_iff q p)
  open_queue_lem t' q h (some queue) e = refl

discard_queues-absent :
    (q : String) (h : Dict ℕ Queues) (t : ℕ) → get h t ≡ none → get (discard_queues q h) t ≡ none
unfolding discard_queues get
discard_queues-absent q [] t e = refl
discard_queues-absent q ((t', queues) ∷ h) t e = ground (arith, discard_queues-absent q h t)

pub discard_queues-IsUnique :
    (q : String) (h : Dict ℕ Queues) → IsUnique h → IsUnique (discard_queues q h)
unfolding discard_queues
discard_queues-IsUnique q [] u = tt
discard_queues-IsUnique q ((t', queues) ∷ h) (new, u) =
    ground (arith, discard_queues-absent q h t' new, discard_queues-IsUnique q h u)

-- Closing another pane leaves the queues of this one.
pub queue_for-discard_queues :
    (t : ℕ) (p q : String) (h : Dict ℕ Queues)
    → IsUnique h
    → queue_for (discard_queues q h) t p
      ≡ (if string_keyed.matches q p then none else queue_for h t p)
unfolding discard_queues queue_for get
queue_for-discard_queues t p q [] u = ground arith
queue_for-discard_queues t p q ((t', queues) ∷ h) (new, u) = ground (
  arith,
  queue_for-discard_queues t p q h u,
  get-delete queues q p,
  ==_iff t' t,
  string_keyed.matches_iff q p,
  discard_queues-absent q h t' new,
  nothing_left (delete queues q),
)
  where
    nothing_left : (m : Queues) → (length m == 0) ≡ true → get m p ≡ none
    nothing_left [] e = refl
    nothing_left (x ∷ m) e = ground arith
