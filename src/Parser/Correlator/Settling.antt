-- ===== src/Parser/Correlator/Settling.antt =====
-- How often a promise is settled over a history of calls.
use tmuxcc_driver.Prelude.{
  ℕ, zero, suc, ◌+◌, ◌≤◌, ◌≡◌, refl, inl, inr, Bool, true, false, not, Option, none, some, List, [],
  ◌∷◌, ◌++◌, arith, Bytes, length, ltb, ◌==◌, if◌then◌else◌, Bool-cases, Option-cases,
}
use tmuxcc_driver.Parser.Tokens.{
  Guard, ControlToken, notification, block_begin, block_end, block_error, block_body, dcs_open,
  dcs_close,
}
use tmuxcc_driver.Parser.Correlator.{
  CommandResult, CommandError, begin_while_open, number_mismatch, unexpected_number, abandoned,
  Effect, resolve, reject, write, on_notification, on_unsolicited_block, on_pending_changed,
  PendingCommand, InFlight, Options, CommandCorrelator, new_correlator, Outcome, bind_oldest,
  handle_body, collect_body, settle, cancel_loop, cancel_oldest, fire_pending_changed, new_pending,
  expect_command, send, expect_all, send_batch, reject_oldest, handle_begin, deliver, close_open,
  close_block, push, Call, expects, sends, sends_batch, cancels, pushes, call, or_unchanged, run,
}

-- How often the promise of a slot is settled by a list of effects.
abbrev pub settled : ℕ → List Effect → ℕ
settled s [] = 0
settled s (resolve k _ ∷ es) = (if k == s then 1 else 0) + settled s es
settled s (reject k _ ∷ es) = (if k == s then 1 else 0) + settled s es
settled s (_ ∷ es) = settled s es

-- How often a slot is pending and not abandoned.
abbrev pub live : ℕ → List PendingCommand → ℕ
live s [] = 0
live s (p ∷ ps) = (if p.cancelled then 0 else if p.slot == s then 1 else 0) + live s ps

-- Whether the slot is one of the first `n` promises.
abbrev pub made : ℕ → ℕ → ℕ
made s n = if ltb s n then 1 else 0

-- How often a slot stands in the queue, abandoned or not.
abbrev pub queued : ℕ → List PendingCommand → ℕ
queued s [] = 0
queued s (p ∷ ps) = (if p.slot == s then 1 else 0) + queued s ps

-- How often a slot is answered by its caller's view: resolved, or rejected as abandoned.
abbrev pub answered : ℕ → List Effect → ℕ
answered s [] = 0
answered s (resolve k _ ∷ es) = (if k == s then 1 else 0) + answered s es
answered s (reject k (abandoned _) ∷ es) = (if k == s then 1 else 0) + answered s es
answered s (_ ∷ es) = answered s es

-- How often a slot is answered by tmux: resolved, or rejected for a protocol violation.
abbrev pub taken : ℕ → List Effect → ℕ
taken s [] = 0
taken s (resolve k _ ∷ es) = (if k == s then 1 else 0) + taken s es
taken s (reject k (abandoned _) ∷ es) = taken s es
taken s (reject k _ ∷ es) = (if k == s then 1 else 0) + taken s es
taken s (_ ∷ es) = taken s es

-- What an outcome has to keep for a slot.
record Conserves (s : ℕ) (pending : List PendingCommand) (next_slot : ℕ) (o : Outcome)
    : Type 0 where
  none_lost :
      live s pending + made s o.0.next_slot ≤ settled s o.1 + live s o.0.pending + made s next_slot
  none_twice :
      answered s o.1 + live s o.0.pending + made s next_slot ≤ live s pending + made s o.0.next_slot
  taken_once :
      taken s o.1 + queued s o.0.pending + made s next_slot
      ≤ queued s pending + made s o.0.next_slot

settled-append : (s : ℕ) (es fs : List Effect) → settled s (es ++ fs) ≡ settled s es + settled s fs
settled-append s [] fs = omega arith
settled-append s (resolve k r ∷ es) fs = omega (arith, settled-append s es fs)
settled-append s (reject k e ∷ es) fs = omega (arith, settled-append s es fs)
settled-append s (write b ∷ es) fs = settled-append s es fs
settled-append s (on_notification t ∷ es) fs = settled-append s es fs
settled-append s (on_unsolicited_block ∷ es) fs = settled-append s es fs
settled-append s (on_pending_changed d a ∷ es) fs = settled-append s es fs

answered-append :
    (s : ℕ) (es fs : List Effect) → answered s (es ++ fs) ≡ answered s es + answered s fs
answered-append s [] fs = omega arith
answered-append s (resolve k r ∷ es) fs = omega (arith, answered-append s es fs)
answered-append s (reject k (abandoned w) ∷ es) fs = omega (arith, answered-append s es fs)
answered-append s (reject k (begin_while_open a b) ∷ es) fs = answered-append s es fs
answered-append s (reject k (number_mismatch a b) ∷ es) fs = answered-append s es fs
answered-append s (reject k (unexpected_number a b) ∷ es) fs = answered-append s es fs
answered-append s (write b ∷ es) fs = answered-append s es fs
answered-append s (on_notification t ∷ es) fs = answered-append s es fs
answered-append s (on_unsolicited_block ∷ es) fs = answered-append s es fs
answered-append s (on_pending_changed d a ∷ es) fs = answered-append s es fs

taken-append : (s : ℕ) (es fs : List Effect) → taken s (es ++ fs) ≡ taken s es + taken s fs
taken-append s [] fs = omega arith
taken-append s (resolve k r ∷ es) fs = omega (arith, taken-append s es fs)
taken-append s (reject k (abandoned w) ∷ es) fs = taken-append s es fs
taken-append s (reject k (begin_while_open a b) ∷ es) fs = omega (arith, taken-append s es fs)
taken-append s (reject k (number_mismatch a b) ∷ es) fs = omega (arith, taken-append s es fs)
taken-append s (reject k (unexpected_number a b) ∷ es) fs = omega (arith, taken-append s es fs)
taken-append s (write b ∷ es) fs = taken-append s es fs
taken-append s (on_notification t ∷ es) fs = taken-append s es fs
taken-append s (on_unsolicited_block ∷ es) fs = taken-append s es fs
taken-append s (on_pending_changed d a ∷ es) fs = taken-append s es fs

queued-append :
    (s : ℕ) (ps qs : List PendingCommand) → queued s (ps ++ qs) ≡ queued s ps + queued s qs
queued-append s [] qs = omega arith
queued-append s (p ∷ ps) qs = omega (arith, queued-append s ps qs)

live-append : (s : ℕ) (ps qs : List PendingCommand) → live s (ps ++ qs) ≡ live s ps + live s qs
live-append s [] qs = omega arith
live-append s (p ∷ ps) qs = omega (arith, live-append s ps qs)

cancel_loop-live :
    (s why count : ℕ) (ps : List PendingCommand)
    → (settled s (cancel_loop why count ps).1 + live s (cancel_loop why count ps).0 ≡ live s ps)
      × (answered s (cancel_loop why count ps).1 + live s (cancel_loop why count ps).0 ≡ live s ps)
      × (taken s (cancel_loop why count ps).1 ≡ 0)
      × (queued s (cancel_loop why count ps).0 ≡ queued s ps)
unfolding cancel_loop
cancel_loop-live s why count [] = omega arith
cancel_loop-live s why zero (p ∷ ps) = omega arith
cancel_loop-live s why (suc count) (p ∷ ps) =
    ground (arith, cancel_loop-live s why (suc count) ps, cancel_loop-live s why count ps)

live-bind_oldest :
    (s n : ℕ) (ps : List PendingCommand)
    → (live s (bind_oldest n ps) ≡ live s ps) × (queued s (bind_oldest n ps) ≡ queued s ps)
live-bind_oldest s n [] = (refl, refl)
live-bind_oldest s n (p ∷ ps) = (refl, refl)

module _ (opts : Options) (now : ℕ) (s : ℕ) where
  settled-fire :
      (ps : List PendingCommand)
      → (settled s (fire_pending_changed opts now ps) ≡ 0)
        × (answered s (fire_pending_changed opts now ps) ≡ 0)
        × (taken s (fire_pending_changed opts now ps) ≡ 0)
  settled-fire ps = ground arith

  expect_command-Conserves :
      (c : CommandCorrelator) → Conserves s c.pending c.next_slot (expect_command opts now c)
  unfolding expect_command
  expect_command-Conserves c = ground (
    arith,
    settled-fire (c.pending ++ new_pending opts now c.next_slot ∷ []),
    live-append s c.pending (new_pending opts now c.next_slot ∷ []),
    queued-append s c.pending (new_pending opts now c.next_slot ∷ []),
  )

  expect_all-Conserves :
      (commands : List Bytes) (c : CommandCorrelator)
      → Conserves s c.pending c.next_slot (expect_all opts now commands c)
  unfolding expect_all
  expect_all-Conserves [] c = omega arith
  expect_all-Conserves (_ ∷ commands) c =
      let first = expect_command opts now c in
      let here = expect_command-Conserves c in
      let later = expect_all-Conserves commands first.0 in
      omega (
        arith,
        settled-append s first.1 (expect_all opts now commands first.0).1,
        answered-append s first.1 (expect_all opts now commands first.0).1,
        taken-append s first.1 (expect_all opts now commands first.0).1,
      )

  cancel_oldest-Conserves :
      (count why : ℕ) (c : CommandCorrelator)
      → Conserves s c.pending c.next_slot (cancel_oldest count why c)
  unfolding cancel_oldest
  cancel_oldest-Conserves count why c = omega (arith, cancel_loop-live s why count c.pending)

  -- A rejection that is no abandonment.
  abbrev IsAnomaly : CommandError → Type 0
  IsAnomaly e =
      (k : ℕ)
      → (answered s (reject k e ∷ []) ≡ 0)
        × (taken s (reject k e ∷ []) ≡ (if k == s then 1 else 0) + 0)

  reject_oldest-Conserves :
      (e : CommandError) (c : CommandCorrelator) (ps : List PendingCommand)
      → IsAnomaly e
      → c.pending ≡ ps
      → Conserves s c.pending c.next_slot (reject_oldest opts now e c)
  unfolding reject_oldest
  reject_oldest-Conserves e c [] anomaly same = rw (same, reject_oldest) (ground arith)
  reject_oldest-Conserves e c (p ∷ ps) anomaly same = ground (
    arith,
    anomaly p.slot,
    settled-fire ps,
    settled-append s (fire_pending_changed opts now ps) (reject p.slot e ∷ []),
    answered-append s (fire_pending_changed opts now ps) (reject p.slot e ∷ []),
    taken-append s (fire_pending_changed opts now ps) (reject p.slot e ∷ []),
  )

  settle-answered :
      (p : PendingCommand) (result : CommandResult)
      → (live s (p ∷ []) ≤ settled s (settle p result))
        × (answered s (settle p result) ≤ live s (p ∷ []))
        × (taken s (settle p result) ≤ queued s (p ∷ []))
  unfolding settle
  settle-answered p result = ground arith

  deliver-Conserves :
      (result : CommandResult) (c : CommandCorrelator) (ps : List PendingCommand)
      → c.pending ≡ ps
      → Conserves s c.pending c.next_slot (deliver opts now result c)
  unfolding deliver
  deliver-Conserves result c [] same = ground arith
  deliver-Conserves result c (p ∷ ps) same = ground (
    arith,
    settle-answered p result,
    settled-fire ps,
    settled-append s (fire_pending_changed opts now ps) (settle p result),
    answered-append s (fire_pending_changed opts now ps) (settle p result),
    taken-append s (fire_pending_changed opts now ps) (settle p result),
  )

  handle_begin-Conserves :
      (g : Guard) (c : CommandCorrelator)
      → Conserves s c.pending c.next_slot (handle_begin opts now g c)
  unfolding handle_begin
  handle_begin-Conserves g c = elim (Option-cases c.in_flight) [
    | inl closed ↦ ground (arith, live-bind_oldest s g.command_number c.pending)
    | inr (block, busy) ↦
        let e = begin_while_open g.command_number block.command_number in
        let rejected = reject_oldest opts now e c in
        let kept = reject_oldest-Conserves e c c.pending (λ k. (refl, refl)) refl in
        ground (arith, live-bind_oldest s g.command_number rejected.0.pending)
  ]

  handle_body-Conserves :
      (bytes : Bytes) (c : CommandCorrelator)
      → Conserves s c.pending c.next_slot (handle_body bytes c)
  unfolding handle_body
  handle_body-Conserves bytes c = ground arith

  -- Of a call that may throw: what holds of its outcome when it does not.
  abbrev IfReturns : CommandCorrelator → Option Outcome → Type 0
  IfReturns c none = Unit
  IfReturns c (some o) = Conserves s c.pending c.next_slot o

  close_open-Conserves :
      (ok : Bool) (n : ℕ) (block : InFlight) (c : CommandCorrelator)
      → IfReturns c (close_open opts now ok n block c)
  unfolding close_open
  close_open-Conserves ok n block c =
      let closed = record c { in_flight = none } in
      elim (Bool-cases (not (block.command_number == n))) [
        | inl other ↦ rw other (
            reject_oldest-Conserves (number_mismatch block.command_number n) closed c.pending
              (λ k. (refl, refl)) refl)
        | inr same ↦ elim (Option-cases (collect_body block)) [
          | inl over ↦ rw (same, over, close_open) tt
          | inr (body, found) ↦ elim (Bool-cases block.is_startup_block) [
            | inl startup ↦ rw (same, found, close_open, startup) (ground arith)
            | inr reply ↦
                rw (same, found, close_open, reply)
                  (deliver-Conserves (record { ok = ok; command_number = n; body = body }) closed
                    c.pending refl)
          ]
        ]
      ]

  close_block-Conserves :
      (ok : Bool) (n : ℕ) (c : CommandCorrelator) → IfReturns c (close_block opts now ok n c)
  unfolding close_block
  close_block-Conserves ok n c = elim (Option-cases c.in_flight) [
    | inl closed ↦ rw (closed, close_block) (ground arith)
    | inr (block, busy) ↦ rw (busy, close_block) (close_open-Conserves ok n block c)
  ]

  push-Conserves :
      (token : ControlToken) (c : CommandCorrelator) → IfReturns c (push opts now token c)
  unfolding push
  push-Conserves (block_begin g) c = handle_begin-Conserves g c
  push-Conserves (block_body bytes) c = handle_body-Conserves bytes c
  push-Conserves (block_end g) c = close_block-Conserves true g.command_number c
  push-Conserves (block_error g) c = close_block-Conserves false g.command_number c
  push-Conserves (notification token) c = ground arith
  push-Conserves dcs_open c = ground arith
  push-Conserves dcs_close c = ground arith

  written-Conserves :
      (bytes : Bytes) {ps : List PendingCommand} {n : ℕ} (o : Outcome)
      → Conserves s ps n o
      → Conserves s ps n (o.0, o.1 ++ write bytes ∷ [])
  written-Conserves bytes o kept = omega (
    arith,
    settled-append s o.1 (write bytes ∷ []),
    answered-append s o.1 (write bytes ∷ []),
    taken-append s o.1 (write bytes ∷ []),
  )

  call-Conserves : (k : Call) (c : CommandCorrelator) → IfReturns c (call opts now k c)
  unfolding call send send_batch
  call-Conserves expects c = expect_command-Conserves c
  call-Conserves (sends command) c = elim (Bool-cases (not opts.writes)) [
    | inl silent ↦ rw silent tt
    | inr able ↦
        rw able (written-Conserves _ (expect_command opts now c) (expect_command-Conserves c))
  ]
  call-Conserves (sends_batch commands) c = elim (Bool-cases (not opts.writes)) [
    | inl silent ↦ rw silent tt
    | inr able ↦ elim (Bool-cases (length commands == 0)) [
      | inl nothing ↦ rw (able, nothing) (ground arith)
      | inr several ↦
          rw (able, several)
            (written-Conserves _ (expect_all opts now commands c) (expect_all-Conserves commands c))
    ]
  ]
  call-Conserves (cancels count why) c = cancel_oldest-Conserves count why c
  call-Conserves (pushes token) c = push-Conserves token c

  or_unchanged-Conserves :
      (c : CommandCorrelator) (o : Option Outcome)
      → IfReturns c o
      → Conserves s c.pending c.next_slot (or_unchanged c o)
  or_unchanged-Conserves c none h = ground arith
  or_unchanged-Conserves c (some o) h = h

run-Conserves :
    (opts : Options) (s : ℕ) (ks : List (ℕ × Call)) (c : CommandCorrelator)
    → Conserves s c.pending c.next_slot (run opts ks c)
unfolding run
run-Conserves opts s [] c = omega arith
run-Conserves opts s ((now, k) ∷ ks) c =
    let first = or_unchanged c (call opts now k c) in
    let here = or_unchanged-Conserves opts now s c _ (call-Conserves opts now s k c) in
    let later = run-Conserves opts s ks first.0 in
    omega (
      arith,
      settled-append s first.1 (run opts ks first.0).1,
      answered-append s first.1 (run opts ks first.0).1,
      taken-append s first.1 (run opts ks first.0).1,
    )

-- After any history of calls on a new correlator, whatever the tokens, of every promise: when it was
-- made, it is still pending or has been settled. It is resolved or rejected as abandoned at most once
-- in all, and not while it is pending. It is resolved or rejected for a protocol violation at most
-- once in all, and not while its command stands in the queue, abandoned or not. None of this happens
-- to a promise that was not made. So only an abandoned promise can be settled again, by the rejection
-- of a protocol violation.
pub run-new_correlator-answered :
    (opts : Options) (ks : List (ℕ × Call)) (s : ℕ)
    → let o = run opts ks new_correlator in
      (made s o.0.next_slot ≤ settled s o.1 + live s o.0.pending)
      × (answered s o.1 + live s o.0.pending ≤ made s o.0.next_slot)
      × (taken s o.1 + queued s o.0.pending ≤ made s o.0.next_slot)
run-new_correlator-answered opts ks s =
    let kept = run-Conserves opts s ks new_correlator in
    let fresh : made s 0 ≡ 0 = ground arith in omega arith
