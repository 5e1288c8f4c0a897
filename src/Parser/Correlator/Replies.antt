-- ===== src/Parser/Correlator/Replies.antt =====
-- What a whole reply block does.
use tmuxcc_driver.Prelude.{
  ℕ, ◌+◌, ◌≡◌, ◌≢◌, refl, sym, ap, ◌∙◌, inl, inr, Bool, true, false, not, none, some, List, [], ◌∷◌,
  ◌++◌, append-nil, append_assoc, arith, Bytes, length, concat, length-append, ◌==◌, if◌then◌else◌,
  Bool-cases,
}
use tmuxcc_driver.Parser.Tokens.{
  Guard, ControlToken, block_begin, block_end, block_error, block_body,
}
use tmuxcc_driver.Parser.Correlator.{
  CommandResult, Effect, resolve, on_unsolicited_block, PendingCommand, InFlight, Options,
  CommandCorrelator, observed, bind_oldest, handle_body, settle, fire_pending_changed, handle_begin,
  deliver, close_open, close_block, push, Call, pushes, call, or_unchanged, run,
}
use tmuxcc_driver.Parser.Correlator.Body.{join_lines, collect_body_lem}

-- Tokens that arrive one behind the other, at one time.
abbrev pub at : ℕ → List ControlToken → List (ℕ × Call)
at now [] = []
at now (token ∷ tokens) = (now, pushes token) ∷ at now tokens

abbrev pub bodies : List Bytes → List ControlToken → List ControlToken
bodies [] rest = rest
bodies (bytes ∷ lines) rest = block_body bytes ∷ bodies lines rest

abbrev pub close : Bool → Guard → ControlToken
close true g = block_end g
close false g = block_error g

-- A block as tmux writes it: the closing line repeats the numbers of the opening one.
abbrev pub reply : Bool → Guard → List Bytes → List ControlToken
reply ok g lines = block_begin g ∷ bodies lines (close ok g ∷ [])

abbrev pub result_of : Bool → Guard → List Bytes → CommandResult
result_of ok g lines = record {
  ok = ok;
  command_number = g.command_number;
  body = join_lines lines;
}

-- The oldest slot takes the reply: it is resolved, unless it was abandoned.
abbrev pub answer : PendingCommand → CommandResult → List Effect
answer p result = if p.cancelled then [] else resolve p.slot result ∷ []

module _ (opts : Options) (now : ℕ) where
  -- What a reply has to do to the commands pending, and to the outside.
  abbrev pub replied : CommandResult → List PendingCommand → List PendingCommand × List Effect
  replied result [] = ([], observed opts.observes_unsolicited on_unsolicited_block)
  replied result (p ∷ ps) = (ps, fire_pending_changed opts now ps ++ answer p result)

  abbrev with_lines : InFlight → List Bytes → InFlight
  with_lines block lines = record block {
    body_chunks = block.body_chunks ++ lines;
    body_len = block.body_len + length (concat lines);
  }

  -- The object while it reads a block.
  abbrev reading : CommandCorrelator → InFlight → CommandCorrelator
  reading c block = record c { in_flight = some block }

  with_no_lines : (block : InFlight) → block ≡ with_lines block []
  with_no_lines block = λ i. record block {
    body_chunks = sym (append-nil block.body_chunks) i;
    body_len = (let e : block.body_len ≡ block.body_len + 0 = omega arith in e) i;
  }

  with_line : InFlight → Bytes → InFlight
  with_line block bytes = record block {
    body_chunks = block.body_chunks ++ bytes ∷ [];
    body_len = block.body_len + length bytes;
  }

  with_more_lines :
      (block : InFlight) (bytes : Bytes) (lines : List Bytes)
      → with_lines (with_line block bytes) lines ≡ with_lines block (bytes ∷ lines)
  unfolding with_line
  with_more_lines block bytes lines = λ i. record block {
    body_chunks = append_assoc block.body_chunks (bytes ∷ []) lines i;
    body_len =
        (let e : block.body_len + length bytes + length (concat lines)
                ≡ block.body_len + length (bytes ++ concat lines) =
              omega (arith, length-append bytes (concat lines)) in
            e)
          i;
  }

  run-bodies :
      (lines : List Bytes) (rest : List ControlToken) (c : CommandCorrelator) (block : InFlight)
      → run opts (at now (bodies lines rest)) (reading c block)
        ≡ run opts (at now rest) (reading c (with_lines block lines))
  unfolding run call push handle_body with_line
  run-bodies [] rest c block = ap (λ b. run opts (at now rest) (reading c b)) (with_no_lines block)
  run-bodies (bytes ∷ lines) rest c block =
      run-bodies lines rest c (with_line block bytes)
      ∙ ap (λ b. run opts (at now rest) (reading c b)) (with_more_lines block bytes lines)

  abbrev opened : Guard → InFlight
  opened g = record {
    command_number = g.command_number;
    body_chunks = [];
    body_len = 0;
    is_startup_block = g.flags == 0;
  }

  close_open-read :
      (ok : Bool) (g : Guard) (lines : List Bytes) (c : CommandCorrelator)
      → close_open opts now ok g.command_number (with_lines (opened g) lines) c ≡ (
          if g.flags == 0
          then some (record c { in_flight = none }, [])
          else some (deliver opts now (result_of ok g lines) (record c { in_flight = none })))
  unfolding close_open
  close_open-read ok g lines c =
      let same : not (g.command_number == g.command_number) ≡ false = ground arith in
      rw (same, collect_body_lem (with_lines (opened g) lines) (omega arith), close_open) refl

  run-closing :
      (ok : Bool) (g : Guard) (c : CommandCorrelator) (block : InFlight)
      → run opts (at now (close ok g ∷ [])) (reading c block) ≡ (
          let o =
            or_unchanged
              (reading c block)
              (close_open opts now ok g.command_number block (reading c block)) in
          (o.0, o.1 ++ []))
  unfolding run call push close_block
  run-closing true g c block = refl
  run-closing false g c block = refl

  abbrev bound : Guard → CommandCorrelator → CommandCorrelator
  bound g c = record c {
    pending = if g.flags == 0 then c.pending else bind_oldest g.command_number c.pending;
  }

  run-reply :
      (ok : Bool) (g : Guard) (lines : List Bytes) (c : CommandCorrelator)
      → c.in_flight ≡ none
      → run opts (at now (reply ok g lines)) c ≡ (
          let closed = record (bound g c) { in_flight = none } in
          let o =
            if g.flags == 0 then (closed, []) else deliver opts now (result_of ok g lines) closed in
          (o.0, o.1 ++ []))
  unfolding run call push handle_begin
  run-reply ok g lines c idle =
      let first : handle_begin opts now g c ≡ (reading (bound g c) (opened g), []) =
        rw (idle, handle_begin) refl in
      rw (first, run, run-bodies lines (close ok g ∷ []) (bound g c) (opened g))
        (rw (run-closing ok g (bound g c) (with_lines (opened g) lines)) (
          rw (close_open-read ok g lines (reading (bound g c) (with_lines (opened g) lines)))
            (elim (Bool-cases (g.flags == 0)) [ inl e ↦ rw e refl | inr e ↦ rw e refl ])))

  deliver-bound :
      (g : Guard) (result : CommandResult) (c : CommandCorrelator) (ps : List PendingCommand)
      → result.command_number ≡ g.command_number
      → let o =
          deliver opts now result
            (record c { pending = bind_oldest g.command_number ps; in_flight = none }) in
        (o.0.in_flight ≡ none)
        × (o.0.next_slot ≡ c.next_slot)
        × (o.0.pending ≡ (replied result ps).0)
        × (o.1 ≡ (replied result ps).1)
  unfolding deliver settle
  deliver-bound g result c [] same = (refl, refl, refl, refl)
  deliver-bound g result c (p ∷ ps) same =
      (refl, refl, refl, ap (◌++◌ (fire_pending_changed opts now ps)) (ground arith))

  -- A reply that arrives between two blocks goes to the oldest pending command and to no other:
  -- that slot leaves the queue, and its promise is resolved with the block's number, its success
  -- or failure, and its lines joined by newlines, unless the slot was abandoned, when nothing is
  -- settled; with no command pending the unsolicited-block observer is called.
  pub run-reply_pending :
      (ok : Bool) (g : Guard) (lines : List Bytes) (c : CommandCorrelator)
      → c.in_flight ≡ none
      → g.flags ≢ 0
      → let o = run opts (at now (reply ok g lines)) c in
        (o.0.in_flight ≡ none)
        × (o.0.next_slot ≡ c.next_slot)
        × (o.0.pending ≡ (replied (result_of ok g lines) c.pending).0)
        × (o.1 ≡ (replied (result_of ok g lines) c.pending).1)
  run-reply_pending ok g lines c idle user =
      let other : (g.flags == 0) ≡ false = ground arith in
      let (free, next, queue, effects) = deliver-bound g (result_of ok g lines) c c.pending refl in
      rw (run-reply ok g lines c idle, other) (free, next, queue, append-nil _ ∙ effects)

  -- The startup block, the one with flags 0, binds no command and has no effect.
  pub run-reply_startup :
      (ok : Bool) (g : Guard) (lines : List Bytes) (c : CommandCorrelator)
      → c.in_flight ≡ none
      → g.flags ≡ 0
      → run opts (at now (reply ok g lines)) c ≡ (c, [])
  run-reply_startup ok g lines c idle startup =
      let same : (g.flags == 0) ≡ true = ground arith in
      rw (run-reply ok g lines c idle, same) (λ i. (record c { in_flight = sym idle i }, []))
