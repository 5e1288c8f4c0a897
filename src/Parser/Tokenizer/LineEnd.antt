-- ===== src/Parser/Tokenizer/LineEnd.antt =====
-- The rounds that scan a line and that follow an escape against the machine that reads byte by byte.
use mathlib.Core.Path.{subst}
use tmuxcc_driver.Prelude.{
  ℕ, suc, ◌*◌, ◌≤◌, ◌≡◌, refl, sym, ap, ◌∙◌, inl, inr, true, false, ◌&&◌, Option, none, some, List,
  [], ◌∷◌, ◌++◌, arith, Bytes, length, concat, ltb, ◌==◌, Bool-cases,
}
use tmuxcc_driver.Prelude.Buffers.{◌>>=◌}
use tmuxcc_driver.Parser.Tokens.{ControlToken, dcs_close}
use tmuxcc_driver.Parser.Tokenizer.{
  lf, esc, backslash, inside_dcs, maybe_st, after_dcs, BlockState, is_outside, ControlTokenizer,
  append_to_line, flush_line, scan, process_stop, process_inside, process_maybe_st,
}
use tmuxcc_driver.Parser.Tokenizer.Machine.{reading, escaped, machine, feed_line, feed_mode, run}
use tmuxcc_driver.Parser.Tokenizer.View.{
  StepIs, append_to_line-Appended, FlushIs, flush_line-FlushIs, StepIs-le, StepIs-run,
}
use tmuxcc_driver.Parser.Tokenizer.Scan.{scan-run, Stops, scan-Stops, length-scan}

-- The round of a line feed, from what the flush yields.
end_line-StepIs :
    (t : ControlTokenizer) (rest : Bytes) (o : Option (ControlTokenizer × List ControlToken))
    → t.dcs_state ≡ inside_dcs
    → FlushIs t o
    → StepIs
        (machine reading (concat t.line_buf) t.block_state)
        (lf ∷ rest)
        (2 * suc (length rest))
        (do flushed ← o; some (flushed.0, flushed.1, rest))
unfolding run feed_mode feed_line
end_line-StepIs t rest none s h = h
end_line-StepIs t rest (some (t', tokens)) s (emits, block, buf, len, state, _) =
    let inside : t'.dcs_state ≡ inside_dcs = state ∙ s in
    rw (emits, block, buf, inside) (refl, record { counted = len; partial = tt }, omega arith)

feed_line-esc :
    (block : BlockState) (line : Bytes) (b : ℕ)
    → (b == lf) ≡ false
    → (is_outside block && (b == esc)) ≡ true
    → feed_line block line b ≡ (machine escaped line block, [])
unfolding feed_line
feed_line-esc block line b other escapes = rw (other, escapes) refl

escape-StepIs :
    (t : ControlTokenizer) (b : ℕ) (rest : Bytes)
    → t.line_buf_len ≡ length (concat t.line_buf)
    → (b == lf) ≡ false
    → (is_outside t.block_state && (b == esc)) ≡ true
    → StepIs
        (machine reading (concat t.line_buf) t.block_state)
        (b ∷ rest)
        (2 * suc (length rest))
        (some (record t { dcs_state = maybe_st }, [], rest))
unfolding run feed_mode
escape-StepIs t b rest h other escapes = (
  rw (feed_line-esc t.block_state (concat t.line_buf) b other escapes) refl,
  record { counted = h; partial = tt },
  omega arith,
)

stop_none-StepIs :
    (t : ControlTokenizer) (n : ℕ)
    → t.dcs_state ≡ inside_dcs
    → t.line_buf_len ≡ length (concat t.line_buf)
    → StepIs (machine reading (concat t.line_buf) t.block_state) [] (2 * suc n) (some (t, [], []))
unfolding run
stop_none-StepIs t n s h = rw s (refl, record { counted = h; partial = tt }, omega arith)

-- The end of a line, and an escape outside of a block.
process_stop-StepIs :
    (t : ControlTokenizer) (bytes : Bytes) (n : ℕ)
    → t.dcs_state ≡ inside_dcs
    → t.line_buf_len ≡ length (concat t.line_buf)
    → Stops t.block_state bytes
    → length bytes ≤ suc n
    → StepIs
        (machine reading (concat t.line_buf) t.block_state)
        bytes
        (2 * suc n)
        (process_stop t bytes)
process_stop-StepIs t [] n s h stops le = stop_none-StepIs t n s h
process_stop-StepIs t (b ∷ rest) n s h stops le =
    let m = machine reading (concat t.line_buf) t.block_state in
    elim (Bool-cases (b == lf)) [
      | inl ends ↦
          let e : b ≡ lf = ground arith in
          rw (e, process_stop)
            (StepIs-le m (lf ∷ rest) _ (omega arith)
              (end_line-StepIs t rest (flush_line t) s (flush_line-FlushIs t h)))
      | inr other ↦
          let escapes : (is_outside t.block_state && (b == esc)) ≡ true = ground arith in
          rw (other, process_stop)
            (StepIs-le m (b ∷ rest) (some (record t { dcs_state = maybe_st }, [], rest))
              (omega arith) (escape-StepIs t b rest h other escapes))
    ]

-- A round of the scan takes at least a byte.
pub process_inside-StepIs :
    (t : ControlTokenizer) (b : ℕ) (rest : Bytes)
    → t.dcs_state ≡ inside_dcs
    → t.line_buf_len ≡ length (concat t.line_buf)
    → StepIs
        (machine reading (concat t.line_buf) t.block_state)
        (b ∷ rest)
        (2 * suc (length rest))
        (process_inside t (b ∷ rest))
process_inside-StepIs t b rest s h =
    let bytes = b ∷ rest in
    let st = is_outside t.block_state in
    let pre = (scan st bytes).0 in
    let stop = (scan st bytes).1 in
    let t' = append_to_line pre t in
    let more = append_to_line-Appended t pre h in
    let (state, _, block) = more.same in
    let stops : Stops t'.block_state stop =
      subst (λ k. Stops k stop) (sym block) (scan-Stops t.block_state bytes) in
    let line : machine reading (concat t'.line_buf) t'.block_state
        ≡ machine reading (concat t.line_buf ++ pre) t.block_state =
      rw (more.line, block) refl in
    StepIs-run (machine reading (concat t.line_buf) t.block_state)
      (machine reading (concat t'.line_buf) t'.block_state) bytes stop (2 * suc (length rest))
      (process_inside t bytes)
      (scan-run (concat t.line_buf) bytes t.block_state ∙ ap (λ m. run m stop) (sym line))
      (process_stop-StepIs t' stop (length rest) (state ∙ s) more.counted stops
        (length-scan st bytes))

-- The close of the stream, from what the flush of a begun line yields.
close_line-StepIs :
    (t : ControlTokenizer) (rest : Bytes) (o : Option (ControlTokenizer × List ControlToken))
    → ltb 0 (length (concat t.line_buf)) ≡ true
    → FlushIs t o
    → StepIs
        (machine escaped (concat t.line_buf) t.block_state)
        (backslash ∷ rest)
        (suc (2 * suc (length rest)))
        (do
          flushed ← o
          some (record flushed.0 { dcs_state = after_dcs }, flushed.1 ++ dcs_close ∷ [], rest))
unfolding run feed_mode
close_line-StepIs t rest none begun h = h
close_line-StepIs t rest (some (t', tokens)) begun (emits, block, buf, len, _, _) =
    rw (begun, emits, block, buf) (refl, record { counted = len; partial = tt }, omega arith)

close_none-StepIs :
    (t : ControlTokenizer) (rest : Bytes)
    → ltb 0 (length (concat t.line_buf)) ≡ false
    → t.line_buf_len ≡ length (concat t.line_buf)
    → StepIs
        (machine escaped (concat t.line_buf) t.block_state)
        (backslash ∷ rest)
        (suc (2 * suc (length rest)))
        (some (record t { dcs_state = after_dcs }, dcs_close ∷ [], rest))
unfolding run feed_mode
close_none-StepIs t rest nothing h =
    rw nothing (refl, record { counted = h; partial = tt }, omega arith)

escaped_other :
    (line : Bytes) (block : BlockState) (b : ℕ) (rest : Bytes)
    → (b == backslash) ≡ false
    → run (machine escaped line block) (b ∷ rest)
      ≡ run (machine reading (line ++ esc ∷ []) block) (b ∷ rest)
unfolding run feed_mode
escaped_other line block b rest other = rw other refl

pub process_maybe_st-StepIs :
    (t : ControlTokenizer) (b : ℕ) (rest : Bytes)
    → t.line_buf_len ≡ length (concat t.line_buf)
    → StepIs
        (machine escaped (concat t.line_buf) t.block_state)
        (b ∷ rest)
        (suc (2 * suc (length rest)))
        (process_maybe_st t b rest)
process_maybe_st-StepIs t b rest h = elim (Bool-cases (b == backslash)) [
  | inl closes ↦
      let e : b ≡ backslash = ground arith in
      elim (Bool-cases (ltb 0 (length (concat t.line_buf)))) [
        | inl begun ↦
            rw (e, ap (ltb 0) h ∙ begun)
              (close_line-StepIs t rest (flush_line t) begun (flush_line-FlushIs t h))
        | inr nothing ↦ rw (e, ap (ltb 0) h ∙ nothing) (close_none-StepIs t rest nothing h)
      ]
  | inr other ↦
      let more = append_to_line-Appended t (esc ∷ []) h in
      let (_, _, block) = more.same in
      rw (other, more.line, block)
        (
          escaped_other (concat t.line_buf) t.block_state b rest other,
          record { counted = more.counted; partial = tt },
          omega arith,
        )
]
