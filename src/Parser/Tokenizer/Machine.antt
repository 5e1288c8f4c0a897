-- ===== src/Parser/Tokenizer/Machine.antt =====
-- The tokenizer byte by byte: the machine that the chunked loops of tokenizer.ts stand for.
use tmuxcc_driver.Prelude.{
  ℕ, suc, ◌≡◌, refl, sym, ap, ◌&&◌, List, [], ◌∷◌, ◌++◌, append_assoc, Bytes, length, take, ltb,
  ◌==◌, if◌then◌else◌,
}
use tmuxcc_driver.Parser.Tokens.{ControlToken, dcs_open, dcs_close}
use tmuxcc_driver.Parser.Tokenizer.{
  lf, esc, backslash, dcs_intro, BlockState, is_outside, flush_collected, strip_cr, expected_at,
}

-- Before the first byte, within the intro, in a line, behind an escape, and after the close.
pub data Mode : Type 0 where
  fresh reading escaped closed : Mode
  matching : ℕ → Mode

pub record Machine : Type 0 where
  pub mode : Mode
  pub line : Bytes
  pub block : BlockState

abbrev pub machine : Mode → Bytes → BlockState → Machine
machine mode line block = record { mode = mode; line = line; block = block }

abbrev pub Fed : Type 0
Fed = Machine × List ControlToken

abbrev pub end_line : BlockState → Bytes → Fed
end_line block line =
    let emitted = flush_collected block (strip_cr line) in (machine reading [] emitted.1, emitted.0)

-- A byte of a line.
unfoldable pub feed_line : BlockState → Bytes → ℕ → Fed
feed_line block line b =
    if b == lf
    then end_line block line
    else if is_outside block && (b == esc)
    then (machine escaped line block, [])
    else (machine reading (line ++ b ∷ []) block, [])

-- The closing `ESC \` flushes a line that was begun.
abbrev pub close_stream : BlockState → Bytes → Fed
close_stream block line =
    let flushed =
      if ltb 0 (length line) then end_line block line else (machine reading line block, []) in
    (record flushed.0 { mode = closed }, flushed.1 ++ dcs_close ∷ [])

unfoldable pub feed_mode : Mode → Bytes → BlockState → ℕ → Fed
feed_mode fresh line block b =
    if b == esc then (machine (matching 1) line block, []) else feed_line block line b
feed_mode (matching n) line block b =
    if b == expected_at n
    then (if suc n == length dcs_intro
        then (machine reading line block, dcs_open ∷ [])
        else (machine (matching (suc n)) line block, []))
    else feed_line block (line ++ take n dcs_intro) b
feed_mode reading line block b = feed_line block line b
feed_mode escaped line block b =
    if b == backslash then close_stream block line else feed_line block (line ++ esc ∷ []) b
feed_mode closed line block b = (machine closed line block, [])

abbrev pub feed : Machine → ℕ → Fed
feed m b = feed_mode m.mode m.line m.block b

abbrev pub ahead : List ControlToken → Fed → Fed
ahead tokens r = (r.0, tokens ++ r.1)

unfoldable pub run : Machine → Bytes → Fed
run m [] = (m, [])
run m (b ∷ bs) = ahead (feed m b).1 (run (feed m b).0 bs)

pub ahead-ahead : (xs ys : List ControlToken) (r : Fed) → ahead xs (ahead ys r) ≡ ahead (xs ++ ys) r
ahead-ahead xs ys r = ap (λ ts. (r.0, ts)) (sym (append_assoc xs ys r.1))

-- Bytes in two pieces: the second continues where the first ended.
pub run-append :
    (m : Machine) (xs ys : Bytes) → run m (xs ++ ys) ≡ ahead (run m xs).1 (run (run m xs).0 ys)
unfolding run
run-append m [] ys = refl
run-append m (x ∷ xs) ys =
    rw (run-append (feed m x).0 xs ys)
      (ahead-ahead (feed m x).1 (run (feed m x).0 xs).1 (run (run (feed m x).0 xs).0 ys))
