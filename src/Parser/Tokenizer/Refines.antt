-- ===== src/Parser/Tokenizer/Refines.antt =====
-- The chunked loops against the machine that reads byte by byte.
use tmuxcc_driver.Prelude.{
  ℕ, zero, suc, ◌*◌, ◌≤◌, ◌≡◌, refl, ap, ◌∙◌, false, Option, none, some, List, [], ◌∷◌, ◌++◌, arith,
  Bytes, length, concat, ◌==◌,
}
use tmuxcc_driver.Prelude.Buffers.{◌>>=◌}
use tmuxcc_driver.Parser.Tokens.{ControlToken}
use tmuxcc_driver.Parser.Tokenizer.{
  DcsState, before_dcs, matching_dcs_intro, inside_dcs, maybe_st, after_dcs, BlockState,
  ControlTokenizer, Stepped, process_before, match_dcs_intro, process_inside, process_maybe_st,
  process, process_chunk, push,
}
use tmuxcc_driver.Parser.Tokenizer.Machine.{closed, Machine, machine, feed_mode, ahead, run}
use tmuxcc_driver.Parser.Tokenizer.View.{view, IsWellFormed, weight, measure, StepIs, StepIs-le}
use tmuxcc_driver.Parser.Tokenizer.Intro.{process_before-StepIs, match_dcs_intro-StepIs}
use tmuxcc_driver.Parser.Tokenizer.LineEnd.{process_inside-StepIs, process_maybe_st-StepIs}

abbrev tokenizer : DcsState → List Bytes → ℕ → ℕ → BlockState → ControlTokenizer
tokenizer s buf len n block = record {
  line_buf = buf;
  line_buf_len = len;
  dcs_state = s;
  dcs_intro_matched = n;
  block_state = block;
}

-- After the close every byte is discarded.
pub closed_run :
    (line : Bytes) (block : BlockState) (bytes : Bytes)
    → run (machine closed line block) bytes ≡ (machine closed line block, [])
unfolding run feed_mode
closed_run line block [] = refl
closed_run line block (b ∷ rest) = rw (closed_run line block rest) refl

fields-StepIs :
    (s : DcsState) (buf : List Bytes) (len n : ℕ) (block : BlockState) (b : ℕ) (rest : Bytes)
    → IsWellFormed (tokenizer s buf len n block)
    → StepIs
        (view (tokenizer s buf len n block))
        (b ∷ rest)
        (measure (tokenizer s buf len n block) (b ∷ rest))
        (process s (tokenizer s buf len n block) b rest)
unfolding process run
fields-StepIs before_dcs buf len n block b rest h =
    let t = tokenizer before_dcs buf len n block in
    StepIs-le (view t) (b ∷ rest) (some (process_before t b rest)) (omega arith)
      (process_before-StepIs t b rest h)
fields-StepIs matching_dcs_intro buf len n block b rest h =
    let t = tokenizer matching_dcs_intro buf len n block in
    StepIs-le (view t) (b ∷ rest) (some (match_dcs_intro t (b ∷ rest))) (omega arith)
      (match_dcs_intro-StepIs t n (b ∷ rest) h.counted h.partial)
fields-StepIs inside_dcs buf len n block b rest h =
    let t = tokenizer inside_dcs buf len n block in
    StepIs-le (view t) (b ∷ rest) (process_inside t (b ∷ rest)) (omega arith)
      (process_inside-StepIs t b rest refl h.counted)
fields-StepIs maybe_st buf len n block b rest h =
    let t = tokenizer maybe_st buf len n block in
    StepIs-le (view t) (b ∷ rest) (process_maybe_st t b rest) (omega arith)
      (process_maybe_st-StepIs t b rest h.counted)
fields-StepIs after_dcs buf len n block b rest h =
    (closed_run (concat buf) block (b ∷ rest), h, omega arith)

process-StepIs :
    (t : ControlTokenizer) (b : ℕ) (rest : Bytes)
    → IsWellFormed t
    → StepIs (view t) (b ∷ rest) (measure t (b ∷ rest)) (process t.dcs_state t b rest)
process-StepIs t b rest h =
    fields-StepIs t.dcs_state t.line_buf t.line_buf_len t.dcs_intro_matched t.block_state b rest h

-- What a chunk has to yield: the tokens of the machine, and a tokenizer that stands for it.
abbrev pub Tokenizes : Machine → Bytes → Option (ControlTokenizer × List ControlToken) → Type 0
Tokenizes m bytes none = ⊥
Tokenizes m bytes (some r) = (run m bytes ≡ (view r.0, r.1)) × IsWellFormed r.0

-- A round, and the rounds for the rest.
round-Tokenizes :
    (m : Machine) (bytes : Bytes) (n : ℕ) (s : Stepped)
    (o : Option (ControlTokenizer × List ControlToken))
    → StepIs m bytes n (some s)
    → Tokenizes (view s.0) s.2 o
    → Tokenizes m bytes (do later ← o; some (later.0, s.1 ++ later.1))
round-Tokenizes m bytes n s none step h = h
round-Tokenizes m bytes n s (some r) (same, _, _) (later, well) =
    (same ∙ ap (ahead s.1) later, well)

then-Tokenizes :
    (m : Machine) (bytes : Bytes) (fuel : ℕ) (o : Option Stepped)
    → StepIs m bytes (suc fuel) o
    → ((t : ControlTokenizer) (rest : Bytes)
        → IsWellFormed t
        → measure t rest ≤ fuel
        → Tokenizes (view t) rest (process_chunk fuel t rest))
    → Tokenizes m bytes (do
      stepped ← o
      later ← process_chunk fuel stepped.0 stepped.2
      some (later.0, stepped.1 ++ later.1))
then-Tokenizes m bytes fuel none step ih = step
then-Tokenizes m bytes fuel (some s) (same, well, less) ih =
    round-Tokenizes m bytes (suc fuel) s (process_chunk fuel s.0 s.2) (same, well, less)
      (ih s.0 s.2 well (omega arith))

weight_le : (s : DcsState) → weight s ≤ 1
weight_le before_dcs = omega arith
weight_le matching_dcs_intro = omega arith
weight_le inside_dcs = omega arith
weight_le maybe_st = omega arith
weight_le after_dcs = omega arith

measure_le : (t : ControlTokenizer) (bytes : Bytes) → measure t bytes ≤ suc (2 * length bytes)
measure_le t bytes = omega (arith, weight_le t.dcs_state)

process_chunk-Tokenizes :
    (fuel : ℕ) (t : ControlTokenizer) (bytes : Bytes)
    → IsWellFormed t
    → measure t bytes ≤ fuel
    → Tokenizes (view t) bytes (process_chunk fuel t bytes)
unfolding process_chunk run
process_chunk-Tokenizes fuel t [] h enough = (refl, h)
process_chunk-Tokenizes zero t (b ∷ rest) h enough = absurd (omega arith)
process_chunk-Tokenizes (suc fuel) t (b ∷ rest) h enough =
    then-Tokenizes (view t) (b ∷ rest) fuel (process t.dcs_state t b rest)
      (StepIs-le (view t) (b ∷ rest) (process t.dcs_state t b rest) (omega arith)
        (process-StepIs t b rest h))
      (process_chunk-Tokenizes fuel)

-- A chunk pushed to any well-formed tokenizer is read to its end, without a write past the end of
-- an array: the tokens are those of the machine that takes the same bytes one by one, whatever the
-- tokenizer had buffered in whatever chunks, and the tokenizer is well-formed again.
pub push-Tokenizes :
    (t : ControlTokenizer) (chunk : Bytes)
    → IsWellFormed t
    → Tokenizes (view t) chunk (push t chunk)
unfolding push run
push-Tokenizes t [] h = (refl, h)
push-Tokenizes t (b ∷ rest) h =
    let some_yet : (length (b ∷ rest) == 0) ≡ false = ground arith in
    rw some_yet (
      process_chunk-Tokenizes (suc (2 * length (b ∷ rest))) t (b ∷ rest) h
        (measure_le t (b ∷ rest)))
