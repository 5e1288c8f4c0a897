-- ===== src/Parser/Tokenizer/Intro.antt =====
-- The rounds before and within the DCS intro against the machine that reads byte by byte.
use tmuxcc_driver.Prelude.{
  ℕ, suc, ◌*◌, ◌≤◌, ◌<◌, ◌≡◌, refl, ◌∙◌, inl, inr, true, false, Option, none, some, [], ◌∷◌, arith,
  Bytes, length, take, concat, ltb, ◌==◌, Bool-cases,
}
use tmuxcc_driver.Parser.Tokens.{dcs_open}
use tmuxcc_driver.Parser.Tokenizer.{
  esc, dcs_intro, matching_dcs_intro, inside_dcs, BlockState, ControlTokenizer, Stepped,
  process_before, expected_at, match_dcs_intro,
}
use tmuxcc_driver.Parser.Tokenizer.Machine.{fresh, matching, Machine, machine, feed_mode, run}
use tmuxcc_driver.Parser.Tokenizer.View.{IsWellFormed, StepIs, append_to_line-Appended}

pub process_before-StepIs :
    (t : ControlTokenizer) (b : ℕ) (rest : Bytes)
    → IsWellFormed t
    → StepIs
        (machine fresh (concat t.line_buf) t.block_state)
        (b ∷ rest)
        (suc (2 * suc (length rest)))
        (some (process_before t b rest))
unfolding run feed_mode
process_before-StepIs t b rest h = elim (Bool-cases (b == esc)) [
  | inl intro ↦ rw intro (refl, record { counted = h.counted; partial = omega arith }, omega arith)
  | inr other ↦ rw other (refl, record { counted = h.counted; partial = tt }, omega arith)
]

-- The tokenizer within the intro, with a number of its bytes matched.
abbrev matched : ControlTokenizer → ℕ → ControlTokenizer
matched t n = record t { dcs_state = matching_dcs_intro; dcs_intro_matched = n }

-- With the whole intro matched the bytes that follow wait for the next round.
match_dcs_intro_all :
    (t : ControlTokenizer) (rest : Bytes)
    → match_dcs_intro (matched t 7) rest
      ≡ (record t { dcs_state = inside_dcs; dcs_intro_matched = 0 }, dcs_open ∷ [], rest)
unfolding match_dcs_intro
match_dcs_intro_all t [] = refl
match_dcs_intro_all t (b ∷ rest) = refl

-- The loop may end with the chunk, and then no round follows.
abbrev bound : Bytes → ℕ
bound [] = 2
bound (b ∷ rest) = suc (2 * suc (length rest))

bound_le : (bytes : Bytes) → bound bytes ≤ suc (suc (2 * length bytes))
bound_le [] = omega arith
bound_le (b ∷ rest) = omega arith

-- A round for the bytes behind `b` is one for `b` too, when the machine takes `b` silently.
StepIs-more :
    (m m' : Machine) (b : ℕ) (rest : Bytes) (o : Option Stepped)
    → run m (b ∷ rest) ≡ run m' rest
    → StepIs m' rest (bound rest) o
    → StepIs m (b ∷ rest) (bound (b ∷ rest)) o
StepIs-more m m' b rest none e h = h
StepIs-more m m' b rest (some s) e (same, well, less) =
    (e ∙ same, well, omega (arith, bound_le rest))

-- A byte that goes on with the intro, in the loop and in the machine.
match_dcs_intro_same :
    (t : ControlTokenizer) (n b : ℕ) (rest : Bytes)
    → n < length dcs_intro
    → (b == expected_at n) ≡ true
    → match_dcs_intro (matched t n) (b ∷ rest) ≡ match_dcs_intro (matched t (suc n)) rest
unfolding match_dcs_intro
match_dcs_intro_same t n b rest part same =
    let within : ltb n (length dcs_intro) ≡ true = ground arith in rw (within, same) refl

run_same :
    (line : Bytes) (block : BlockState) (n b : ℕ) (rest : Bytes)
    → suc n < length dcs_intro
    → (b == expected_at n) ≡ true
    → run (machine (matching n) line block) (b ∷ rest)
      ≡ run (machine (matching (suc n)) line block) rest
unfolding run feed_mode
run_same line block n b rest part same =
    let more : (suc n == length dcs_intro) ≡ false = ground arith in rw (same, more) refl

match_last-StepIs :
    (t : ControlTokenizer) (b : ℕ) (rest : Bytes)
    → t.line_buf_len ≡ length (concat t.line_buf)
    → (b == expected_at 6) ≡ true
    → StepIs
        (machine (matching 6) (concat t.line_buf) t.block_state)
        (b ∷ rest)
        (bound (b ∷ rest))
        (some (match_dcs_intro (matched t 6) (b ∷ rest)))
unfolding run feed_mode
match_last-StepIs t b rest h same =
    rw (match_dcs_intro_same t 6 b rest (omega arith) same, match_dcs_intro_all t rest, same)
      (refl, record { counted = h; partial = tt }, omega arith)

match_none-StepIs :
    (t : ControlTokenizer) (n : ℕ)
    → t.line_buf_len ≡ length (concat t.line_buf)
    → n < length dcs_intro
    → StepIs
        (machine (matching n) (concat t.line_buf) t.block_state)
        []
        (bound [])
        (some (match_dcs_intro (matched t n) []))
unfolding run match_dcs_intro
match_none-StepIs t n h part =
    let within : (n == length dcs_intro) ≡ false = ground arith in
    rw within (refl, record { counted = h; partial = part }, omega arith)

match_other-StepIs :
    (t : ControlTokenizer) (n b : ℕ) (rest : Bytes)
    → t.line_buf_len ≡ length (concat t.line_buf)
    → n < length dcs_intro
    → (b == expected_at n) ≡ false
    → StepIs
        (machine (matching n) (concat t.line_buf) t.block_state)
        (b ∷ rest)
        (bound (b ∷ rest))
        (some (match_dcs_intro (matched t n) (b ∷ rest)))
unfolding run feed_mode match_dcs_intro
match_other-StepIs t n b rest h part other =
    let within : ltb n (length dcs_intro) ≡ true = ground arith in
    let more = append_to_line-Appended (matched t n) (take n dcs_intro) h in
    let (_, _, block) = more.same in
    rw (within, other, more.line, block)
      (refl, record { counted = more.counted; partial = tt }, omega arith)

pub match_dcs_intro-StepIs :
    (t : ControlTokenizer) (n : ℕ) (bytes : Bytes)
    → t.line_buf_len ≡ length (concat t.line_buf)
    → n < length dcs_intro
    → StepIs
        (machine (matching n) (concat t.line_buf) t.block_state)
        bytes
        (bound bytes)
        (some (match_dcs_intro (matched t n) bytes))
match_dcs_intro-StepIs t n [] h part = match_none-StepIs t n h part
match_dcs_intro-StepIs t n (b ∷ rest) h part =
    let line = concat t.line_buf in
    elim (Bool-cases (b == expected_at n)) [
      | inl same ↦ elim (Bool-cases (n == 6)) [
        | inl last ↦
            let e : n ≡ 6 = ground arith in rw e (match_last-StepIs t b rest h (rw e at same))
        | inr more ↦
            let within : suc n < length dcs_intro = ground arith in
            rw (match_dcs_intro_same t n b rest part same) (
              StepIs-more (machine (matching n) line t.block_state)
                (machine (matching (suc n)) line t.block_state) b rest
                (some (match_dcs_intro (matched t (suc n)) rest))
                (run_same line t.block_state n b rest within same)
                (match_dcs_intro-StepIs t (suc n) rest h within))
      ]
      | inr other ↦ match_other-StepIs t n b rest h part other
    ]
