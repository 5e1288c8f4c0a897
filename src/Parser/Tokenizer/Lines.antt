-- ===== src/Parser/Tokenizer/Lines.antt =====
-- Whole lines through the machine, and the guard lines of a block read back.
use tmuxcc_driver.Prelude.{
  ℕ, ◌*◌, ◌+◌, ◌-◌, ◌≡◌, ◌≢◌, refl, sym, ap, ◌∙◌, true, false, ◌&&◌, some, [], ◌∷◌, ◌++◌,
  append_assoc, append-nil, arith, Bytes, All, leb,
}
use tmuxcc_driver.Prelude.Keyed.{list_keyed}
use tmuxcc_driver.Parser.Tokens.{Guard}
use tmuxcc_driver.Parser.OutputCodec.Notification.{IsDigit, decimal_from}
use tmuxcc_driver.Parser.Tokenizer.{
  lf, cr, esc, percent, space, BlockState, outside, inside, extract_word, extract_keyword,
  skip_keyword, after_space, read_field_loop, parse_guard_fields, flush_collected, strip_cr,
}
use tmuxcc_driver.Parser.Tokenizer.Machine.{
  reading, machine, end_line, feed_line, feed_mode, ahead, run,
}

-- A byte that neither ends a line nor, outside of a block, may close the stream.
abbrev pub IsLineByte : BlockState → ℕ → Type 0
IsLineByte outside b = (b ≢ lf) × (b ≢ esc)
IsLineByte inside b = b ≢ lf

feed_line_byte :
    (block : BlockState) (line : Bytes) (b : ℕ)
    → IsLineByte block b
    → feed_line block line b ≡ (machine reading (line ++ b ∷ []) block, [])
unfolding feed_line
feed_line_byte outside line b h = ground arith
feed_line_byte inside line b h = ground arith

feed_line-lf : (block : BlockState) (line : Bytes) → feed_line block line lf ≡ end_line block line
unfolding feed_line
feed_line-lf block line = refl

line_run :
    (block : BlockState) (line more rest : Bytes)
    → All (IsLineByte block) more
    → run (machine reading line block) (more ++ lf ∷ rest)
      ≡ ahead (end_line block (line ++ more)).1 (run (end_line block (line ++ more)).0 rest)
unfolding run feed_mode
line_run block line [] rest h =
    let e : feed_line block line lf ≡ end_line block (line ++ []) =
      rw (append-nil line) (feed_line-lf block line) in
    ap (λ f. ahead f.1 (run f.0 rest)) e
line_run block line (b ∷ more) rest (plain, h) = rw (feed_line_byte block line b plain) (
    line_run block (line ++ b ∷ []) more rest h
    ∙ ap (λ l. ahead (end_line block l).1 (run (end_line block l).0 rest))
        (append_assoc line (b ∷ []) more))

-- A line emits what its flush emits, and the machine is ready for the next one.
pub line_run_lem :
    (block : BlockState) (line rest : Bytes)
    → All (IsLineByte block) line
    → run (machine reading [] block) (line ++ lf ∷ rest)
      ≡ ahead
          (flush_collected block (strip_cr line)).0
          (run (machine reading [] (flush_collected block (strip_cr line)).1) rest)
line_run_lem block line rest h = line_run block [] line rest h

-- A number as its digits, at least one.
abbrev pub IsNumber : Bytes → Type 0
IsNumber [] = ⊥
IsNumber ds = All IsDigit ds

-- What may follow the digits of a number.
abbrev Ends : Bytes → Type 0
Ends [] = Unit
Ends (c ∷ _) = (leb 0x30 c && leb c 0x39) ≡ false

read_digits :
    (value : ℕ) (ds rest : Bytes)
    → All IsDigit ds
    → Ends rest
    → read_field_loop value true (ds ++ rest) ≡ some (decimal_from value ds, rest)
unfolding read_field_loop
read_digits value [] [] h stop = refl
read_digits value [] (c ∷ rest) h stop = rw stop refl
read_digits value (d ∷ ds) rest (digit, h) stop =
    rw digit (read_digits (value * 10 + (d - 0x30)) ds rest h stop)

read_number :
    (ds rest : Bytes)
    → IsNumber ds
    → Ends rest
    → read_field_loop 0 false (ds ++ rest) ≡ some (decimal_from 0 ds, rest)
unfolding read_field_loop
read_number [] rest h stop = absurd h
read_number (d ∷ ds) rest (digit, h) stop =
    rw digit (read_digits (0 * 10 + (d - 0x30)) ds rest h stop)

-- The numbers of a guard line, as digits.
pub record GuardText : Type 0 where
  pub timestamp : Bytes
  pub command_number : Bytes
  pub flags : Bytes

pub record AreNumbers (g : GuardText) : Type 0 where
  pub timestamp : IsNumber g.timestamp
  pub command_number : IsNumber g.command_number
  pub flags : IsNumber g.flags

abbrev pub guard_of : GuardText → Guard
guard_of g = record {
  timestamp = decimal_from 0 g.timestamp;
  command_number = decimal_from 0 g.command_number;
  flags = decimal_from 0 g.flags;
}

-- `%<word> <timestamp> <number> <flags>`
abbrev pub guard_line : Bytes → GuardText → Bytes
guard_line word g =
    percent ∷ (word ++ space ∷ (g.timestamp ++ space ∷ (g.command_number ++ space ∷ g.flags)))

-- A keyword's bytes.
abbrev pub IsWordByte : ℕ → Type 0
IsWordByte b = (b ≢ space) × (b ≢ lf) × (b ≢ cr)

extract_word_lem :
    (word rest : Bytes) → All IsWordByte word → extract_word (word ++ space ∷ rest) ≡ word
unfolding extract_word
extract_word_lem [] rest h = refl
extract_word_lem (b ∷ word) rest (plain, h) = ground (arith, extract_word_lem word rest h)

pub extract_keyword_lem :
    (word : Bytes) (g : GuardText)
    → All IsWordByte word
    → extract_keyword (guard_line word g) ≡ word
extract_keyword_lem word g h =
    extract_word_lem word (g.timestamp ++ space ∷ (g.command_number ++ space ∷ g.flags)) h

skip_keyword_lem :
    (word rest : Bytes) → All IsWordByte word → skip_keyword (word ++ space ∷ rest) ≡ space ∷ rest
unfolding skip_keyword
skip_keyword_lem [] rest h = refl
skip_keyword_lem (b ∷ word) rest (plain, h) = ground (arith, skip_keyword_lem word rest h)

after_space_lem : (rest : Bytes) → after_space (space ∷ rest) ≡ some rest
unfolding after_space
after_space_lem rest = refl

-- The three numbers of a guard line are read back.
pub parse_guard_fields_lem :
    (word : Bytes) (g : GuardText)
    → All IsWordByte word
    → AreNumbers g
    → parse_guard_fields (guard_line word g) ≡ some (guard_of g)
unfolding parse_guard_fields
parse_guard_fields_lem word g h n =
    let numbers = g.command_number ++ space ∷ g.flags in
    rw
      (
        skip_keyword_lem word (g.timestamp ++ space ∷ numbers) h,
        after_space_lem (g.timestamp ++ space ∷ numbers),
        read_number g.timestamp (space ∷ numbers) n.timestamp refl,
        after_space_lem numbers,
        read_number g.command_number (space ∷ g.flags) n.command_number refl,
        after_space_lem g.flags,
        ap (read_field_loop 0 false) (sym (append-nil g.flags)),
        read_number g.flags [] n.flags tt,
      )
      refl
