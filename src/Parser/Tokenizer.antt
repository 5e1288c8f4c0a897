-- ===== src/Parser/Tokenizer.antt =====
-- packages/driver/src/parser/tokenizer.ts: the control-mode byte stream, cut into tokens.
-- A cursor `i` into a chunk or a line is the list of the bytes from `i` on; the `out` array is the
-- list of the tokens added to it. `none` is a write past the end of an array, or a loop that did
-- not come to its end.
pub mod Machine
pub mod View
pub mod Scan
pub mod Intro
pub mod LineEnd
pub mod Refines
pub mod Lines
pub mod Blocks
pub mod Session
pub mod Tests
use tmuxcc_driver.Prelude.{
  ℕ, zero, suc, ◌+◌, ◌-◌, ◌*◌, Bool, true, false, ◌&&◌, ◌||◌, Option, none, some, List, [], ◌∷◌,
  ◌++◌, Bytes, length, take, drop, ltb, leb, ◌==◌, if◌then◌else◌,
}
use tmuxcc_driver.Prelude.Keyed.{list_keyed, codes}
use tmuxcc_driver.Prelude.Buffers.{◌>>=◌, zeros, gather}
use tmuxcc_driver.Parser.Tokens.{
  Guard, ControlToken, notification, block_begin, block_end, block_error, block_body, dcs_open,
  dcs_close,
}

abbrev pub lf : ℕ
lf = 0x0a

abbrev pub cr : ℕ
cr = 0x0d

abbrev pub esc : ℕ
esc = 0x1b

abbrev pub backslash : ℕ
backslash = 0x5c

abbrev pub percent : ℕ
percent = 0x25

abbrev pub space : ℕ
space = 0x20

abbrev pub dcs_intro : Bytes
dcs_intro = 0x1b ∷ 0x50 ∷ 0x31 ∷ 0x30 ∷ 0x30 ∷ 0x30 ∷ 0x70 ∷ []

pub data DcsState : Type 0 where
  before_dcs matching_dcs_intro inside_dcs maybe_st after_dcs : DcsState

pub data BlockState : Type 0 where
  outside inside : BlockState

abbrev pub is_outside : BlockState → Bool
is_outside outside = true
is_outside inside = false

pub record ControlTokenizer : Type 0 where
  pub line_buf : List Bytes
  pub line_buf_len : ℕ
  pub dcs_state : DcsState
  pub dcs_intro_matched : ℕ
  pub block_state : BlockState

abbrev pub new_tokenizer : ControlTokenizer
new_tokenizer = record {
  line_buf = [];
  line_buf_len = 0;
  dcs_state = before_dcs;
  dcs_intro_matched = 0;
  block_state = outside;
}

-- Up to the first space or line end.
unfoldable pub extract_word : Bytes → List ℕ
extract_word [] = []
extract_word (b ∷ rest) =
    let word = extract_word rest in if (b == space) || (b == lf) || (b == cr) then [] else b ∷ word

-- The sigil is skipped unread.
abbrev pub extract_keyword : Bytes → List ℕ
extract_keyword line = extract_word (drop 1 line)

-- `while (i < line.length && line[i] !== SPACE) i++`
unfoldable pub skip_keyword : Bytes → Bytes
skip_keyword [] = []
skip_keyword (b ∷ rest) = let later = skip_keyword rest in if b == space then b ∷ rest else later

-- A space that has to be there, and the rest.
unfoldable pub after_space : Bytes → Option Bytes
after_space [] = none
after_space (b ∷ rest) = if b == space then some rest else none

-- The loop of `_readDecimalField`, and its result once it ends.
unfoldable pub read_field_loop : ℕ → Bool → Bytes → Option (ℕ × Bytes)
read_field_loop value has_digit [] = if has_digit then some (value, []) else none
read_field_loop value has_digit (b ∷ rest) =
    let later = read_field_loop (value * 10 + (b - 0x30)) true rest in
    if leb 0x30 b && leb b 0x39 then later else if has_digit then some (value, b ∷ rest) else none

abbrev pub read_decimal_field : Bytes → Option (ℕ × Bytes)
read_decimal_field line = read_field_loop 0 false line

unfoldable pub parse_guard_fields : Bytes → Option Guard
parse_guard_fields line = do
  at_first ← after_space (skip_keyword (drop 1 line))
  field1 ← read_decimal_field at_first
  at_second ← after_space field1.1
  field2 ← read_decimal_field at_second
  at_third ← after_space field2.1
  field3 ← read_decimal_field at_third
  some (record { timestamp = field1.0; command_number = field2.0; flags = field3.0 })

-- What a line emits, and the block state after it.
abbrev pub Emitted : Type 0
Emitted = List ControlToken × BlockState

abbrev pub begin_block : Bytes → Option Guard → Emitted
begin_block line (some guard) = (block_begin guard ∷ [], inside)
begin_block line none =
    (notification (record { keyword = extract_keyword line; raw_line = line }) ∷ [], outside)

unfoldable pub parse_notification_or_begin : Bytes → Emitted
parse_notification_or_begin line =
    let keyword = extract_keyword line in
    if list_keyed.matches keyword (codes "begin")
    then begin_block line (parse_guard_fields line)
    else (notification (record { keyword = keyword; raw_line = line }) ∷ [], outside)

abbrev pub close_token : List ℕ → Guard → ControlToken
close_token keyword guard =
    if list_keyed.matches keyword (codes "end") then block_end guard else block_error guard

-- `none` is the result `false`: the line does not end the block.
unfoldable pub try_parse_guard_line : Bytes → Option ControlToken
try_parse_guard_line line =
    let keyword = extract_keyword line in
    if list_keyed.matches keyword (codes "end") || list_keyed.matches keyword (codes "error")
    then (do guard ← parse_guard_fields line; some (close_token keyword guard))
    else none

abbrev pub starts_with_percent : Bytes → Bool
starts_with_percent [] = false
starts_with_percent (b ∷ _) = b == percent

abbrev pub close_or_body : Bytes → Option ControlToken → Emitted
close_or_body line none = (block_body line ∷ [], inside)
close_or_body line (some token) = (token ∷ [], outside)

-- `_flushLine` from the line that was collected.
unfoldable pub flush_collected : BlockState → Bytes → Emitted
flush_collected inside line =
    close_or_body line (if starts_with_percent line then try_parse_guard_line line else none)
flush_collected outside line =
    if starts_with_percent line then parse_notification_or_begin line else ([], outside)

unfoldable pub append_to_line : Bytes → ControlTokenizer → ControlTokenizer
append_to_line bytes t = if length bytes == 0 then t else record t {
  line_buf = t.line_buf ++ bytes ∷ [];
  line_buf_len = t.line_buf_len + length bytes;
}

-- The last byte of a line is dropped when it is a carriage return.
unfoldable pub strip_cr : Bytes → Bytes
strip_cr [] = []
strip_cr (b ∷ []) = if b == cr then [] else b ∷ []
strip_cr (b ∷ c ∷ rest) = b ∷ strip_cr (c ∷ rest)

abbrev pub materialise : List Bytes → ℕ → Option Bytes
materialise [] total = some []
materialise (chunk ∷ []) total = some chunk
materialise (chunk ∷ next ∷ rest) total = gather (zeros total) 0 (chunk ∷ next ∷ rest)

-- `_flushLine`; an empty buffer is not reset, since its length is 0 already.
unfoldable pub flush_line : ControlTokenizer → Option (ControlTokenizer × List ControlToken)
flush_line t = do
  line ← materialise t.line_buf t.line_buf_len
  let emitted = flush_collected t.block_state (strip_cr line)
  some (
    record t {
      line_buf = [];
      line_buf_len = if length t.line_buf == 0 then t.line_buf_len else 0;
      block_state = emitted.1;
    },
    emitted.0,
  )

-- A step of the loop of `_processChunk`: the tokenizer, the tokens, and the rest of the chunk.
abbrev pub Stepped : Type 0
Stepped = ControlTokenizer × List ControlToken × Bytes

abbrev pub process_before : ControlTokenizer → ℕ → Bytes → Stepped
process_before t b rest =
    if b == esc
    then (record t { dcs_state = matching_dcs_intro; dcs_intro_matched = 1 }, [], rest)
    else (record t { dcs_state = inside_dcs }, [], b ∷ rest)

-- `DCS_INTRO[n]`; it is only read below the length.
abbrev pub expected_at : ℕ → ℕ
expected_at n = elim (drop n dcs_intro) [ [] ↦ 0 | b ∷ _ ↦ b ]

abbrev pub finish_intro : ControlTokenizer → Bytes → Stepped
finish_intro t rest =
    if t.dcs_intro_matched == length dcs_intro
    then (record t { dcs_state = inside_dcs; dcs_intro_matched = 0 }, dcs_open ∷ [], rest)
    else (t, [], rest)

unfoldable pub match_dcs_intro : ControlTokenizer → Bytes → Stepped
match_dcs_intro t [] = finish_intro t []
match_dcs_intro t (b ∷ rest) =
    let n = t.dcs_intro_matched in
    let later = match_dcs_intro (record t { dcs_intro_matched = suc n }) rest in
    if ltb n (length dcs_intro)
    then (if b == expected_at n then later else (
      record (append_to_line (take n dcs_intro) t) {
        dcs_state = inside_dcs;
        dcs_intro_matched = 0;
      },
      [],
      b ∷ rest,
    ))
    else finish_intro t (b ∷ rest)

-- The bytes before the first line feed or, when those are scanned for, escape.
unfoldable pub scan : Bool → Bytes → Bytes × Bytes
scan scan_for_st [] = ([], [])
scan scan_for_st (b ∷ rest) =
    let later = scan scan_for_st rest in
    if (b == lf) || (scan_for_st && (b == esc)) then ([], b ∷ rest) else (b ∷ later.0, later.1)

-- `_processInside` from the byte that stops its scan, if one does.
abbrev pub process_stop : ControlTokenizer → Bytes → Option Stepped
process_stop t [] = some (t, [], [])
process_stop t (b ∷ rest) =
    if b == lf
    then (do flushed ← flush_line t; some (flushed.0, flushed.1, rest))
    else some (record t { dcs_state = maybe_st }, [], rest)

abbrev pub process_inside : ControlTokenizer → Bytes → Option Stepped
process_inside t bytes =
    let scanned = scan (is_outside t.block_state) bytes in
    process_stop (append_to_line scanned.0 t) scanned.1

abbrev pub process_maybe_st : ControlTokenizer → ℕ → Bytes → Option Stepped
process_maybe_st t b rest =
    if b == backslash
    then (do
      flushed ← if ltb 0 t.line_buf_len then flush_line t else some (t, [])
      some (record flushed.0 { dcs_state = after_dcs }, flushed.1 ++ dcs_close ∷ [], rest))
    else some (record (append_to_line (esc ∷ []) t) { dcs_state = inside_dcs }, [], b ∷ rest)

-- After the DCS closes the rest of the chunk is discarded.
unfoldable pub process : DcsState → ControlTokenizer → ℕ → Bytes → Option Stepped
process before_dcs t b rest = some (process_before t b rest)
process matching_dcs_intro t b rest = some (match_dcs_intro t (b ∷ rest))
process inside_dcs t b rest = process_inside t (b ∷ rest)
process maybe_st t b rest = process_maybe_st t b rest
process after_dcs t b rest = some (t, [], [])

unfoldable pub process_chunk :
    ℕ → ControlTokenizer → Bytes → Option (ControlTokenizer × List ControlToken)
process_chunk fuel t [] = some (t, [])
process_chunk zero t (b ∷ rest) = none
process_chunk (suc fuel) t (b ∷ rest) = do
  stepped ← process t.dcs_state t b rest
  later ← process_chunk fuel stepped.0 stepped.2
  some (later.0, stepped.1 ++ later.1)

-- At most two rounds take a byte: one that looks at it, and one that consumes it.
unfoldable pub push : ControlTokenizer → Bytes → Option (ControlTokenizer × List ControlToken)
push t chunk =
    if length chunk == 0 then some (t, []) else process_chunk (suc (2 * length chunk)) t chunk

unfoldable pub tokenize_buffer : Bytes → Option (List ControlToken)
tokenize_buffer buf = do pushed ← push new_tokenizer buf; some pushed.1
