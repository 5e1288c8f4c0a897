-- ===== src/Parser/NotifyScanner.antt =====
-- packages/driver/src/parser/notify-scanner.ts: the scanner of a pane's output for notifications.
-- `TextDecoder` is a parameter: `utf8` is the fatal decoder of UTF-8, `none` where it throws, and
-- `latin1` the decoder that stands in for it then. `scan_loop` is the loop of `scan` on fuel, where a
-- round that sets the index back leaves its byte in the chunk.
mod Machine
mod Array
mod Rounds
mod Loop
mod Streams
mod Tests
use tmuxcc_driver.Prelude.{
  ℕ, zero, suc, ◌+◌, ◌*◌, min, Bool, true, false, Option, none, some, List, [], ◌∷◌, ◌++◌, leb, ltb,
  ◌==◌, if◌then◌else◌, ◌&&◌, ◌||◌, not, Bytes, length, take,
}
use tmuxcc_driver.Prelude.Buffers.{zeros, blit, ◌>>=◌}
use tmuxcc_driver.Runtime.NotifyKind.{PaneNotifyKind, bell}
use tmuxcc_driver.Parser.OscContent.{Chars, PaneNotifyDetection, parse_osc_content}

abbrev pub bel : ℕ
bel = 0x07

abbrev pub esc_code : ℕ
esc_code = 0x1b

abbrev pub osc_intro : ℕ
osc_intro = 0x5d

abbrev pub st_bs : ℕ
st_bs = 0x5c

-- DCS, SOS, PM and APC.
abbrev pub is_string_intro : ℕ → Bool
is_string_intro b = (b == 0x50) || (b == 0x58) || (b == 0x5e) || (b == 0x5f)

abbrev pub max_osc_bytes : ℕ
max_osc_bytes = 4096

pub data State : Type 0 where
  idle esc osc osc_esc str str_esc : State

pub record PaneNotifyScanner : Type 0 where
  pub state : State
  pub buf : Bytes
  pub buf_len : ℕ
  pub str_len : ℕ

unfoldable pub new_scanner : PaneNotifyScanner
new_scanner = record { state = idle; buf = zeros 128; buf_len = 0; str_len = 0 }

abbrev pub bell_detection : PaneNotifyDetection
bell_detection = record { kind = bell; payload = none }

unfoldable pub has_esc_or_bel : Bytes → Bool
has_esc_or_bel [] = false
has_esc_or_bel (b ∷ bs) = (b == esc_code) || (b == bel) || has_esc_or_bel bs

abbrev pub emitted : Option PaneNotifyDetection → List PaneNotifyDetection
emitted none = []
emitted (some d) = d ∷ []

-- The array, twice as long where the next byte has no place in it.
unfoldable pub grown : PaneNotifyScanner → Option Bytes
unfolding blit
grown s =
    if leb (length s.buf) s.buf_len
    then blit (zeros (min (length s.buf * 2) max_osc_bytes)) 0 s.buf
    else some s.buf

-- A write past the array's end is lost in the source, and the length counted all the same.
unfoldable pub put_byte : Bytes → ℕ → ℕ → Bytes
unfolding blit
put_byte buf n b = elim (blit buf n (b ∷ [])) [ none ↦ buf | some out ↦ out ]

-- `none` is an exception of `set`; with `false` nothing is pushed.
unfoldable pub push_osc_byte : ℕ → PaneNotifyScanner → Option (Bool × PaneNotifyScanner)
unfolding grown put_byte
push_osc_byte b s = if leb max_osc_bytes s.buf_len then some (false, s) else do
  buf ← grown s
  some (true, record s { buf = put_byte buf s.buf_len b; buf_len = s.buf_len + 1 })

-- What a round leaves: the scanner, what it emits, and whether the byte is taken.
pub record Round : Type 0 where
  pub scanner : PaneNotifyScanner
  pub out : List PaneNotifyDetection
  pub is_taken : Bool

abbrev pub takes : PaneNotifyScanner → List PaneNotifyDetection → Option Round
takes s out = some (record { scanner = s; out = out; is_taken = true })

abbrev pub again : PaneNotifyScanner → Option Round
again s = some (record { scanner = s; out = []; is_taken = false })

abbrev pub pushed : Bool × PaneNotifyScanner → Option Round
pushed (false, s) = again (record s { state = idle })
pushed (true, s) = takes s []

abbrev pub is_idle : State → Bool
is_idle idle = true
is_idle _ = false

module _ (utf8 : Bytes → Option Chars) (latin1 : Bytes → Chars) where
  abbrev pub fallback : Bytes → Option Chars → Chars
  fallback bytes none = latin1 bytes
  fallback bytes (some text) = text

  unfoldable pub decode_utf8 : Bytes → ℕ → Chars
  decode_utf8 buf len = if len == 0 then [] else fallback (take len buf) (utf8 (take len buf))

  unfoldable pub finish_osc : PaneNotifyScanner → Option Round
  unfolding decode_utf8
  finish_osc s =
      takes (record s { state = idle; buf_len = 0 })
        (emitted (parse_osc_content (decode_utf8 s.buf s.buf_len)))

  -- The cases of the switch.
  unfoldable pub scan_byte : ℕ → State → PaneNotifyScanner → Option Round
  unfolding finish_osc push_osc_byte
  scan_byte b idle s =
      if b == bel
      then takes s (bell_detection ∷ [])
      else if b == esc_code
      then takes (record s { state = esc }) []
      else takes s []
  scan_byte b esc s =
      if b == osc_intro
      then takes (record s { state = osc; buf_len = 0 }) []
      else if is_string_intro b
      then takes (record s { state = str; str_len = 0 }) []
      else if b == esc_code
      then takes s []
      else takes (record s { state = idle }) []
  scan_byte b osc s =
      if b == bel
      then finish_osc s
      else if b == esc_code
      then takes (record s { state = osc_esc }) []
      else (push_osc_byte b s >>= pushed)
  scan_byte b osc_esc s =
      if b == st_bs then finish_osc s else again (record s { state = idle; buf_len = 0 })
  scan_byte b str s =
      if b == bel
      then takes (record s { state = idle }) []
      else if b == esc_code
      then takes (record s { state = str_esc }) []
      else if ltb max_osc_bytes (s.str_len + 1)
      then takes (record s { state = idle; str_len = s.str_len + 1 }) []
      else takes (record s { str_len = s.str_len + 1 }) []
  scan_byte b str_esc s =
      if b == st_bs then takes (record s { state = idle }) [] else again (record s { state = idle })

  abbrev pub Scanned : Type 0
  Scanned = PaneNotifyScanner × List PaneNotifyDetection

  abbrev pub behind : List PaneNotifyDetection → Option Scanned → Option Scanned
  behind out none = none
  behind out (some scanned) = some (scanned.0, out ++ scanned.1)

  unfoldable pub scan_loop : ℕ → Bytes → PaneNotifyScanner → Option Scanned
  unfolding scan_byte
  scan_loop fuel [] s = some (s, [])
  scan_loop zero (b ∷ bs) s = none
  scan_loop (suc fuel) (b ∷ bs) s = do
    r ← scan_byte b s.state s
    behind r.out (scan_loop fuel (if r.is_taken then bs else b ∷ bs) r.scanner)

  -- Two rounds for each byte; `none` is an exception, or the end of the fuel.
  unfoldable pub scan : Bytes → PaneNotifyScanner → Option Scanned
  unfolding scan_loop has_esc_or_bel
  scan chunk s =
      if is_idle s.state && not (has_esc_or_bel chunk)
      then some (s, [])
      else scan_loop (length chunk * 2) chunk s

  -- Consecutive chunks of a pane.
  unfoldable pub scan_all : List Bytes → PaneNotifyScanner → Option Scanned
  unfolding scan
  scan_all [] s = some (s, [])
  scan_all (c ∷ cs) s = do first ← scan c s; behind first.1 (scan_all cs first.0)
