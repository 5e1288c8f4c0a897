-- ===== src/Parser/OutputCodec.antt =====
-- packages/driver/src/parser/output-codec.ts: the octal escapes of %output payloads.
-- A cursor `i` into a byte array is the list of the bytes from `i` on; a slice shares no state.
pub mod RoundTrip
pub mod Notification
pub mod Tests
use Prim.Native.Nat.{bit_or}
use tmuxcc_driver.Prelude.{
  ℕ, ◌+◌, ◌-◌, ◌*◌, ◌/◌, ◌%◌, ◌^◌, Bool, true, false, not, ◌&&◌, ◌||◌, Option, none, some, List, [],
  ◌∷◌, ◌++◌, Bytes, ltb, leb, ◌==◌, if◌then◌else◌,
}
use tmuxcc_driver.Prelude.Buffers.{◌>>=◌}
use tmuxcc_driver.Prelude.Keyed.{list_keyed, codes}
use tmuxcc_driver.Parser.Tokens.{NotificationToken}

abbrev pub backslash : ℕ
backslash = 0x5c

abbrev pub percent : ℕ
percent = 0x25

abbrev pub space : ℕ
space = 0x20

unfoldable pub is_octal_digit : ℕ → Bool
is_octal_digit b = leb 0x30 b && leb b 0x37

-- `(d1 - 0x30) << 6 | (d2 - 0x30) << 3 | (d3 - 0x30)`, masked to a byte.
unfoldable pub octal_value : ℕ → ℕ → ℕ → ℕ
octal_value d1 d2 d3 = bit_or (bit_or ((d1 - 0x30) * 2 ^ 6) ((d2 - 0x30) * 2 ^ 3)) (d3 - 0x30) % 256

-- The first clause is the case `i + 3 < payload.length`.
pub decode_output_payload : Bytes → Bytes
unfolding is_octal_digit
decode_output_payload [] = []
decode_output_payload (b ∷ d1 ∷ d2 ∷ d3 ∷ rest) =
    let escaped = octal_value d1 d2 d3 ∷ decode_output_payload rest in
    let next = decode_output_payload (d1 ∷ d2 ∷ d3 ∷ rest) in
    if not (b == backslash)
    then b ∷ next
    else if is_octal_digit d1 && is_octal_digit d2 && is_octal_digit d3
    then escaped
    else backslash ∷ next
decode_output_payload (b ∷ rest) =
    let next = decode_output_payload rest in
    if not (b == backslash) then b ∷ next else backslash ∷ next

-- One round of the loop of `encodeOutputPayload`.
abbrev pub encode_byte : ℕ → Bytes
encode_byte b =
    if ltb b 0x20 || b == backslash
    then backslash ∷ (0x30 + b / 2 ^ 6 % 8) ∷ (0x30 + b / 2 ^ 3 % 8) ∷ (0x30 + b % 8) ∷ []
    else b ∷ []

unfoldable pub encode_output_payload : Bytes → Bytes
encode_output_payload [] = []
encode_output_payload (b ∷ raw) = encode_byte b ++ encode_output_payload raw

pub record OutputNotification : Type 0 where
  pub pane_id : ℕ
  pub bytes : Bytes

-- `while (i < line.length && line[i] !== SPACE) i++`
unfoldable pub skip_to_space : Bytes → Bytes
skip_to_space [] = []
skip_to_space (b ∷ rest) = let later = skip_to_space rest in if b == space then b ∷ rest else later

-- One byte that has to be there; `null` when it is another, or the line ends.
unfoldable pub skip_byte : ℕ → Bytes → Option Bytes
skip_byte c [] = none
skip_byte c (b ∷ rest) = if b == c then some rest else none

abbrev pub is_digit : ℕ → Bool
is_digit b = leb 0x30 b && leb b 0x39

-- The loop that reads a decimal number, with what is left of the line.
unfoldable pub read_digits : ℕ → Bytes → ℕ × Bytes
read_digits value [] = (value, [])
read_digits value (b ∷ rest) =
    let later = read_digits (value * 10 + (b - 0x30)) rest in
    if is_digit b then later else (value, b ∷ rest)

-- The number and the rest, or `null` when the first byte is no digit.
unfoldable pub read_decimal : Bytes → Option (ℕ × Bytes)
read_decimal [] = none
read_decimal (b ∷ rest) = if is_digit b then some (read_digits 0 (b ∷ rest)) else none

-- Behind the pane id of `%extended-output`: ` <latency> : `.
unfoldable pub skip_latency : Bytes → Option Bytes
skip_latency line = do
  digits ← skip_byte space line
  at_space ← some (read_digits 0 digits).1
  at_colon ← skip_byte space at_space
  at_last ← skip_byte 0x3a at_colon
  skip_byte space at_last

unfoldable pub parse_output_notification : NotificationToken → Option OutputNotification
parse_output_notification token = do
  at_sigil ← skip_byte space (skip_to_space token.raw_line)
  at_id ← skip_byte percent at_sigil
  numbered ← read_decimal at_id
  payload ←
      if list_keyed.matches token.keyword (codes "extended-output")
      then skip_latency numbered.1
      else skip_byte space numbered.1
  some (record { pane_id = numbered.0; bytes = decode_output_payload payload })
