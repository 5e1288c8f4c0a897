-- ===== src/Parser/OutputCodec/Notification.antt =====
-- Reading back the pane and the bytes from whole %output and %extended-output lines.
use tmuxcc_driver.Prelude.{
  ℕ, ◌+◌, ◌-◌, ◌*◌, ◌≡◌, ◌≢◌, refl, ap, Bool, true, false, some, List, [], ◌∷◌, ◌++◌, arith, Bytes,
  AreBytes, All, if◌then◌else◌,
}
use tmuxcc_driver.Prelude.Keyed.{list_keyed, codes}
use tmuxcc_driver.Parser.OutputCodec.{
  percent, space, encode_output_payload, skip_to_space, skip_byte, is_digit, read_digits,
  read_decimal, skip_latency, parse_output_notification,
}
use tmuxcc_driver.Parser.OutputCodec.RoundTrip.{decode-encode}

abbrev pub IsDigit : ℕ → Type 0
IsDigit b = is_digit b ≡ true

-- The number that a run of digits stands for, behind one that was read before.
abbrev pub decimal_from : ℕ → Bytes → ℕ
decimal_from value [] = value
decimal_from value (d ∷ ds) = decimal_from (value * 10 + (d - 0x30)) ds

pub read_digits_lem :
    (value : ℕ) (ds : Bytes) (c : ℕ) (rest : Bytes)
    → All IsDigit ds
    → is_digit c ≡ false
    → read_digits value (ds ++ c ∷ rest) ≡ (decimal_from value ds, c ∷ rest)
unfolding read_digits
read_digits_lem value [] c rest h stop = rw stop
read_digits_lem value (d ∷ ds) c rest (digit, h) stop =
    rw digit (read_digits_lem (value * 10 + (d - 0x30)) ds c rest h stop)

pub read_decimal_lem :
    (d : ℕ) (ds : Bytes) (c : ℕ) (rest : Bytes)
    → All IsDigit (d ∷ ds)
    → is_digit c ≡ false
    → read_decimal ((d ∷ ds) ++ c ∷ rest) ≡ some (decimal_from 0 (d ∷ ds), c ∷ rest)
unfolding read_decimal
read_decimal_lem d ds c rest (digit, h) stop =
    rw digit (ap some (read_digits_lem 0 (d ∷ ds) c rest (digit, h) stop))

pub skip_to_space_lem :
    (word rest : Bytes)
    → All (λ b. b ≢ space) word
    → skip_to_space (word ++ space ∷ rest) ≡ space ∷ rest
unfolding skip_to_space
skip_to_space_lem [] rest h = refl
skip_to_space_lem (b ∷ word) rest (other, h) = ground (arith, skip_to_space_lem word rest h)

skip_byte_lem : (c : ℕ) (rest : Bytes) → skip_byte c (c ∷ rest) ≡ some rest
unfolding skip_byte
skip_byte_lem c rest = ground arith

skip_latency_lem :
    (latency payload : Bytes)
    → All IsDigit latency
    → skip_latency (space ∷ (latency ++ space ∷ 0x3a ∷ space ∷ payload)) ≡ some payload
unfolding skip_latency skip_byte
skip_latency_lem latency payload h =
    rw (read_digits_lem 0 latency space (0x3a ∷ space ∷ payload) h refl) refl

-- The parts of a line behind its keyword, for either kind of notification.
abbrev pub framing : Bool → Bytes → Bytes → Bytes
framing true latency payload = space ∷ (latency ++ space ∷ 0x3a ∷ space ∷ payload)
framing false latency payload = space ∷ payload

read_framed :
    (d : ℕ) (ds : Bytes) (extended : Bool) (latency payload : Bytes)
    → All IsDigit (d ∷ ds)
    → read_decimal ((d ∷ ds) ++ framing extended latency payload)
      ≡ some (decimal_from 0 (d ∷ ds), framing extended latency payload)
read_framed d ds true latency payload id =
    read_decimal_lem d ds space (latency ++ space ∷ 0x3a ∷ space ∷ payload) id refl
read_framed d ds false latency payload id = read_decimal_lem d ds space payload id refl

open_framing :
    (extended : Bool) (latency payload : Bytes)
    → All IsDigit latency
    → (if extended
        then skip_latency (framing extended latency payload)
        else skip_byte space (framing extended latency payload))
      ≡ some payload
open_framing true latency payload digits = skip_latency_lem latency payload digits
open_framing false latency payload digits = skip_byte_lem space payload

-- A line that tmux writes for pane bytes, `%output %<id> <escaped>` or
-- `%extended-output %<id> <latency> : <escaped>` with any digits for the id and the latency, is
-- parsed to that id and exactly those bytes.
pub parse_output_notification_lem :
    (keyword : List ℕ) (word : Bytes) (d : ℕ) (ds latency raw : Bytes)
    → All (λ b. b ≢ space) word
    → All IsDigit (d ∷ ds)
    → All IsDigit latency
    → AreBytes raw
    → parse_output_notification (record {
      keyword = keyword;
      raw_line =
          word
          ++ space
            ∷ percent
            ∷ ((d ∷ ds)
                ++ framing
                    (list_keyed.matches keyword (codes "extended-output"))
                    latency
                    (encode_output_payload raw));
    })
      ≡ some (record { pane_id = decimal_from 0 (d ∷ ds); bytes = raw })
unfolding parse_output_notification
parse_output_notification_lem keyword word d ds latency raw plain id digits bytes =
    let extended = list_keyed.matches keyword (codes "extended-output") in
    let payload = encode_output_payload raw in
    rw
      (
        skip_to_space_lem word (percent ∷ ((d ∷ ds) ++ framing extended latency payload)) plain,
        skip_byte_lem space,
        skip_byte_lem percent,
        read_framed d ds extended latency payload id,
        open_framing extended latency payload digits,
        decode-encode raw bytes,
      )
      refl
