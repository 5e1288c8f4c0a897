-- ===== src/Protocol/Utf8.antt =====
-- `TextEncoder` and `TextDecoder`, as the Encoding Standard defines them. A text is the list of
-- its code points; a lone surrogate is one of them. The decoder is the standard's state machine,
-- with a replacement character for each malformed sequence, and it drops a leading U+FEFF.
pub mod RoundTrip
use tmuxcc_driver.Prelude.{
  ℕ, ◌+◌, ◌-◌, ◌*◌, ◌/◌, ◌%◌, ◌^◌, Bool, ◌&&◌, ◌||◌, List, [], ◌∷◌, ◌++◌, Bytes, ltb, leb, ◌==◌,
  if◌then◌else◌,
}

abbrev pub Text : Type 0
Text = List ℕ

abbrev pub replacement : ℕ
replacement = 0xfffd

-- The bytes of a scalar value.
unfoldable pub encode_scalar : ℕ → Bytes
encode_scalar c =
    if ltb c 0x80
    then c ∷ []
    else if ltb c 0x800
    then (0xc0 + c / 2 ^ 6) ∷ (0x80 + c % 2 ^ 6) ∷ []
    else if ltb c 0x1_0000
    then (0xe0 + c / 2 ^ 12) ∷ (0x80 + c / 2 ^ 6 % 2 ^ 6) ∷ (0x80 + c % 2 ^ 6) ∷ []
    else (0xf0 + c / 2 ^ 18)
      ∷ (0x80 + c / 2 ^ 12 % 2 ^ 6)
      ∷ (0x80 + c / 2 ^ 6 % 2 ^ 6)
      ∷ (0x80 + c % 2 ^ 6)
      ∷ []

abbrev pub is_surrogate : ℕ → Bool
is_surrogate c = leb 0xd800 c && leb c 0xdfff

unfoldable pub encode : Text → Bytes
encode [] = []
encode (c ∷ text) = encode_scalar (if is_surrogate c then replacement else c) ++ encode text

-- `needed` continuation bytes are still to come for `point`, the next of them in the range.
pub record Decoder : Type 0 where
  pub point : ℕ
  pub needed : ℕ
  pub lower : ℕ
  pub upper : ℕ

abbrev pub ready : Decoder
ready = record { point = 0; needed = 0; lower = 0x80; upper = 0xbf }

abbrev pub await : ℕ → ℕ → ℕ → ℕ → Decoder
await point needed lower upper = record {
  point = point;
  needed = needed;
  lower = lower;
  upper = upper;
}

-- A byte at the start of a sequence: the code points it completes and the next state.
unfoldable pub lead : ℕ → Text × Decoder
lead b =
    if ltb b 0x80
    then (b ∷ [], ready)
    else if ltb b 0xc2
    then (replacement ∷ [], ready)
    else if ltb b 0xe0
    then ([], await (b - 0xc0) 1 0x80 0xbf)
    else if ltb b 0xf0
    then (
      [],
      await (b - 0xe0) 2 (if b == 0xe0 then 0xa0 else 0x80) (if b == 0xed then 0x9f else 0xbf),
    )
    else if ltb b 0xf5
    then (
      [],
      await (b - 0xf0) 3 (if b == 0xf0 then 0x90 else 0x80) (if b == 0xf4 then 0x8f else 0xbf),
    )
    else (replacement ∷ [], ready)

-- A byte outside the range ends the sequence as malformed and is read again as a lead byte.
unfoldable pub continue : Decoder → ℕ → Text × Decoder
unfolding lead
continue d b =
    let point = d.point * 2 ^ 6 + (b - 0x80) in
    if ltb b d.lower || ltb d.upper b
    then (replacement ∷ (lead b).0, (lead b).1)
    else if d.needed == 1
    then (point ∷ [], ready)
    else ([], await point (d.needed - 1) 0x80 0xbf)

unfoldable pub decode_step : Decoder → ℕ → Text × Decoder
unfolding continue
decode_step d b = if d.needed == 0 then lead b else continue d b

unfoldable pub decode_from : Decoder → Bytes → Text
unfolding decode_step
decode_from d [] = if d.needed == 0 then [] else replacement ∷ []
decode_from d (b ∷ bytes) = (decode_step d b).0 ++ decode_from (decode_step d b).1 bytes

abbrev pub without_mark : Text → Text
without_mark [] = []
without_mark (c ∷ text) = if c == 0xfeff then text else c ∷ text

unfoldable pub decode : Bytes → Text
unfolding decode_from
decode bytes = without_mark (decode_from ready bytes)
