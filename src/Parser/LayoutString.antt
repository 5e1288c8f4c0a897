-- ===== src/Parser/LayoutString.antt =====
-- packages/driver/src/parser/layout-string.ts, the read direction and the serializer.
-- A text is the list of its UTF-16 code units; a cursor is what is left behind its position.
-- Numbers are exact: `parseInt` and `String` agree with this below 2^53.
pub mod RoundTrip
pub mod Total
pub mod Checksum
pub mod Tests
use Prim.Native.Nat.{bit_and, bit_or}
use tmuxcc_driver.Prelude.{
  ℕ, zero, suc, ◌+◌, ◌-◌, ◌*◌, ◌/◌, ◌%◌, ◌^◌, Bool, true, false, not, ◌&&◌, ◌||◌, Option, none,
  some, List, [], ◌∷◌, ◌++◌, ltb, leb, ◌==◌, if◌then◌else◌, length, drop,
}
use tmuxcc_driver.Prelude.Int.{ℤ, pos, negsuc}
use tmuxcc_driver.Prelude.Decimal.{is_digit, decimal_from, to_decimal}

abbrev pub Chars : Type 0
Chars = List ℕ

pub data Orientation : Type 0 where
  horizontal vertical : Orientation

-- What `parseGeometry` returns, and the fields that both kinds of cell share.
pub record Geometry : Type 0 where
  pub width : ℤ
  pub height : ℤ
  pub x : ℤ
  pub y : ℤ

-- `Cells` is the list of a split's children.
mutual
  pub data LayoutCell : Type 0 where
    leaf : Geometry → Option ℕ → LayoutCell
    split : Orientation → Geometry → Cells → LayoutCell

  pub data Cells : Type 0 where
    no_cells : Cells
    more : LayoutCell → Cells → Cells

pub record ParsedLayout : Type 0 where
  pub checksum : ℕ
  pub computed_checksum : ℕ
  pub root : LayoutCell

-- One round of the checksum: rotate right by one bit, then add the code unit.
unfoldable pub checksum_step : ℕ → ℕ → ℕ
checksum_step csum c = ((csum / 2 + csum % 2 * 2 ^ 15) % 2 ^ 16 + c) % 2 ^ 16

unfoldable pub checksum_loop : ℕ → Chars → ℕ
checksum_loop csum [] = csum
checksum_loop csum (c ∷ s) = checksum_loop (checksum_step csum c) s

unfoldable pub layout_checksum : Chars → ℕ
layout_checksum body = checksum_loop 0 body

-- What a thrown `LayoutParseError` says; the position is that of the characters left.
pub data LayoutParseError : Type 0 where
  expected_char : ℕ → Chars → LayoutParseError
  expected_width expected_height expected_x expected_y : Chars → LayoutParseError
  bad_prefix bad_checksum : LayoutParseError
  trailing_input : Chars → LayoutParseError

-- `out_of_fuel` is no outcome of the program: `parse_layout` never gives it.
pub data Result {ℓ} (A : Type ℓ) : Type ℓ where
  ok : A → Result A
  failed : LayoutParseError → Result A
  out_of_fuel : Result A

-- A function over the cursor.
abbrev pub Reader : Type 0 → Type 0
Reader A = Chars → Result (A × Chars)

abbrev pub and_then {ℓ κ} : {A : Type ℓ} {B : Type κ} → Result A → (A → Result B) → Result B
and_then (ok a) f = f a
and_then (failed e) f = failed e
and_then out_of_fuel f = out_of_fuel

infixl 5 ◌>>=◌ ◌>>◌
abbrev pub ◌>>=◌ : {A B : Type 0} → Reader A → (A → Reader B) → Reader B
r >>= f = λ s. and_then (r s) λ (a, rest). f a rest

abbrev pub ◌>>◌ : {A B : Type 0} → Reader A → Reader B → Reader B
r >> q = r >>= λ _. q

abbrev pub pure : {A : Type 0} → A → Reader A
pure a s = ok (a, s)

-- Whether the character at the cursor is `c`; false at the end.
unfoldable pub at : ℕ → Chars → Bool
at c [] = false
at c (d ∷ s) = d == c

-- The loop of `readUint`: the digits at the cursor, and what follows them.
unfoldable pub digit_run : Chars → Chars × Chars
digit_run [] = ([], [])
digit_run (c ∷ s) =
    let later = digit_run s in if is_digit c then (c ∷ later.0, later.1) else ([], c ∷ s)

unfoldable pub parse_int : Chars → ℕ
parse_int ds = decimal_from 0 ds

some_number : Chars × Chars → Option (ℕ × Chars)
some_number ([], s) = none
some_number (d ∷ ds, s) = some (parse_int (d ∷ ds), s)

unfoldable pub read_uint : Chars → Option (ℕ × Chars)
unfolding some_number
read_uint s = some_number (digit_run s)

unfoldable pub expect : ℕ → Reader (Unit {0})
expect c [] = failed (expected_char c [])
expect c (d ∷ s) = if d == c then ok (tt, s) else failed (expected_char c (d ∷ s))

-- A number, or the error that the caller throws at `null`.
unfoldable pub need : (Chars → LayoutParseError) → Reader ℤ
need err s = elim (read_uint s) [ none ↦ failed (err s) | some (n, rest) ↦ ok (pos n, rest) ]

unfoldable pub parse_geometry : Reader Geometry
parse_geometry = do
  width ← need expected_width
  expect b'x'
  height ← need expected_height
  expect b','
  x ← need expected_x
  expect b','
  y ← need expected_y
  pure (record { width = width; height = height; x = x; y = y })

-- The leaf branch: a comma, then a number that is no width of a sibling.
pane_id : Chars → Option (ℕ × Chars) → Option ℕ × Chars
pane_id saved none = (none, saved)
pane_id saved (some (id, rest)) = if at b'x' rest then (none, saved) else (some id, rest)

unfoldable pub read_pane_id : Chars → Option ℕ × Chars
unfolding pane_id
read_pane_id s = if at b',' s then pane_id s (read_uint (drop 1 s)) else (none, s)

unfoldable pub parse_split : Reader Cells → Orientation → ℕ → Geometry → Reader LayoutCell
parse_split children o close g = do cells ← children; expect close; pure (split o g cells)

-- The body of a cell, behind its geometry.
unfoldable pub parse_body : Reader Cells → Geometry → Reader LayoutCell
parse_body children g s =
    if at b'{' s
    then parse_split children horizontal b'}' g (drop 1 s)
    else if at b'[' s
    then parse_split children vertical b']' g (drop 1 s)
    else ok (leaf g (read_pane_id s).0, (read_pane_id s).1)

-- The `while` loop of `parseChildren`: a comma, and the loop's body with the rounds behind it.
unfoldable pub more_children : Reader Cells → Reader Cells
more_children children s = if at b',' s then children (drop 1 s) else ok (no_cells, s)

-- Each call costs a unit of fuel.
unfoldable mutual
  pub parse_cell : ℕ → Reader LayoutCell
  parse_cell zero s = out_of_fuel
  parse_cell (suc fuel) s = (parse_geometry >>= parse_body (parse_children fuel)) s

  pub parse_children : ℕ → Reader Cells
  parse_children zero s = out_of_fuel
  parse_children (suc fuel) s =
      (parse_cell fuel >>= λ cell.
      more_children (parse_children fuel) >>= λ cells. pure (more cell cells))
        s

unfoldable pub hex_value : ℕ → Option ℕ
hex_value c =
    if is_digit c
    then some (c - 0x30)
    else if leb b'a' c && leb c b'f'
    then some (c - b'a' + 10)
    else if leb b'A' c && leb c b'F'
    then some (c - b'A' + 10)
    else none

-- The test of the prefix against `/^[0-9a-f]{4}$/i` with the value of `parseInt(_, 16)`.
unfoldable pub hex_prefix : ℕ → ℕ → ℕ → ℕ → Option ℕ
hex_prefix a b c d = elim (hex_value a) [
  | none ↦ none
  | some a' ↦ elim (hex_value b) [
    | none ↦ none
    | some b' ↦ elim (hex_value c) [
      | none ↦ none
      | some c' ↦ elim (hex_value d) [
        | none ↦ none
        | some d' ↦ some (((a' * 16 + b') * 16 + c') * 16 + d')
      ]
    ]
  ]
]

-- What is checked once the root is read, and the result.
unfoldable pub finish : ℕ → Chars → LayoutCell × Chars → Result ParsedLayout
finish checksum body (root, []) =
    ok (record { checksum = checksum; computed_checksum = layout_checksum body; root = root })
finish checksum body (root, c ∷ rest) = failed (trailing_input (c ∷ rest))

unfoldable pub parse_body_text : Option ℕ → Chars → Result ParsedLayout
parse_body_text none body = failed bad_checksum
parse_body_text (some checksum) body =
    and_then (parse_cell (2 * length body + 1) body) (finish checksum body)

unfoldable pub parse_layout : Chars → Result ParsedLayout
parse_layout (a ∷ b ∷ c ∷ d ∷ e ∷ body) =
    if e == b',' then parse_body_text (hex_prefix a b c d) body else failed bad_prefix
parse_layout _ = failed bad_prefix

unfoldable pub dump_int : ℤ → Chars
dump_int (pos n) = to_decimal n
dump_int (negsuc n) = b'-' ∷ to_decimal (suc n)

unfoldable pub dump_geometry : Geometry → Chars
dump_geometry g =
    dump_int g.width ++ b'x' ∷ (dump_int g.height ++ b',' ∷ (dump_int g.x ++ b',' ∷ dump_int g.y))

abbrev pub open_bracket : Orientation → ℕ
open_bracket horizontal = b'{'
open_bracket vertical = b'['

abbrev pub close_bracket : Orientation → ℕ
close_bracket horizontal = b'}'
close_bracket vertical = b']'

unfoldable pub dump_pane_id : Option ℕ → Chars
dump_pane_id none = []
dump_pane_id (some id) = b',' ∷ to_decimal id

-- `dump_more` are the children behind the first, each behind a comma: the rest of the `join`.
unfoldable mutual
  pub dump_cell : LayoutCell → Chars
  dump_cell (leaf g id) = dump_geometry g ++ dump_pane_id id
  dump_cell (split o g cells) =
      dump_geometry g ++ open_bracket o ∷ (dump_cells cells ++ close_bracket o ∷ [])

  pub dump_cells : Cells → Chars
  dump_cells no_cells = []
  dump_cells (more cell cells) = dump_cell cell ++ dump_more cells

  pub dump_more : Cells → Chars
  dump_more no_cells = []
  dump_more (more cell cells) = b',' ∷ (dump_cell cell ++ dump_more cells)

unfoldable pub hex_digit : ℕ → ℕ
hex_digit n = if ltb n 10 then 0x30 + n else b'a' + (n - 10)

-- `toString(16).padStart(4, "0")` of a number below 2^16.
unfoldable pub hex_print : ℕ → Chars
hex_print n =
    hex_digit (n / 4096 % 16)
    ∷ hex_digit (n / 256 % 16)
    ∷ hex_digit (n / 16 % 16)
    ∷ hex_digit (n % 16)
    ∷ []

unfoldable pub dump_layout : ParsedLayout → Chars
dump_layout l = let body = dump_cell l.root in hex_print (layout_checksum body) ++ b',' ∷ body
