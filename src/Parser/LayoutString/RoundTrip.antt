-- ===== src/Parser/LayoutString/RoundTrip.antt =====
-- Reading back what the serializer writes.
use mathlib.Core.Logic.{inl, inr}
use tmuxcc_driver.Prelude.{
  ℕ, zero, suc, ◌+◌, ◌*◌, ◌/◌, ◌%◌, ◌≤◌, ◌<◌, ◌≡◌, ◌≢◌, ◌⊎◌, refl, ap, false, Option, none, some,
  [], ◌∷◌, ◌++◌, append_assoc, append-nil, arith, All, length, length-append, ◌^◌,
}
use tmuxcc_driver.Prelude.Int.{ℤ, pos, negsuc, IsNatural}
use tmuxcc_driver.Prelude.Decimal.{
  is_digit, IsDigit, to_decimal, decimal_from-to_decimal, to_decimal-IsDigit, to_decimal_cons,
}
use tmuxcc_driver.Parser.LayoutString.{
  Chars, Geometry, LayoutCell, Cells, leaf, split, no_cells, more, Orientation, horizontal,
  vertical, ParsedLayout, LayoutParseError, expected_width, expected_height, expected_x, expected_y,
  ok, Reader, at, digit_run, parse_int, read_uint, expect, need, parse_geometry, read_pane_id,
  parse_split, parse_body, more_children, parse_cell, parse_children, hex_value, hex_prefix, finish,
  parse_body_text, parse_layout, checksum_step, checksum_loop, layout_checksum, dump_int,
  dump_geometry, open_bracket, close_bracket, dump_pane_id, dump_cell, dump_cells, dump_more,
  hex_digit, hex_print, dump_layout,
}

-- The characters behind a number.
abbrev pub NoDigit : Chars → Type 0
NoDigit [] = Unit {0}
NoDigit (c ∷ s) = is_digit c ≡ false

digit_run_lem : (ds s : Chars) → All IsDigit ds → NoDigit s → digit_run (ds ++ s) ≡ (ds, s)
unfolding digit_run
digit_run_lem [] [] h stop = refl
digit_run_lem [] (c ∷ s) h stop = rw stop refl
digit_run_lem (d ∷ ds) s (digit, h) stop = rw digit (rw (digit_run_lem ds s h stop) refl)

pub read_uint-to_decimal :
    (n : ℕ) (s : Chars) → NoDigit s → read_uint (to_decimal n ++ s) ≡ some (n, s)
unfolding read_uint parse_int
read_uint-to_decimal n s stop =
    let (d, ds, e) = to_decimal_cons n in
    rw (digit_run_lem (to_decimal n) s (to_decimal-IsDigit n) stop)
      (rw e (rw (← e) (ap (λ (k : ℕ). some (k, s)) (decimal_from-to_decimal n))))

need-dump_int :
    (err : Chars → LayoutParseError) (z : ℤ) (s : Chars)
    → IsNatural z
    → NoDigit s
    → need err (dump_int z ++ s) ≡ ok (z, s)
unfolding need dump_int
need-dump_int err (pos n) s h stop = rw (read_uint-to_decimal n s stop, need) refl
need-dump_int err (negsuc n) s h stop = elim h [ ]

-- A geometry with no negative number.
pub record IsOnScreen (g : Geometry) : Type 0 where
  pub width : IsNatural g.width
  pub height : IsNatural g.height
  pub x : IsNatural g.x
  pub y : IsNatural g.y

pub parse_geometry-dump_geometry :
    (g : Geometry) (s : Chars)
    → IsOnScreen g
    → NoDigit s
    → parse_geometry (dump_geometry g ++ s) ≡ ok (g, s)
unfolding parse_geometry dump_geometry expect
parse_geometry-dump_geometry g s on stop =
    let s₃ = dump_int g.y ++ s in
    let s₂ = dump_int g.x ++ b',' ∷ s₃ in
    let s₁ = dump_int g.height ++ b',' ∷ s₂ in
    simp (
      append_assoc,
      need-dump_int expected_width g.width (b'x' ∷ s₁) on.width refl,
      need-dump_int expected_height g.height (b',' ∷ s₂) on.height refl,
      need-dump_int expected_x g.x (b',' ∷ s₃) on.x refl,
      need-dump_int expected_y g.y s on.y stop,
    )

-- What may follow a cell: nothing that a number, a pane id or a split could go on with.
pub record Follows (s : Chars) : Type 0 where
  pub no_digit : NoDigit s
  pub no_times : at b'x' s ≡ false
  pub no_pane : read_pane_id s ≡ (none, s)
  pub no_row : at b'{' s ≡ false
  pub no_column : at b'[' s ≡ false

-- The end of a list of children.
abbrev pub Closes : Chars → Type 0
Closes [] = ⊥
Closes (c ∷ s) = (c ≡ b'}') ⊎ (c ≡ b']')

pub Follows-nil : Follows []
unfolding read_pane_id at
Follows-nil = record {
  no_digit = tt;
  no_times = refl;
  no_pane = refl;
  no_row = refl;
  no_column = refl;
}

Closes-Follows : (s : Chars) → Closes s → Follows s
unfolding read_pane_id at
Closes-Follows [] h = elim h [ ]
Closes-Follows (c ∷ s) (inl e) = ground arith
Closes-Follows (c ∷ s) (inr e) = ground arith

Follows-sibling :
    (g : Geometry) (s : Chars) → IsOnScreen g → Follows (b',' ∷ (dump_geometry g ++ s))
unfolding read_pane_id at dump_geometry need read_uint dump_int
Follows-sibling g s on = record {
  no_digit = refl;
  no_times = refl;
  no_pane = no_pane_lem g.width on.width;
  no_row = refl;
  no_column = refl;
}
  where
    tail : Chars
    tail = dump_int g.height ++ b',' ∷ (dump_int g.x ++ b',' ∷ dump_int g.y)

    no_pane_lem :
        (w : ℤ)
        → IsNatural w
        → read_pane_id (b',' ∷ ((dump_int w ++ b'x' ∷ tail) ++ s))
          ≡ (none, b',' ∷ ((dump_int w ++ b'x' ∷ tail) ++ s))
    no_pane_lem (pos n) h = rw (append_assoc, read_uint-to_decimal n (b'x' ∷ (tail ++ s)) refl) refl
    no_pane_lem (negsuc n) h = elim h [ ]

read_pane_id-to_decimal :
    (id : ℕ) (s : Chars)
    → NoDigit s
    → at b'x' s ≡ false
    → read_pane_id (b',' ∷ (to_decimal id ++ s)) ≡ (some id, s)
unfolding read_pane_id read_uint at
read_pane_id-to_decimal id s stop times = rw (read_uint-to_decimal id s stop) (rw times refl)

-- The pane id of a leaf is read back, and an unassigned leaf has none.
parse_body-dump_pane_id :
    (children : Reader Cells) (g : Geometry) (id : Option ℕ) (s : Chars)
    → Follows s
    → parse_body children g (dump_pane_id id ++ s) ≡ ok (leaf g id, s)
unfolding parse_body dump_pane_id at
parse_body-dump_pane_id children g none s f = rw (f.no_row) (rw (f.no_column) (rw (f.no_pane) refl))
parse_body-dump_pane_id children g (some id) s f =
    rw (read_pane_id-to_decimal id s f.no_digit f.no_times) refl

-- The cells that the serializer writes so that they can be read: no negative number, and no split
-- with an empty list of children.
abbrev mutual
  pub IsReadable : LayoutCell → Type 0
  IsReadable (leaf g id) = IsOnScreen g
  IsReadable (split o g cells) = IsOnScreen g × (cells ≢ no_cells) × AreReadable cells

  pub AreReadable : Cells → Type 0
  AreReadable no_cells = Unit {0}
  AreReadable (more cell cells) = IsReadable cell × AreReadable cells

NoDigit-dump_pane_id : (id : Option ℕ) (s : Chars) → Follows s → NoDigit (dump_pane_id id ++ s)
unfolding dump_pane_id
NoDigit-dump_pane_id none s f = f.no_digit
NoDigit-dump_pane_id (some id) s f = refl

parse_body_split :
    (children : Reader Cells) (o : Orientation) (g : Geometry) (cells : Cells) (inner s : Chars)
    → children (inner ++ close_bracket o ∷ s) ≡ ok (cells, close_bracket o ∷ s)
    → parse_body children g (open_bracket o ∷ (inner ++ close_bracket o ∷ s))
      ≡ ok (split o g cells, s)
unfolding parse_body parse_split expect at
parse_body_split children horizontal g cells inner s h = rw h refl
parse_body_split children vertical g cells inner s h = rw h refl

NoDigit-open_bracket : (o : Orientation) (s : Chars) → NoDigit (open_bracket o ∷ s)
NoDigit-open_bracket horizontal s = refl
NoDigit-open_bracket vertical s = refl

Closes-close_bracket : (o : Orientation) (s : Chars) → Closes (close_bracket o ∷ s)
Closes-close_bracket horizontal s = inl refl
Closes-close_bracket vertical s = inr refl

Follows-dump_more :
    (cells : Cells) (s : Chars) → AreReadable cells → Closes s → Follows (dump_more cells ++ s)
unfolding dump_more dump_cell
Follows-dump_more no_cells s h c = Closes-Follows s c
Follows-dump_more (more (leaf g id) cells) s h c =
    simp append_assoc (Follows-sibling g (dump_pane_id id ++ (dump_more cells ++ s)) h.0)
Follows-dump_more (more (split o g inner) cells) s h c = simp append_assoc (
    Follows-sibling g
      (open_bracket o ∷ (dump_cells inner ++ close_bracket o ∷ (dump_more cells ++ s))) h.0.0)

more_children_end :
    (children : Reader Cells) (s : Chars) → Closes s → more_children children s ≡ ok (no_cells, s)
unfolding more_children at
more_children_end children [] h = elim h [ ]
more_children_end children (c ∷ s) (inl e) = ground arith
more_children_end children (c ∷ s) (inr e) = ground arith

-- A list of children is what stands behind a comma, its first one included.
dump_cells-ne-nil : (cells : Cells) → cells ≢ no_cells → b',' ∷ dump_cells cells ≡ dump_more cells
unfolding dump_cells
dump_cells-ne-nil no_cells h = absurd (h refl)
dump_cells-ne-nil (more cell cells) h = refl

parse_children-more_children :
    (fuel : ℕ) (cells : Cells) (s : Chars)
    → cells ≢ no_cells
    → more_children (parse_children fuel) (dump_more cells ++ s) ≡ ok (cells, s)
    → parse_children fuel (dump_cells cells ++ s) ≡ ok (cells, s)
unfolding more_children at
parse_children-more_children fuel cells s some_cell h =
    rw (← dump_cells-ne-nil cells some_cell) at h

mutual
  unfolding parse_cell dump_cell dump_cells more_children at

  parse_cell_lem :
      (cell : LayoutCell) (fuel : ℕ) (s : Chars)
      → IsReadable cell
      → Follows s
      → 2 * length (dump_cell cell) < fuel
      → parse_cell fuel (dump_cell cell ++ s) ≡ ok (cell, s)
  parse_cell_lem cell zero s h f enough = absurd (omega arith)
  parse_cell_lem (leaf g id) (suc fuel) s h f enough =
      rw
        (
          append_assoc,
          parse_geometry-dump_geometry g (dump_pane_id id ++ s) h (NoDigit-dump_pane_id id s f),
        )
        (parse_body-dump_pane_id (parse_children fuel) g id s f)
  parse_cell_lem (split o g cells) (suc fuel) s (on, some_cell, h) f enough =
      let inner = dump_cells cells in
      let size : 2 * length (dump_more cells) ≤ fuel = omega (
        arith,
        ap length (dump_cells-ne-nil cells some_cell),
        length-append (dump_geometry g) (open_bracket o ∷ (inner ++ close_bracket o ∷ [])),
        length-append inner (close_bracket o ∷ []),
      ) in
      let read : parse_children fuel (inner ++ close_bracket o ∷ s)
          ≡ ok (cells, close_bracket o ∷ s) =
        parse_children-more_children fuel cells (close_bracket o ∷ s) some_cell
          (more_children_lem cells fuel (close_bracket o ∷ s) h (Closes-close_bracket o s) size) in
      simp append_assoc (
        rw
          (parse_geometry-dump_geometry g (open_bracket o ∷ (inner ++ close_bracket o ∷ s)) on
            (NoDigit-open_bracket o (inner ++ close_bracket o ∷ s)))
          (parse_body_split (parse_children fuel) o g cells inner s read))

  more_children_lem :
      (cells : Cells) (fuel : ℕ) (s : Chars)
      → AreReadable cells
      → Closes s
      → 2 * length (dump_more cells) ≤ fuel
      → more_children (parse_children fuel) (dump_more cells ++ s) ≡ ok (cells, s)
  more_children_lem no_cells fuel s h c enough = more_children_end (parse_children fuel) s c
  more_children_lem (more cell cells) zero s (h, hs) c enough = absurd (omega arith)
  more_children_lem (more cell cells) (suc fuel) s (h, hs) c enough =
      let sizes = length-append (dump_cell cell) (dump_more cells) in
      rw
        (
          append_assoc,
          parse_cell_lem cell fuel (dump_more cells ++ s) h (Follows-dump_more cells s hs c)
              (omega (arith, sizes)),
        )
        (rw (more_children_lem cells fuel s hs c (omega (arith, sizes))) refl)

hex_value-hex_digit : (n : ℕ) → n < 16 → hex_value (hex_digit n) ≡ some n
unfolding hex_value hex_digit
hex_value-hex_digit n h = ground arith

hex_prefix_lem :
    (a b c d p q r s : ℕ)
    → hex_value a ≡ some p
    → hex_value b ≡ some q
    → hex_value c ≡ some r
    → hex_value d ≡ some s
    → hex_prefix a b c d ≡ some (((p * 16 + q) * 16 + r) * 16 + s)
unfolding hex_prefix
hex_prefix_lem a b c d p q r s h i j k = ground arith

checksum_loop-lt : (csum : ℕ) (s : Chars) → csum < 2 ^ 16 → checksum_loop csum s < 2 ^ 16
unfolding checksum_loop checksum_step
checksum_loop-lt csum [] h = h
checksum_loop-lt csum (c ∷ s) h = checksum_loop-lt (checksum_step csum c) s (omega arith)

pub layout_checksum-lt : (body : Chars) → layout_checksum body < 2 ^ 16
unfolding layout_checksum
layout_checksum-lt body = checksum_loop-lt 0 body (omega arith)

nibbles :
    (n : ℕ)
    → n < 2 ^ 16
    → ((n / 4096 % 16 * 16 + n / 256 % 16) * 16 + n / 16 % 16) * 16 + n % 16 ≡ n
nibbles n h = omega arith

parse_layout_print :
    (n : ℕ) (body : Chars)
    → n < 2 ^ 16
    → parse_layout (hex_print n ++ b',' ∷ body) ≡ parse_body_text (some n) body
unfolding parse_layout hex_print
parse_layout_print n body h =
    rw
      (hex_prefix_lem _ _ _ _ _ _ _ _ (hex_value-hex_digit (n / 4096 % 16) (omega arith))
        (hex_value-hex_digit (n / 256 % 16) (omega arith))
        (hex_value-hex_digit (n / 16 % 16) (omega arith))
        (hex_value-hex_digit (n % 16) (omega arith)))
      (ap (λ (m : ℕ). parse_body_text (some m) body) (nibbles n h))

-- A layout whose numbers are not negative and whose splits all have children is read back from what
-- dumpLayout writes of it: the same tree, under its own checksum, which is also the one computed.
pub parse_layout-dump_layout :
    (l : ParsedLayout)
    → IsReadable l.root
    → let csum = layout_checksum (dump_cell l.root) in
      parse_layout (dump_layout l)
      ≡ ok (record { checksum = csum; computed_checksum = csum; root = l.root })
unfolding dump_layout parse_body_text finish
parse_layout-dump_layout l h =
    let body = dump_cell l.root in
    rw (parse_layout_print (layout_checksum body) body (layout_checksum-lt body)) (
      let read = parse_cell_lem l.root (2 * length body + 1) [] h Follows-nil (omega arith) in
      rw (rw append-nil at read) refl)
