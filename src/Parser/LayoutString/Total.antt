-- ===== src/Parser/LayoutString/Total.antt =====
-- The reader ends on every text: each call reads something, so the fuel of `parse_layout` is enough.
use tmuxcc_driver.Prelude.{
  ℕ, zero, suc, ◌+◌, ◌-◌, ◌*◌, ◌≤◌, ◌<◌, ◌≡◌, ◌≢◌, ◌⊎◌, inl, inr, refl, true, Option, none, some,
  [], ◌∷◌, ◌==◌, arith, length, drop, Bool-cases,
}
use tmuxcc_driver.Prelude.Int.{pos}
use tmuxcc_driver.Parser.LayoutString.{
  Chars, Geometry, LayoutCell, Cells, Orientation, horizontal, vertical, ParsedLayout,
  LayoutParseError, expected_width, expected_height, expected_x, expected_y, Result, ok, failed,
  out_of_fuel, Reader, and_then, at, digit_run, read_uint, expect, need, parse_geometry, pane_id,
  read_pane_id, parse_split, parse_body, more_children, parse_cell, parse_children, hex_prefix,
  finish, parse_body_text, parse_layout,
}

-- The reader ended, and left at most `n` characters where it succeeded.
abbrev Leaves {ℓ} : {A : Type ℓ} → ℕ → Result (A × Chars) → Type 0
Leaves n (ok (a, rest)) = length rest ≤ n
Leaves n (failed e) = Unit {0}
Leaves n out_of_fuel = ⊥

Leaves-and_then :
    {A B : Type 0} (m n : ℕ) (r : Result (A × Chars)) (f : A → Reader B)
    → Leaves m r
    → ((a : A) (s : Chars) → length s ≤ m → Leaves n (f a s))
    → Leaves n (and_then r λ (a, rest). f a rest)
Leaves-and_then m n (ok (a, rest)) f h k = k a rest h
Leaves-and_then m n (failed e) f h k = tt
Leaves-and_then m n out_of_fuel f h k = elim h [ ]

length-digit_run : (s : Chars) → length (digit_run s).1 ≤ length s
unfolding digit_run
length-digit_run [] = omega arith
length-digit_run (c ∷ s) = ground (arith, length-digit_run s)

-- A number takes a character at least.
read_uint_shorter :
    (s : Chars) (n : ℕ) (rest : Chars) → read_uint s ≡ some (n, rest) → length rest < length s
unfolding read_uint digit_run
read_uint_shorter [] n rest h = cc
read_uint_shorter (c ∷ s) n rest h = ground (arith, length-digit_run s)

need-Leaves :
    (err : Chars → LayoutParseError) (n : ℕ) (s : Chars) → length s ≤ suc n → Leaves n (need err s)
unfolding need
need-Leaves err n s h = elim_on (read_uint s) (read_uint_shorter s)
  where
    elim_on :
        (o : Option (ℕ × Chars))
        → ((k : ℕ) (rest : Chars) → o ≡ some (k, rest) → length rest < length s)
        → Leaves n (elim o [ none ↦ failed (err s) | some (k, rest) ↦ ok (pos k, rest) ])
    elim_on none _ = tt
    elim_on (some (k, rest)) shorter = let fact = shorter k rest refl in omega arith

expect-Leaves : (c n : ℕ) (s : Chars) → length s ≤ n → Leaves n (expect c s)
unfolding expect
expect-Leaves c n [] h = tt
expect-Leaves c n (d ∷ s) h = elim (Bool-cases (d == c)) [
  | inl same ↦ rw same (omega arith)
  | inr other ↦ rw other tt
]

parse_geometry-Leaves : (n : ℕ) (s : Chars) → length s ≤ suc n → Leaves n (parse_geometry s)
unfolding parse_geometry
parse_geometry-Leaves n s h =
    Leaves-and_then n n (need expected_width s) _ (need-Leaves expected_width n s h) λ w s₁ h₁.
      Leaves-and_then n n (expect b'x' s₁) _ (expect-Leaves b'x' n s₁ h₁) λ _ s₂ h₂.
        Leaves-and_then n n (need expected_height s₂) _
          (need-Leaves expected_height n s₂ (omega arith))
          λ v s₃ h₃. Leaves-and_then n n (expect b',' s₃) _ (expect-Leaves b',' n s₃ h₃) λ _ s₄ h₄.
            Leaves-and_then n n (need expected_x s₄) _ (need-Leaves expected_x n s₄ (omega arith))
              λ x s₅ h₅.
                Leaves-and_then n n (expect b',' s₅) _ (expect-Leaves b',' n s₅ h₅) λ _ s₆ h₆.
                  Leaves-and_then n n (need expected_y s₆) _
                    (need-Leaves expected_y n s₆ (omega arith)) λ y s₇ h₇. h₇

length-drop_one : (s : Chars) → length (drop 1 s) ≤ length s
length-drop_one [] = omega arith
length-drop_one (c ∷ s) = omega arith

-- Behind a character that is there.
at-length : (c : ℕ) (s : Chars) → at c s ≡ true → suc (length (drop 1 s)) ≡ length s
unfolding at
at-length c [] h = cc
at-length c (d ∷ s) h = refl

length-pane_id :
    (s : Chars) (o : Option (ℕ × Chars))
    → ((id : ℕ) (rest : Chars) → o ≡ some (id, rest) → length rest ≤ length s)
    → length (pane_id s o).1 ≤ length s
unfolding pane_id
length-pane_id s none h = omega arith
length-pane_id s (some (id, rest)) h = elim (Bool-cases (at b'x' rest)) [
  | inl width ↦ rw width (omega arith)
  | inr free ↦ rw free (h id rest refl)
]

length-read_pane_id : (s : Chars) → length (read_pane_id s).1 ≤ length s
unfolding read_pane_id
length-read_pane_id s = elim (Bool-cases (at b',' s)) [
  | inl comma ↦ rw comma (
      length-pane_id s (read_uint (drop 1 s))
        λ id rest e. omega (arith, length-drop_one s, read_uint_shorter (drop 1 s) id rest e))
  | inr other ↦ rw other (omega arith)
]

-- What is asked of the reader of a list of children: that it ends on every shorter text.
abbrev Ends : ℕ → Reader Cells → Type 0
Ends n children = (m : ℕ) (s : Chars) → m < n → length s ≤ m → Leaves m (children s)

parse_split-Leaves :
    (n : ℕ) (children : Reader Cells) (o : Orientation) (close : ℕ) (g : Geometry) (s : Chars)
    → Leaves n (children s)
    → Leaves n (parse_split children o close g s)
unfolding parse_split
parse_split-Leaves n children o close g s h = Leaves-and_then n n (children s) _ h λ cells s₁ h₁.
    Leaves-and_then n n (expect close s₁) _ (expect-Leaves close n s₁ h₁) λ _ s₂ h₂. h₂

parse_body-Leaves :
    (n : ℕ) (children : Reader Cells) (g : Geometry) (s : Chars)
    → length s ≤ n
    → ((t : Chars) → length t < length s → Leaves n (children t))
    → Leaves n (parse_body children g s)
unfolding parse_body
parse_body-Leaves n children g s h ends = elim (Bool-cases (at b'{' s)) [
  | inl row ↦ rw row (
      parse_split-Leaves n children horizontal b'}' g (drop 1 s)
        (ends (drop 1 s) (omega (arith, at-length b'{' s row))))
  | inr no_row ↦ rw no_row (elim (Bool-cases (at b'[' s)) [
    | inl column ↦ rw column (
        parse_split-Leaves n children vertical b']' g (drop 1 s)
          (ends (drop 1 s) (omega (arith, at-length b'[' s column))))
    | inr no_column ↦ rw no_column (omega (arith, length-read_pane_id s))
  ])
]

more_children-Leaves :
    (n : ℕ) (children : Reader Cells) (s : Chars)
    → length s ≤ n
    → ((t : Chars) → length t < length s → Leaves n (children t))
    → Leaves n (more_children children s)
unfolding more_children
more_children-Leaves n children s h ends = elim (Bool-cases (at b',' s)) [
  | inl comma ↦ rw comma (ends (drop 1 s) (omega (arith, at-length b',' s comma)))
  | inr other ↦ rw other h
]

-- With fuel for twice the characters a cell or a list of children is read or refused, and at least
-- one character is taken.
mutual
  unfolding parse_cell

  parse_cell-Leaves :
      (fuel n : ℕ) (s : Chars)
      → length s ≤ suc n
      → 2 * length s < fuel
      → Leaves n (parse_cell fuel s)
  parse_cell-Leaves zero n s h enough = absurd (omega arith)
  parse_cell-Leaves (suc fuel) n s h enough =
      Leaves-and_then (length s - 1) n (parse_geometry s) _
        (parse_geometry-Leaves (length s - 1) s (omega arith))
        λ g s₁ h₁.
          parse_body-Leaves n (parse_children fuel) g s₁ (omega arith)
            λ t lt. parse_children-Leaves fuel n t (omega arith) (omega arith)

  parse_children-Leaves :
      (fuel n : ℕ) (s : Chars)
      → length s ≤ suc n
      → 2 * length s + 1 < fuel
      → Leaves n (parse_children fuel s)
  parse_children-Leaves zero n s h enough = absurd (omega arith)
  parse_children-Leaves (suc fuel) n s h enough =
      Leaves-and_then (length s - 1) n (parse_cell fuel s) _
        (parse_cell-Leaves fuel (length s - 1) s (omega arith) (omega arith))
        λ cell s₁ h₁.
          Leaves-and_then n n (more_children (parse_children fuel) s₁) _
            (more_children-Leaves n (parse_children fuel) s₁ (omega arith)
              λ t lt. parse_children-Leaves fuel n t (omega arith) (omega arith))
            λ cells s₂ h₂. h₂

finish_ends :
    (checksum : ℕ) (body : Chars) (n : ℕ) (r : Result (LayoutCell × Chars))
    → Leaves n r
    → and_then r (finish checksum body) ≢ out_of_fuel
unfolding finish
finish_ends checksum body n (ok (root, [])) h = ground arith
finish_ends checksum body n (ok (root, c ∷ rest)) h = ground arith
finish_ends checksum body n (failed e) h = ground arith
finish_ends checksum body n out_of_fuel h = elim h [ ]

parse_body_text_ends : (o : Option ℕ) (body : Chars) → parse_body_text o body ≢ out_of_fuel
unfolding parse_body_text
parse_body_text_ends none body = ground arith
parse_body_text_ends (some checksum) body =
    finish_ends checksum body (length body) (parse_cell (2 * length body + 1) body)
      (parse_cell-Leaves (2 * length body + 1) (length body) body (omega arith) (omega arith))

parse_layout-ne-out_of_fuel : (s : Chars) → parse_layout s ≢ out_of_fuel
unfolding parse_layout
parse_layout-ne-out_of_fuel (a ∷ b ∷ c ∷ d ∷ e ∷ body) = elim (Bool-cases (e == b',')) [
  | inl comma ↦ rw comma (parse_body_text_ends (hex_prefix a b c d) body)
  | inr other ↦ rw other (ground arith)
]
parse_layout-ne-out_of_fuel _ = ground arith

settled :
    (r : Result ParsedLayout)
    → r ≢ out_of_fuel
    → ((l : ParsedLayout) × (r ≡ ok l)) ⊎ ((e : LayoutParseError) × (r ≡ failed e))
settled (ok l) h = inl (l, refl)
settled (failed e) h = inr (e, refl)
settled out_of_fuel h = absurd (h refl)

-- parseLayout ends on every text, with a layout or with a LayoutParseError: the fuel of the reader,
-- twice the characters and one, never runs out.
pub parse_layout_ends :
    (s : Chars)
    → ((l : ParsedLayout) × (parse_layout s ≡ ok l))
      ⊎ ((e : LayoutParseError) × (parse_layout s ≡ failed e))
parse_layout_ends s = settled (parse_layout s) (parse_layout-ne-out_of_fuel s)
