-- ===== src/Parser/LayoutString/Tests.antt =====
-- Layout strings of the documentation, malformed ones, and the theorems at them.
use tmuxcc_driver.Prelude.{ℕ, ◌≡◌, ◌≢◌, ◌⊎◌, refl, none, some, [], ◌∷◌, ◌++◌, arith}
use tmuxcc_driver.Prelude.Keyed.{codes}
use tmuxcc_driver.Prelude.Int.{pos}
use tmuxcc_driver.Parser.LayoutString.{
  Chars, Geometry, LayoutCell, leaf, split, no_cells, more, horizontal, vertical, ParsedLayout,
  LayoutParseError, expected_char, bad_prefix, bad_checksum, trailing_input, expected_width, Result,
  ok, failed, layout_checksum, checksum_loop, checksum_step, parse_layout, parse_body_text, finish,
  parse_cell, parse_body, parse_split, more_children, parse_geometry, need, expect, read_pane_id,
  read_uint, parse_int, digit_run, at, hex_prefix, hex_value, dump_layout, dump_cell,
}
use tmuxcc_driver.Parser.LayoutString.RoundTrip.{IsOnScreen, IsReadable, parse_layout-dump_layout}
use tmuxcc_driver.Parser.LayoutString.Total.{parse_layout_ends}
use tmuxcc_driver.Parser.LayoutString.Checksum.{layout_checksum_detects}

abbrev geometry : ℕ → ℕ → ℕ → ℕ → Geometry
geometry w h x y = record { width = pos w; height = pos h; x = pos x; y = pos y }

-- `159x48,0,0{79x48,0,0,1,79x48,80,0[79x24,80,0,2,79x23,80,25,3]}`
abbrev two_columns : LayoutCell
two_columns = split horizontal (geometry 159 48 0 0) (
    more (leaf (geometry 79 48 0 0) (some 1)) (
      more
        (split vertical (geometry 79 48 80 0) (
          more (leaf (geometry 79 24 80 0) (some 2))
            (more (leaf (geometry 79 23 80 25) (some 3)) no_cells)))
        no_cells))

run : Chars → Result ParsedLayout
unfolding parse_layout parse_body_text finish parse_cell parse_body parse_split more_children
    parse_geometry need expect read_pane_id read_uint parse_int digit_run at hex_prefix hex_value
    layout_checksum checksum_loop checksum_step
run s = parse_layout s

nested :
    run (codes "ef44,159x48,0,0{79x48,0,0,1,79x48,80,0[79x24,80,0,2,79x23,80,25,3]}")
    ≡ ok (record { checksum = 0xef44; computed_checksum = 0xef44; root = two_columns })
unfolding run
nested = refl

-- Leaves without a pane id: the number behind the comma is the width of the sibling.
unassigned :
    run (codes "0000,5x2,0,0{2x2,0,0,2x2,3,0}")
    ≡ ok (record {
      checksum = 0;
      computed_checksum = layout_checksum (codes "5x2,0,0{2x2,0,0,2x2,3,0}");
      root =
          split horizontal
            (geometry 5 2 0 0)
            (more (leaf (geometry 2 2 0 0) none) (more (leaf (geometry 2 2 3 0) none) no_cells));
    })
unfolding run
unassigned = refl

unclosed : run (codes "0000,5x2,0,0{2x2,0,0") ≡ failed (expected_char b'}' [])
unfolding run
unclosed = refl

empty_split : run (codes "0000,5x2,0,0{}") ≡ failed (expected_width (codes "}"))
unfolding run
empty_split = refl

trailing : run (codes "0000,5x2,0,0,1]") ≡ failed (trailing_input (codes "]"))
unfolding run
trailing = refl

no_prefix :
    (run (codes "5x2") ≡ failed bad_prefix) × (run (codes "00g0,5x2,0,0") ≡ failed bad_checksum)
unfolding run
no_prefix = (refl, refl)

layout : ParsedLayout
layout = record { checksum = 0; computed_checksum = 0; root = two_columns }

two_columns-IsReadable : IsReadable two_columns
two_columns-IsReadable =
    let on : (w h x y : ℕ) → IsOnScreen (geometry w h x y) =
      λ w h x y. record { width = tt; height = tt; x = tt; y = tt } in
    (
      on 159 48 0 0,
      ground arith,
      (on 79 48 0 0, ((on 79 48 80 0, ground arith, (on 79 24 80 0, (on 79 23 80 25, tt))), tt)),
    )

parse_layout-dump_layout_example :
    parse_layout (dump_layout layout)
    ≡ ok (record {
      checksum = layout_checksum (dump_cell two_columns);
      computed_checksum = layout_checksum (dump_cell two_columns);
      root = two_columns;
    })
unfolding layout
parse_layout-dump_layout_example = parse_layout-dump_layout layout two_columns-IsReadable

parse_layout_ends_example :
    ((l : ParsedLayout) × (parse_layout (codes "0000,5x2,0,0{") ≡ ok l))
    ⊎ ((e : LayoutParseError) × (parse_layout (codes "0000,5x2,0,0{") ≡ failed e))
parse_layout_ends_example = parse_layout_ends (codes "0000,5x2,0,0{")

layout_checksum_detects_example :
    layout_checksum (codes "5x2" ++ b',' ∷ codes "0,0")
    ≢ layout_checksum (codes "5x2" ++ b'.' ∷ codes "0,0")
layout_checksum_detects_example =
    layout_checksum_detects (codes "5x2") (codes "0,0") b',' b'.' (omega arith) (omega arith)
      (omega arith)
