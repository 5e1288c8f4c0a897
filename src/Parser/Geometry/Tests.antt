-- ===== src/Parser/Geometry/Tests.antt =====
-- Trees of templates, and the theorems at them.
use tmuxcc_driver.Prelude.{
  ◌%◌, ◌+◌, ◌*◌, ◌/◌, ◌≡◌, ◌⊎◌, refl, true, none, some, List, [], ◌∷◌, ltb, length, arith, All,
}
use tmuxcc_driver.Prelude.Int.{ℤ, pos, negsuc, ◌+ℤ◌, ◌-ℤ◌, ◌*ℤ◌, ltb_ℤ, sum_ℤ}
use tmuxcc_driver.Parser.LayoutString.{ParsedLayout, ok, parse_layout}
use tmuxcc_driver.Parser.Geometry.{
  Weight, amount, unusable, Ahead, Doubles, IsIeee, sum_from, weight_sum, TemplateNode, pane,
  hsplit, vsplit, no_nodes, node, node_count, weights_for, equal_weights, usable, effective,
  effective_sum, shares, floors, indexed, insert_ranked, rank, increment, hand_out, leftover,
  apportion, spread, even_split, distribute_sizes, geometry_to_cell, serialize_geometry,
}
use tmuxcc_driver.Parser.Geometry.Quotas.{AreAtLeast, quotas}
use tmuxcc_driver.Parser.Geometry.Rounding.{IsInRange}
use tmuxcc_driver.Parser.Geometry.Sizes.{HasCell, distribute_sizes_lem}
use tmuxcc_driver.Parser.Geometry.Limits.{IsFit}
use tmuxcc_driver.Parser.Geometry.Shape.{place, HasShape}
use tmuxcc_driver.Parser.Geometry.Tiling.{IsTiled, geometry_to_cell-IsTiled}
use tmuxcc_driver.Parser.Geometry.Strips.{parse_layout-serialize_geometry}

-- The comparison on exact fractions.
abbrev by_fraction : Ahead
by_fraction b a = ltb (a.product % a.divisor) (b.product % b.divisor)

-- Doubles that never round.
abbrev whole_numbers : Doubles
whole_numbers = record { plus = ◌+◌; times = ◌*◌; floor_quotient = ◌/◌; ahead = by_fraction }

whole_numbers-IsIeee : IsIeee whole_numbers
whole_numbers-IsIeee = record {
  plus_exact = λ a b h. refl;
  times_exact = λ a b h. refl;
  floor_exact = λ p d h k l. refl;
}

sizes : ℤ → List Weight → List ℤ
unfolding distribute_sizes even_split spread apportion hand_out increment rank insert_ranked indexed
    floors shares weight_sum sum_from effective effective_sum usable leftover ◌+ℤ◌ ◌-ℤ◌ ◌*ℤ◌
sizes total weights = distribute_sizes whole_numbers total weights

two_to_one : sizes (pos 79) (amount 2 ∷ amount 1 ∷ []) ≡ pos 52 ∷ pos 27 ∷ []
unfolding sizes
two_to_one = refl

-- All weights unusable: an equal split; a window that is too small; one that is smaller still.
fallbacks :
    (sizes (pos 10) (unusable ∷ amount 0 ∷ unusable ∷ []) ≡ pos 4 ∷ pos 3 ∷ pos 3 ∷ [])
    × (sizes (pos 2) (amount 1 ∷ amount 1 ∷ amount 1 ∷ []) ≡ pos 1 ∷ pos 1 ∷ pos 0 ∷ [])
    × (sizes (negsuc 0) (amount 1 ∷ amount 1 ∷ []) ≡ pos 0 ∷ negsuc 0 ∷ [])
unfolding sizes
fallbacks = (refl, refl, refl)

two_to_one-IsInRange : IsInRange 79 (amount 2 ∷ amount 1 ∷ [])
unfolding usable
two_to_one-IsInRange = (omega arith, omega arith, omega arith)

distribute_sizes_lem_example :
    (sum_ℤ (distribute_sizes whole_numbers (pos 79) (amount 2 ∷ amount 1 ∷ [])) ≡ pos 79)
    × (length (distribute_sizes whole_numbers (pos 79) (amount 2 ∷ amount 1 ∷ [])) ≡ 2)
    × ((ltb_ℤ (pos 79) (pos 2) ≡ true)
        ⊎ (All HasCell (distribute_sizes whole_numbers (pos 79) (amount 2 ∷ amount 1 ∷ []))
            × AreAtLeast
                (quotas 79 (amount 2 ∷ amount 1 ∷ []))
                (distribute_sizes whole_numbers (pos 79) (amount 2 ∷ amount 1 ∷ []))))
distribute_sizes_lem_example =
    distribute_sizes_lem whole_numbers whole_numbers-IsIeee 79 (pos 79) (amount 2 ∷ amount 1 ∷ [])
      (omega arith) two_to_one-IsInRange (omega arith)

abbrev tree : TemplateNode
tree =
    hsplit (node pane (node (vsplit (node pane (node pane no_nodes)) none) no_nodes))
      (some (amount 2 ∷ amount 1 ∷ []))

tree-IsFit : IsFit 80 tree
unfolding node_count weights_for equal_weights usable
tree-IsFit = (
  omega arith,
  (omega arith, omega arith, omega arith),
  (tt, ((omega arith, (omega arith, omega arith, omega arith), (tt, (tt, tt))), tt)),
)

geometry_to_cell-IsTiled_example :
    (place (geometry_to_cell whole_numbers tree (pos 80) (pos 24) (pos 0) (pos 0))
      ≡ record { width = pos 80; height = pos 24; x = pos 0; y = pos 0 })
    × IsTiled (geometry_to_cell whole_numbers tree (pos 80) (pos 24) (pos 0) (pos 0))
    × HasShape whole_numbers tree
        (geometry_to_cell whole_numbers tree (pos 80) (pos 24) (pos 0) (pos 0))
geometry_to_cell-IsTiled_example =
    geometry_to_cell-IsTiled whole_numbers whole_numbers-IsIeee 80 tree (pos 80) (pos 24) (pos 0)
      (pos 0) tree-IsFit (omega arith) (omega arith)

abbrev strip : TemplateNode
strip =
    hsplit (node pane (node pane (node pane no_nodes))) (some (amount 2 ∷ unusable ∷ amount 1 ∷ []))

strip-IsFit : IsFit 80 strip
unfolding node_count weights_for usable
strip-IsFit = (omega arith, (omega arith, omega arith, omega arith), (tt, (tt, (tt, tt))))

parse_layout-serialize_geometry_example :
    (l : ParsedLayout) × (parse_layout (serialize_geometry whole_numbers strip 80 24) ≡ ok l)
    × (l.checksum ≡ l.computed_checksum)
    × (place l.root ≡ record { width = pos 80; height = pos 24; x = pos 0; y = pos 0 })
    × IsTiled l.root
    × HasShape whole_numbers strip l.root
parse_layout-serialize_geometry_example =
    parse_layout-serialize_geometry whole_numbers whole_numbers-IsIeee 80 strip 80 24
      (unfold node_count in (tt, omega arith, omega arith)) strip-IsFit (omega arith) (omega arith)
