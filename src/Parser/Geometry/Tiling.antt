-- ===== src/Parser/Geometry/Tiling.antt =====
-- When the cells of a layout tile it, and those of a desired tree.
use tmuxcc_driver.Prelude.{ℕ, ◌≤◌, ◌≡◌, refl, ap, List, [], ◌∷◌, length, arith, All}
use tmuxcc_driver.Prelude.Int.{ℤ, pos, pos_part, neg_part, ◌+ℤ◌, sum_ℤ, int_laws}
use tmuxcc_driver.Parser.LayoutString.{
  LayoutCell, Cells, leaf, split, no_cells, more, horizontal, vertical, Geometry,
}
use tmuxcc_driver.Parser.Geometry.{
  Doubles, IsIeee, TemplateNode, pane, hsplit, vsplit, Nodes, no_nodes, node, node_count,
  child_sizes, geometry_to_cell, row, column,
}
use tmuxcc_driver.Parser.Geometry.Limits.{IsFit, AreFit, AtMost, child_sizes_lem}
use tmuxcc_driver.Parser.Geometry.Shape.{
  place, place-geometry_to_cell, HasShape, geometry_to_cell-HasShape,
}

-- The children of a split stand in its rectangle one behind the other, with one separator between
-- each two, fill it to its end, and have its extent across; so do theirs. `at` is where the next
-- child has to begin: behind the last one, a separator past the end.
abbrev mutual
  pub IsTiled : LayoutCell → Type 0
  IsTiled (leaf g id) = Unit {0}
  IsTiled (split horizontal g cells) = TilesRow g g.x cells
  IsTiled (split vertical g cells) = TilesColumn g g.y cells

  pub TilesRow : Geometry → ℤ → Cells → Type 0
  TilesRow g at no_cells = at ≡ g.x +ℤ (g.width +ℤ pos 1)
  TilesRow g at (more cell cells) =
      ((place cell).x ≡ at)
      × ((place cell).y ≡ g.y)
      × ((place cell).height ≡ g.height)
      × IsTiled cell
      × TilesRow g (at +ℤ ((place cell).width +ℤ pos 1)) cells

  pub TilesColumn : Geometry → ℤ → Cells → Type 0
  TilesColumn g at no_cells = at ≡ g.y +ℤ (g.height +ℤ pos 1)
  TilesColumn g at (more cell cells) =
      ((place cell).y ≡ at)
      × ((place cell).x ≡ g.x)
      × ((place cell).width ≡ g.width)
      × IsTiled cell
      × TilesColumn g (at +ℤ ((place cell).height +ℤ pos 1)) cells

mutual
  unfolding geometry_to_cell node_count

  tiled :
      (f : Doubles) (ieee : IsIeee f) (limit : ℕ) (tree : TemplateNode) (sx sy x y : ℤ)
      → IsFit limit tree
      → pos_part sx ≤ limit
      → pos_part sy ≤ limit
      → IsTiled (geometry_to_cell f tree sx sy x y)
  tiled f ieee limit pane sx sy x y h bx by = tt
  tiled f ieee limit (hsplit children sizes) sx sy x y (h, range, hs) bx by =
      let (sum, size, bounds) = child_sizes_lem f ieee limit sx children sizes h range bx in
      tiled_row f ieee limit children (child_sizes f sx children sizes) sy x y
        (record { width = sx; height = sy; x = x; y = y }) hs bounds by size refl refl
        (omega (int_laws, ap pos_part sum, ap neg_part sum))
  tiled f ieee limit (vsplit children sizes) sx sy x y (h, range, hs) bx by =
      let (sum, size, bounds) = child_sizes_lem f ieee limit sy children sizes h range by in
      tiled_column f ieee limit children (child_sizes f sy children sizes) sx x y
        (record { width = sx; height = sy; x = x; y = y }) hs bounds bx size refl refl
        (omega (int_laws, ap pos_part sum, ap neg_part sum))

  tiled_row :
      (f : Doubles) (ieee : IsIeee f) (limit : ℕ) (children : Nodes) (widths : List ℤ) (sy cx y : ℤ)
      (g : Geometry)
      → AreFit limit children
      → All (AtMost limit) widths
      → pos_part sy ≤ limit
      → length widths ≡ node_count children
      → y ≡ g.y
      → sy ≡ g.height
      → cx +ℤ (sum_ℤ widths +ℤ pos (node_count children)) ≡ g.x +ℤ (g.width +ℤ pos 1)
      → TilesRow g cx (row f children widths sy cx y)
  tiled_row f ieee limit no_nodes [] sy cx y g hs bs c size top tall end =
      omega (int_laws, ap pos_part end, ap neg_part end)
  tiled_row f ieee limit no_nodes (w ∷ widths) sy cx y g hs bs c size top tall end =
      absurd (omega arith)
  tiled_row f ieee limit (node child rest) [] sy cx y g hs bs c size top tall end =
      absurd (omega arith)
  tiled_row f ieee limit (node child rest) (w ∷ widths) sy cx y g (h, hs) (b, bs) c size top tall
        end =
      let at_place = place-geometry_to_cell f child w sy cx y in
      rw at_place (
        refl,
        top,
        tall,
        tiled f ieee limit child w sy cx y h b c,
        tiled_row f ieee limit rest widths sy (cx +ℤ (w +ℤ pos 1)) y g hs bs c (omega arith) top
            tall (omega (int_laws, ap pos_part end, ap neg_part end)),
      )

  tiled_column :
      (f : Doubles) (ieee : IsIeee f) (limit : ℕ) (children : Nodes) (heights : List ℤ)
      (sx x cy : ℤ) (g : Geometry)
      → AreFit limit children
      → All (AtMost limit) heights
      → pos_part sx ≤ limit
      → length heights ≡ node_count children
      → x ≡ g.x
      → sx ≡ g.width
      → cy +ℤ (sum_ℤ heights +ℤ pos (node_count children)) ≡ g.y +ℤ (g.height +ℤ pos 1)
      → TilesColumn g cy (column f children heights sx x cy)
  tiled_column f ieee limit no_nodes [] sx x cy g hs bs c size left wide end =
      omega (int_laws, ap pos_part end, ap neg_part end)
  tiled_column f ieee limit no_nodes (w ∷ heights) sx x cy g hs bs c size left wide end =
      absurd (omega arith)
  tiled_column f ieee limit (node child rest) [] sx x cy g hs bs c size left wide end =
      absurd (omega arith)
  tiled_column f ieee limit (node child rest) (w ∷ heights) sx x cy g (h, hs) (b, bs) c size left
        wide end =
      let at_place = place-geometry_to_cell f child sx w x cy in
      rw at_place (
        refl,
        left,
        wide,
        tiled f ieee limit child sx w x cy h c b,
        tiled_column f ieee limit rest heights sx x (cy +ℤ (w +ℤ pos 1)) g hs bs c (omega arith)
            left wide (omega (int_laws, ap pos_part end, ap neg_part end)),
      )

-- The layout of a tree whose splits all have children, for doubles as IEEE 754 has them and a window of
-- at most `limit` cells either way, when in every split the sum of the weights, in units of a power of
-- two that they have in common, and their number, times `limit`, stay below 2^53: its root takes the
-- rectangle asked for; in every split the children and the separators between them fill the split
-- exactly; and the layout has a leaf for each pane and, in order and with the same orientation, a split
-- for each split, with the sizes that distributeSizes gives its children. Sizes of 0 or less are not
-- excluded.
pub geometry_to_cell-IsTiled :
    (f : Doubles) (ieee : IsIeee f) (limit : ℕ) (tree : TemplateNode) (sx sy x y : ℤ)
    → IsFit limit tree
    → pos_part sx ≤ limit
    → pos_part sy ≤ limit
    → (place (geometry_to_cell f tree sx sy x y) ≡ record { width = sx; height = sy; x = x; y = y })
      × IsTiled (geometry_to_cell f tree sx sy x y)
      × HasShape f tree (geometry_to_cell f tree sx sy x y)
geometry_to_cell-IsTiled f ieee limit tree sx sy x y h bx by = (
  place-geometry_to_cell f tree sx sy x y,
  tiled f ieee limit tree sx sy x y h bx by,
  geometry_to_cell-HasShape f ieee limit tree sx sy x y h bx by,
)
