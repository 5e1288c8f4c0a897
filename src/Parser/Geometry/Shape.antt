-- ===== src/Parser/Geometry/Shape.antt =====
-- The structure of a layout against that of the desired tree.
use tmuxcc_driver.Prelude.{ℕ, ◌≤◌, ◌≡◌, refl, ap, none, List, [], ◌∷◌, length, arith, All}
use tmuxcc_driver.Prelude.Int.{ℤ, pos, pos_part, ◌+ℤ◌}
use tmuxcc_driver.Parser.LayoutString.{
  LayoutCell, Cells, leaf, split, no_cells, more, horizontal, vertical, Geometry,
}
use tmuxcc_driver.Parser.Geometry.{
  Doubles, IsIeee, TemplateNode, pane, hsplit, vsplit, Nodes, no_nodes, node, node_count,
  child_sizes, geometry_to_cell, row, column,
}
use tmuxcc_driver.Parser.Geometry.Limits.{IsFit, AreFit, AtMost, child_sizes_lem}

abbrev pub place : LayoutCell → Geometry
place (leaf g id) = g
place (split o g cells) = g

abbrev pub widths_of : Cells → List ℤ
widths_of no_cells = []
widths_of (more cell cells) = (place cell).width ∷ widths_of cells

abbrev pub heights_of : Cells → List ℤ
heights_of no_cells = []
heights_of (more cell cells) = (place cell).height ∷ heights_of cells

-- A leaf for a pane; a split of the same orientation for a split, whose children have the sizes that
-- the weights give them, one for one, and the structure of the children.
abbrev mutual
  pub HasShape : Doubles → TemplateNode → LayoutCell → Type 0
  HasShape f pane (leaf g id) = id ≡ none
  HasShape f pane (split o g cells) = ⊥
  HasShape f (hsplit children sizes) (leaf g id) = ⊥
  HasShape f (hsplit children sizes) (split vertical g cells) = ⊥
  HasShape f (hsplit children sizes) (split horizontal g cells) =
      (widths_of cells ≡ child_sizes f g.width children sizes) × HaveShape f children cells
  HasShape f (vsplit children sizes) (leaf g id) = ⊥
  HasShape f (vsplit children sizes) (split horizontal g cells) = ⊥
  HasShape f (vsplit children sizes) (split vertical g cells) =
      (heights_of cells ≡ child_sizes f g.height children sizes) × HaveShape f children cells

  pub HaveShape : Doubles → Nodes → Cells → Type 0
  HaveShape f no_nodes no_cells = Unit {0}
  HaveShape f no_nodes (more cell cells) = ⊥
  HaveShape f (node child rest) no_cells = ⊥
  HaveShape f (node child rest) (more cell cells) = HasShape f child cell × HaveShape f rest cells

pub place-geometry_to_cell :
    (f : Doubles) (tree : TemplateNode) (sx sy x y : ℤ)
    → place (geometry_to_cell f tree sx sy x y) ≡ record { width = sx; height = sy; x = x; y = y }
unfolding geometry_to_cell
place-geometry_to_cell f pane sx sy x y = refl
place-geometry_to_cell f (hsplit children sizes) sx sy x y = refl
place-geometry_to_cell f (vsplit children sizes) sx sy x y = refl

widths_of-row :
    (f : Doubles) (children : Nodes) (widths : List ℤ) (sy cx y : ℤ)
    → length widths ≡ node_count children
    → widths_of (row f children widths sy cx y) ≡ widths
unfolding row node_count
widths_of-row f no_nodes [] sy cx y size = refl
widths_of-row f no_nodes (w ∷ widths) sy cx y size = absurd (omega arith)
widths_of-row f (node child rest) [] sy cx y size = absurd (omega arith)
widths_of-row f (node child rest) (w ∷ widths) sy cx y size =
    rw (place-geometry_to_cell f child w sy cx y) (
      ap (λ (ws : List ℤ). w ∷ ws)
        (widths_of-row f rest widths sy (cx +ℤ (w +ℤ pos 1)) y (omega arith)))

heights_of-column :
    (f : Doubles) (children : Nodes) (heights : List ℤ) (sx x cy : ℤ)
    → length heights ≡ node_count children
    → heights_of (column f children heights sx x cy) ≡ heights
unfolding column node_count
heights_of-column f no_nodes [] sx x cy size = refl
heights_of-column f no_nodes (w ∷ heights) sx x cy size = absurd (omega arith)
heights_of-column f (node child rest) [] sx x cy size = absurd (omega arith)
heights_of-column f (node child rest) (w ∷ heights) sx x cy size =
    rw (place-geometry_to_cell f child sx w x cy) (
      ap (λ (ws : List ℤ). w ∷ ws)
        (heights_of-column f rest heights sx x (cy +ℤ (w +ℤ pos 1)) (omega arith)))

mutual
  unfolding geometry_to_cell node_count

  pub geometry_to_cell-HasShape :
      (f : Doubles) (ieee : IsIeee f) (limit : ℕ) (tree : TemplateNode) (sx sy x y : ℤ)
      → IsFit limit tree
      → pos_part sx ≤ limit
      → pos_part sy ≤ limit
      → HasShape f tree (geometry_to_cell f tree sx sy x y)
  geometry_to_cell-HasShape f ieee limit pane sx sy x y h bx by = refl
  geometry_to_cell-HasShape f ieee limit (hsplit children sizes) sx sy x y (h, range, hs) bx by =
      let (sum, size, bounds) = child_sizes_lem f ieee limit sx children sizes h range bx in
      let widths = child_sizes f sx children sizes in
      (
        widths_of-row f children widths sy x y size,
        row-HaveShape f ieee limit children widths sy x y hs bounds by size,
      )
  geometry_to_cell-HasShape f ieee limit (vsplit children sizes) sx sy x y (h, range, hs) bx by =
      let (sum, size, bounds) = child_sizes_lem f ieee limit sy children sizes h range by in
      let heights = child_sizes f sy children sizes in
      (
        heights_of-column f children heights sx x y size,
        column-HaveShape f ieee limit children heights sx x y hs bounds bx size,
      )

  row-HaveShape :
      (f : Doubles) (ieee : IsIeee f) (limit : ℕ) (children : Nodes) (widths : List ℤ) (sy cx y : ℤ)
      → AreFit limit children
      → All (AtMost limit) widths
      → pos_part sy ≤ limit
      → length widths ≡ node_count children
      → HaveShape f children (row f children widths sy cx y)
  row-HaveShape f ieee limit no_nodes [] sy cx y hs bs c size = tt
  row-HaveShape f ieee limit no_nodes (w ∷ widths) sy cx y hs bs c size = absurd (omega arith)
  row-HaveShape f ieee limit (node child rest) [] sy cx y hs bs c size = absurd (omega arith)
  row-HaveShape f ieee limit (node child rest) (w ∷ widths) sy cx y (h, hs) (b, bs) c size = (
    geometry_to_cell-HasShape f ieee limit child w sy cx y h b c,
    row-HaveShape f ieee limit rest widths sy (cx +ℤ (w +ℤ pos 1)) y hs bs c (omega arith),
  )

  column-HaveShape :
      (f : Doubles) (ieee : IsIeee f) (limit : ℕ) (children : Nodes) (heights : List ℤ)
      (sx x cy : ℤ)
      → AreFit limit children
      → All (AtMost limit) heights
      → pos_part sx ≤ limit
      → length heights ≡ node_count children
      → HaveShape f children (column f children heights sx x cy)
  column-HaveShape f ieee limit no_nodes [] sx x cy hs bs c size = tt
  column-HaveShape f ieee limit no_nodes (w ∷ heights) sx x cy hs bs c size = absurd (omega arith)
  column-HaveShape f ieee limit (node child rest) [] sx x cy hs bs c size = absurd (omega arith)
  column-HaveShape f ieee limit (node child rest) (w ∷ heights) sx x cy (h, hs) (b, bs) c size = (
    geometry_to_cell-HasShape f ieee limit child sx w x cy h c b,
    column-HaveShape f ieee limit rest heights sx x (cy +ℤ (w +ℤ pos 1)) hs bs c (omega arith),
  )
