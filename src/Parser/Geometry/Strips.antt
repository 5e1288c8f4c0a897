-- ===== src/Parser/Geometry/Strips.antt =====
-- A window with a single split of panes: from the desired tree to the text and back.
use tmuxcc_driver.Prelude.{
  ℕ, zero, suc, ◌+◌, ◌-◌, ◌/◌, ◌≤◌, ◌<◌, ◌≡◌, ◌≢◌, refl, Option, List, [], ◌∷◌, map, length, arith,
  Bool-cases, inl, inr, All,
}
use tmuxcc_driver.Prelude.Int.{
  ℤ, pos, negsuc, pos_part, ◌+ℤ◌, ◌-ℤ◌, ◌*ℤ◌, ltb_ℤ, floor_div, IsNatural, int_laws,
}
use tmuxcc_driver.Parser.LayoutString.{
  no_cells, ParsedLayout, ok, layout_checksum, dump_cell, parse_layout,
}
use tmuxcc_driver.Parser.LayoutString.RoundTrip.{IsReadable, AreReadable, parse_layout-dump_layout}
use tmuxcc_driver.Parser.Geometry.{
  Weight, Doubles, IsIeee, TemplateNode, pane, hsplit, vsplit, Nodes, no_nodes, node, node_count,
  child_sizes, weights_for, geometry_to_cell, row, column, serialize_geometry, apportion, spread,
  even_split, distribute_sizes,
}
use tmuxcc_driver.Parser.Geometry.Limits.{IsFit, child_sizes_lem}
use tmuxcc_driver.Parser.Geometry.Shape.{place, HasShape}
use tmuxcc_driver.Parser.Geometry.Tiling.{IsTiled, geometry_to_cell-IsTiled}

spread-IsNatural : (rem n : ℕ) (ws : List Weight) → All IsNatural (spread rem (pos n) ws)
unfolding spread ◌+ℤ◌
spread-IsNatural zero n [] = tt
spread-IsNatural (suc rem) n [] = tt
spread-IsNatural zero n (w ∷ ws) = (tt, spread-IsNatural zero n ws)
spread-IsNatural (suc rem) n (w ∷ ws) = (ground arith, spread-IsNatural rem n ws)

map_pos-IsNatural : (ns : List ℕ) → All IsNatural (map pos ns)
map_pos-IsNatural [] = tt
map_pos-IsNatural (n ∷ ns) = (tt, map_pos-IsNatural ns)

-- A total that is not negative is split into sizes that are not.
distribute_sizes-IsNatural :
    (f : Doubles) (total : ℕ) (weights : List Weight)
    → All IsNatural (distribute_sizes f (pos total) weights)
unfolding distribute_sizes even_split
distribute_sizes-IsNatural f total [] = tt
distribute_sizes-IsNatural f total (w ∷ []) = (tt, tt)
distribute_sizes-IsNatural f total (w ∷ v ∷ ws) =
    let n = length (w ∷ v ∷ ws) in
    let rem = pos_part (pos total -ℤ n *ℤ floor_div (pos total) n) in
    elim (Bool-cases (ltb_ℤ (pos total) (pos n))) [
      | inl small ↦ rw small (spread-IsNatural rem (total / n) (w ∷ v ∷ ws))
      | inr large ↦ rw large (map_pos-IsNatural (apportion f total (w ∷ v ∷ ws)))
    ]

room_left : (cols n : ℕ) → 0 < n → n ≤ cols + 1 → pos cols -ℤ (pos n -ℤ pos 1) ≡ pos (cols + 1 - n)
room_left cols n h fits = omega int_laws

child_sizes-IsNatural :
    (f : Doubles) (cols : ℕ) (children : Nodes) (sizes : Option (List Weight))
    → 0 < node_count children
    → node_count children ≤ cols + 1
    → All IsNatural (child_sizes f (pos cols) children sizes)
unfolding child_sizes
child_sizes-IsNatural f cols children sizes h fits =
    rw (room_left cols (node_count children) h fits) (
      distribute_sizes-IsNatural f (cols + 1 - node_count children)
        (weights_for (node_count children) sizes))

abbrev pub ArePanes : Nodes → Type 0
ArePanes no_nodes = Unit {0}
ArePanes (node pane rest) = ArePanes rest
ArePanes (node (hsplit children sizes) rest) = ⊥
ArePanes (node (vsplit children sizes) rest) = ⊥

+ℤ-IsNatural : (a b : ℤ) → IsNatural a → IsNatural b → IsNatural (a +ℤ (b +ℤ pos 1))
unfolding ◌+ℤ◌
+ℤ-IsNatural (pos a) (pos b) h k = ground arith
+ℤ-IsNatural (negsuc a) b h k = elim h [ ]
+ℤ-IsNatural (pos a) (negsuc b) h k = elim k [ ]

row-AreReadable :
    (f : Doubles) (children : Nodes) (widths : List ℤ) (sy cx y : ℤ)
    → ArePanes children
    → All IsNatural widths
    → IsNatural sy
    → IsNatural cx
    → IsNatural y
    → AreReadable (row f children widths sy cx y)
unfolding row
row-AreReadable f no_nodes widths sy cx y p h v x₀ y₀ = tt
row-AreReadable f (node pane rest) [] sy cx y p h v x₀ y₀ = tt
row-AreReadable f (node pane rest) (w ∷ widths) sy cx y p (h, hs) v x₀ y₀ = (
  record { width = h; height = v; x = x₀; y = y₀ },
  row-AreReadable f rest widths sy (cx +ℤ (w +ℤ pos 1)) y p hs v (+ℤ-IsNatural cx w x₀ h) y₀,
)
row-AreReadable f (node (hsplit c s) rest) widths sy cx y p h v x₀ y₀ = elim p [ ]
row-AreReadable f (node (vsplit c s) rest) widths sy cx y p h v x₀ y₀ = elim p [ ]

column-AreReadable :
    (f : Doubles) (children : Nodes) (heights : List ℤ) (sx x cy : ℤ)
    → ArePanes children
    → All IsNatural heights
    → IsNatural sx
    → IsNatural x
    → IsNatural cy
    → AreReadable (column f children heights sx x cy)
unfolding column
column-AreReadable f no_nodes heights sx x cy p h v x₀ y₀ = tt
column-AreReadable f (node pane rest) [] sx x cy p h v x₀ y₀ = tt
column-AreReadable f (node pane rest) (w ∷ heights) sx x cy p (h, hs) v x₀ y₀ = (
  record { width = v; height = h; x = x₀; y = y₀ },
  column-AreReadable f rest heights sx x (cy +ℤ (w +ℤ pos 1)) p hs v x₀ (+ℤ-IsNatural cy w y₀ h),
)
column-AreReadable f (node (hsplit c s) rest) heights sx x cy p h v x₀ y₀ = elim p [ ]
column-AreReadable f (node (vsplit c s) rest) heights sx x cy p h v x₀ y₀ = elim p [ ]

row-ne-no_cells :
    (f : Doubles) (children : Nodes) (widths : List ℤ) (sy cx y : ℤ)
    → 0 < node_count children
    → length widths ≡ node_count children
    → row f children widths sy cx y ≢ no_cells
unfolding row node_count
row-ne-no_cells f no_nodes widths sy cx y h size = absurd (omega arith)
row-ne-no_cells f (node child rest) [] sy cx y h size = absurd (omega arith)
row-ne-no_cells f (node child rest) (w ∷ widths) sy cx y h size = ground arith

column-ne-no_cells :
    (f : Doubles) (children : Nodes) (heights : List ℤ) (sx x cy : ℤ)
    → 0 < node_count children
    → length heights ≡ node_count children
    → column f children heights sx x cy ≢ no_cells
unfolding column node_count
column-ne-no_cells f no_nodes heights sx x cy h size = absurd (omega arith)
column-ne-no_cells f (node child rest) [] sx x cy h size = absurd (omega arith)
column-ne-no_cells f (node child rest) (w ∷ heights) sx x cy h size = ground arith

-- A pane, or one split of panes with room for the separators between them.
abbrev pub IsStrip : TemplateNode → ℕ → ℕ → Type 0
IsStrip pane cols rows = Unit {0}
IsStrip (hsplit children sizes) cols rows =
    ArePanes children × (0 < node_count children) × (node_count children ≤ cols + 1)
IsStrip (vsplit children sizes) cols rows =
    ArePanes children × (0 < node_count children) × (node_count children ≤ rows + 1)

strip-IsReadable :
    (f : Doubles) (ieee : IsIeee f) (limit : ℕ) (tree : TemplateNode) (cols rows : ℕ)
    → IsStrip tree cols rows
    → IsFit limit tree
    → cols ≤ limit
    → rows ≤ limit
    → IsReadable (geometry_to_cell f tree (pos cols) (pos rows) (pos 0) (pos 0))
unfolding geometry_to_cell
strip-IsReadable f ieee limit pane cols rows h fit bx by = record {
  width = tt;
  height = tt;
  x = tt;
  y = tt;
}
strip-IsReadable f ieee limit (hsplit children sizes) cols rows (panes, some_child, fits)
      (_, range, _) bx by =
    let widths = child_sizes f (pos cols) children sizes in
    (
      record { width = tt; height = tt; x = tt; y = tt },
      row-ne-no_cells f children widths (pos rows) (pos 0) (pos 0) some_child
          (child_sizes_lem f ieee limit (pos cols) children sizes some_child range bx).1,
      row-AreReadable f children widths (pos rows) (pos 0) (pos 0) panes
          (child_sizes-IsNatural f cols children sizes some_child fits) tt tt tt,
    )
strip-IsReadable f ieee limit (vsplit children sizes) cols rows (panes, some_child, fits)
      (_, range, _) bx by =
    let heights = child_sizes f (pos rows) children sizes in
    (
      record { width = tt; height = tt; x = tt; y = tt },
      column-ne-no_cells f children heights (pos cols) (pos 0) (pos 0) some_child
          (child_sizes_lem f ieee limit (pos rows) children sizes some_child range by).1,
      column-AreReadable f children heights (pos cols) (pos 0) (pos 0) panes
          (child_sizes-IsNatural f rows children sizes some_child fits) tt tt tt,
    )

-- For one pane, or one split of panes, in a window that has room for the separators and at most
-- `limit` cells either way, and doubles as IEEE 754 has them, when the sum of the weights, in units of
-- a power of two that they have in common, and their number, times `limit`, stay below 2^53: the string
-- that serializeGeometry sends to tmux is one that parseLayout accepts, and with the right checksum; the
-- layout that it reads has the whole window as its root, tiles the window, and has the structure of the
-- tree with the sizes that distributeSizes gives the panes.
pub parse_layout-serialize_geometry :
    (f : Doubles) (ieee : IsIeee f) (limit : ℕ) (tree : TemplateNode) (cols rows : ℕ)
    → IsStrip tree cols rows
    → IsFit limit tree
    → cols ≤ limit
    → rows ≤ limit
    → (l : ParsedLayout) × (parse_layout (serialize_geometry f tree cols rows) ≡ ok l)
      × (l.checksum ≡ l.computed_checksum)
      × (place l.root ≡ record { width = pos cols; height = pos rows; x = pos 0; y = pos 0 })
      × IsTiled l.root
      × HasShape f tree l.root
unfolding serialize_geometry
parse_layout-serialize_geometry f ieee limit tree cols rows h fit bx by =
    let root = geometry_to_cell f tree (pos cols) (pos rows) (pos 0) (pos 0) in
    let csum = layout_checksum (dump_cell root) in
    let (whole, tiles, shape) =
      geometry_to_cell-IsTiled f ieee limit tree (pos cols) (pos rows) (pos 0) (pos 0) fit bx by in
    (
      record { checksum = csum; computed_checksum = csum; root = root },
      parse_layout-dump_layout (record { checksum = 0; computed_checksum = 0; root = root })
          (strip-IsReadable f ieee limit tree cols rows h fit bx by),
      refl,
      whole,
      tiles,
      shape,
    )
