-- ===== src/Parser/Geometry.antt =====
-- packages/driver/src/parser/layout-string.ts, the write direction: a desired tree to a layout.
-- A weight is a multiple of some power of two that all weights of a split have in common, 2^971 at
-- most (2^53 times that is where the finite doubles end). What the source computes with weights goes
-- through a parameter, `Doubles`; `IsIeee` is what IEEE 754 says of it where the exact results stay
-- below 2^53 units. Beyond that a result can be rounded, Infinity or NaN; nothing is shown of it.
pub mod Exact
pub mod Shares
pub mod Quotas
pub mod Rounding
pub mod Sizes
pub mod Limits
pub mod Shape
pub mod Tiling
pub mod Strips
pub mod Tests
use tmuxcc_driver.Prelude.{
  ℕ, zero, suc, ◌≡◌, ◌<◌, ◌+◌, ◌-◌, ◌*◌, ◌/◌, Bool, true, false, Option, none, some, List, [], ◌∷◌,
  map, ltb, ◌==◌, if◌then◌else◌, length,
}
use tmuxcc_driver.Prelude.Int.{ℤ, pos, pos_part, ◌+ℤ◌, ◌-ℤ◌, ◌*ℤ◌, ltb_ℤ, floor_div}
use tmuxcc_driver.Parser.LayoutString.{
  Chars, LayoutCell, Cells, leaf, split, no_cells, more, horizontal, vertical, Geometry,
  dump_layout,
}

-- A weight as a multiple of a common unit; one that is negative, infinite or no number is unusable.
pub data Weight : Type 0 where
  amount : ℕ → Weight
  unusable : Weight

-- `exact` of a child: `remaining * w / effSum`.
pub record Share : Type 0 where
  pub product : ℕ
  pub divisor : ℕ

-- `ahead b a`: whether the comparison of the fractions puts b strictly before a.
abbrev pub Ahead : Type 0
Ahead = Share → Share → Bool

-- The arithmetic of the doubles: sum and product, the floor of a quotient, and the order of the
-- fractions, which decides who gets a leftover cell first.
pub record Doubles : Type 0 where
  pub plus : ℕ → ℕ → ℕ
  pub times : ℕ → ℕ → ℕ
  pub floor_quotient : ℕ → ℕ → ℕ
  pub ahead : Ahead

-- `2 ^ 53`.
abbrev pub exact_limit : ℕ
exact_limit = 9_007_199_254_740_992

-- An operation whose exact result is a double returns it; and the floor of a correctly rounded quotient
-- of two such numbers is the floor of the quotient, since a fraction with divisor d is at least 1 / d
-- away from the next whole number.
pub record IsIeee (f : Doubles) : Type 0 where
  pub plus_exact : (a b : ℕ) → a + b < exact_limit → f.plus a b ≡ a + b
  pub times_exact : (a b : ℕ) → a * b < exact_limit → f.times a b ≡ a * b
  pub floor_exact :
      (p d : ℕ) → p < exact_limit → d < exact_limit → 0 < d → f.floor_quotient p d ≡ p / d

abbrev pub total_of : List ℕ → ℕ
total_of [] = 0
total_of (n ∷ ns) = n + total_of ns

unfoldable pub usable : Weight → ℕ
usable (amount w) = w
usable unusable = 0

-- `norm.reduce((a, b) => a + b, 0)`.
unfoldable pub sum_from : Doubles → ℕ → List ℕ → ℕ
sum_from f acc [] = acc
sum_from f acc (w ∷ ws) = sum_from f (f.plus acc w) ws

unfoldable pub weight_sum : Doubles → List Weight → ℕ
unfolding sum_from
weight_sum f weights = sum_from f 0 (map usable weights)

-- The weights that count, and what they are divided by.
unfoldable pub effective : Doubles → List Weight → List ℕ
effective f weights =
    if ltb 0 (weight_sum f weights) then map usable weights else map (λ w. 1) weights

unfoldable pub effective_sum : Doubles → List Weight → ℕ
effective_sum f weights =
    if ltb 0 (weight_sum f weights) then weight_sum f weights else length weights

unfoldable pub shares : Doubles → ℕ → ℕ → List ℕ → List Share
shares f remaining divisor [] = []
shares f remaining divisor (w ∷ ws) =
    record { product = f.times remaining w; divisor = divisor } ∷ shares f remaining divisor ws

unfoldable pub floors : Doubles → List Share → List ℕ
floors f [] = []
floors f (e ∷ es) = f.floor_quotient e.product e.divisor ∷ floors f es

-- The children in order, each with its position.
unfoldable pub indexed : ℕ → List Share → List (ℕ × Share)
indexed i [] = []
indexed i (e ∷ es) = (i, e) ∷ indexed (suc i) es

-- A stable sort by `ahead`.
unfoldable pub insert_ranked : Ahead → ℕ × Share → List (ℕ × Share) → List (ℕ × Share)
insert_ranked ahead x [] = x ∷ []
insert_ranked ahead x (y ∷ ys) = if ahead y.1 x.1 then y ∷ insert_ranked ahead x ys else x ∷ y ∷ ys

unfoldable pub rank : Ahead → List (ℕ × Share) → List (ℕ × Share)
rank ahead [] = []
rank ahead (x ∷ xs) = insert_ranked ahead x (rank ahead xs)

unfoldable pub increment : ℕ → List ℕ → List ℕ
increment i [] = []
increment zero (n ∷ ns) = (n + 1) ∷ ns
increment (suc i) (n ∷ ns) = n ∷ increment i ns

-- The loop that hands out the leftover cells.
unfoldable pub hand_out : ℕ → List (ℕ × Share) → List ℕ → List ℕ
hand_out zero order out = out
hand_out (suc k) [] out = out
hand_out (suc k) ((i, e) ∷ order) out = hand_out k order (increment i out)

unfoldable pub leftover : Doubles → ℕ → List Weight → ℕ
leftover f remaining weights =
    let exact = shares f remaining (effective_sum f weights) (effective f weights) in
    remaining - total_of (floors f exact)

-- A cell for each child, and the remaining ones by weight.
unfoldable pub apportion : Doubles → ℕ → List Weight → List ℕ
apportion f total weights =
    let remaining = total - length weights in
    let exact = shares f remaining (effective_sum f weights) (effective f weights) in
    hand_out (leftover f remaining weights) (rank f.ahead (indexed 0 exact))
      (map suc (floors f exact))

-- `each` for every child, and one more for the first `rem` of them.
unfoldable pub spread : ℕ → ℤ → List Weight → List ℤ
spread rem each [] = []
spread zero each (w ∷ ws) = each ∷ spread zero each ws
spread (suc rem) each (w ∷ ws) = (each +ℤ pos 1) ∷ spread rem each ws

-- The split of a window that is too small; `total` may be negative.
unfoldable pub even_split : ℤ → List Weight → List ℤ
even_split total weights =
    let n = length weights in
    let each = floor_div total n in spread (pos_part (total -ℤ n *ℤ each)) each weights

unfoldable pub distribute_sizes : Doubles → ℤ → List Weight → List ℤ
distribute_sizes f total [] = []
distribute_sizes f total (w ∷ []) = total ∷ []
distribute_sizes f total (w ∷ v ∷ ws) =
    let weights = w ∷ v ∷ ws in
    if ltb_ℤ total (pos (length weights))
    then even_split total weights
    else map pos (apportion f (pos_part total) weights)

-- What a pane runs does not matter for its place.
mutual
  pub data TemplateNode : Type 0 where
    pane : TemplateNode
    hsplit : Nodes → Option (List Weight) → TemplateNode
    vsplit : Nodes → Option (List Weight) → TemplateNode

  pub data Nodes : Type 0 where
    no_nodes : Nodes
    node : TemplateNode → Nodes → Nodes

unfoldable pub node_count : Nodes → ℕ
node_count no_nodes = 0
node_count (node child rest) = suc (node_count rest)

unfoldable pub equal_weights : ℕ → List Weight
equal_weights zero = []
equal_weights (suc n) = amount 1 ∷ equal_weights n

unfoldable pub weights_for : ℕ → Option (List Weight) → List Weight
weights_for n none = equal_weights n
weights_for n (some sizes) = if length sizes == n then sizes else equal_weights n

-- The sizes of n children that share `total` with a separator between each two.
unfoldable pub child_sizes : Doubles → ℤ → Nodes → Option (List Weight) → List ℤ
child_sizes f total children sizes =
    let n = node_count children in
    distribute_sizes f (total -ℤ (pos n -ℤ pos 1)) (weights_for n sizes)

-- `row` and `column` are the two loops over the children; there is a size for each of them.
unfoldable mutual
  pub geometry_to_cell : Doubles → TemplateNode → ℤ → ℤ → ℤ → ℤ → LayoutCell
  geometry_to_cell f pane sx sy xoff yoff =
      leaf (record { width = sx; height = sy; x = xoff; y = yoff }) none
  geometry_to_cell f (hsplit children sizes) sx sy xoff yoff =
      split horizontal (record { width = sx; height = sy; x = xoff; y = yoff })
        (row f children (child_sizes f sx children sizes) sy xoff yoff)
  geometry_to_cell f (vsplit children sizes) sx sy xoff yoff =
      split vertical (record { width = sx; height = sy; x = xoff; y = yoff })
        (column f children (child_sizes f sy children sizes) sx xoff yoff)

  pub row : Doubles → Nodes → List ℤ → ℤ → ℤ → ℤ → Cells
  row f no_nodes widths sy cx yoff = no_cells
  row f (node child rest) [] sy cx yoff = no_cells
  row f (node child rest) (w ∷ widths) sy cx yoff =
      more (geometry_to_cell f child w sy cx yoff) (row f rest widths sy (cx +ℤ (w +ℤ pos 1)) yoff)

  pub column : Doubles → Nodes → List ℤ → ℤ → ℤ → ℤ → Cells
  column f no_nodes heights sx xoff cy = no_cells
  column f (node child rest) [] sx xoff cy = no_cells
  column f (node child rest) (h ∷ heights) sx xoff cy =
      more (geometry_to_cell f child sx h xoff cy)
        (column f rest heights sx xoff (cy +ℤ (h +ℤ pos 1)))

-- The layout string for a window of `cols` by `rows`.
unfoldable pub serialize_geometry : Doubles → TemplateNode → ℕ → ℕ → Chars
serialize_geometry f tree cols rows = dump_layout (record {
  checksum = 0;
  computed_checksum = 0;
  root = geometry_to_cell f tree (pos cols) (pos rows) (pos 0) (pos 0);
})
