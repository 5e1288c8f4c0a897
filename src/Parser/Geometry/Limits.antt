-- ===== src/Parser/Geometry/Limits.antt =====
-- An upper bound on the sizes of the children, for the ranges of the splits below.
use tmuxcc_driver.Prelude.{
  ℕ, zero, suc, ◌≤◌, ◌<◌, ◌≡◌, refl, Option, none, some, List, [], ◌∷◌, map, ◌==◌, true, false,
  length, arith, Bool-cases, inl, inr, ==_iff, All,
}
use tmuxcc_driver.Prelude.Int.{ℤ, pos, negsuc, pos_part, ◌+ℤ◌, ◌-ℤ◌, ◌*ℤ◌, ltb_ℤ, floor_div, sum_ℤ}
use tmuxcc_driver.Parser.Geometry.{
  Weight, Doubles, IsIeee, TemplateNode, pane, hsplit, vsplit, Nodes, no_nodes, node, node_count,
  total_of, spread, even_split, distribute_sizes, equal_weights, weights_for, child_sizes,
}
use tmuxcc_driver.Parser.Geometry.Exact.{apportion}
use tmuxcc_driver.Parser.Geometry.Sizes.{distribute_sizes_lem, apportion_lem}
use tmuxcc_driver.Parser.Geometry.Rounding.{IsInRange, apportion_exact}

abbrev pub AtMost : ℕ → ℤ → Type 0
AtMost limit z = pos_part z ≤ limit

-- Every split has a child, and weights in range.
abbrev mutual
  pub IsFit : ℕ → TemplateNode → Type 0
  IsFit limit pane = Unit {0}
  IsFit limit (hsplit children sizes) =
      (0 < node_count children)
      × IsInRange limit (weights_for (node_count children) sizes)
      × AreFit limit children
  IsFit limit (vsplit children sizes) =
      (0 < node_count children)
      × IsInRange limit (weights_for (node_count children) sizes)
      × AreFit limit children

  pub AreFit : ℕ → Nodes → Type 0
  AreFit limit no_nodes = Unit {0}
  AreFit limit (node child rest) = IsFit limit child × AreFit limit rest

spread-AtMost :
    (limit rem : ℕ) (each : ℤ) (ws : List Weight)
    → 1 ≤ limit
    → pos_part each ≡ 0
    → All (AtMost limit) (spread rem each ws)
unfolding spread ◌+ℤ◌
spread-AtMost limit zero each [] h k = tt
spread-AtMost limit (suc rem) each [] h k = tt
spread-AtMost limit zero each (w ∷ ws) h k = (omega arith, spread-AtMost limit zero each ws h k)
spread-AtMost limit (suc rem) (pos n) (w ∷ ws) h k =
    (ground arith, spread-AtMost limit rem (pos n) ws h k)
spread-AtMost limit (suc rem) (negsuc n) (w ∷ ws) h k =
    (ground arith, spread-AtMost limit rem (negsuc n) ws h k)

floor_div_small :
    (total : ℤ) (n : ℕ) → ltb_ℤ total (pos n) ≡ true → pos_part (floor_div total n) ≡ 0
floor_div_small (pos t) n h = grind arith
floor_div_small (negsuc t) n h = grind arith

map_pos-AtMost : (limit : ℕ) (ns : List ℕ) → total_of ns ≤ limit → All (AtMost limit) (map pos ns)
map_pos-AtMost limit [] h = tt
map_pos-AtMost limit (n ∷ ns) h = (omega arith, map_pos-AtMost limit ns (omega arith))

enough_cells : (total : ℤ) (n : ℕ) → ltb_ℤ total (pos n) ≡ false → n ≤ pos_part total
enough_cells (pos t) n h = ground arith
enough_cells (negsuc t) n h = absurd (ground arith)

distribute_sizes-AtMost :
    (f : Doubles) (ieee : IsIeee f) (limit : ℕ) (total : ℤ) (weights : List Weight)
    → IsInRange limit weights
    → pos_part total ≤ limit
    → All (AtMost limit) (distribute_sizes f total weights)
unfolding distribute_sizes even_split
distribute_sizes-AtMost f ieee limit total [] range h = tt
distribute_sizes-AtMost f ieee limit total (w ∷ []) range h = (h, tt)
distribute_sizes-AtMost f ieee limit total (w ∷ v ∷ ws) range h =
    let weights = w ∷ v ∷ ws in
    let n = length weights in
    let each = floor_div total n in
    elim (Bool-cases (ltb_ℤ total (pos n))) [
      | inl small ↦ rw small (
          spread-AtMost limit (pos_part (total -ℤ n *ℤ each)) each weights range.0
            (floor_div_small total n small))
      | inr large ↦ rw large (
          rw (apportion_exact f ieee limit (pos_part total) weights range (omega arith) h) (
            let enough = enough_cells total n large in
            let (sum, _, _) = apportion_lem f.ahead (pos_part total) weights (omega arith) enough in
            map_pos-AtMost limit (apportion f.ahead (pos_part total) weights) (omega arith)))
    ]

length-equal_weights : (n : ℕ) → length (equal_weights n) ≡ n
unfolding equal_weights
length-equal_weights zero = refl
length-equal_weights (suc n) = omega (arith, length-equal_weights n)

length-weights_for : (n : ℕ) (sizes : Option (List Weight)) → length (weights_for n sizes) ≡ n
unfolding weights_for
length-weights_for n none = length-equal_weights n
length-weights_for n (some ws) = elim (Bool-cases (length ws == n)) [
  | inl same ↦ rw same ((==_iff (length ws) n).0 same)
  | inr other ↦ rw other (length-equal_weights n)
]

shrink :
    (total : ℤ) (n limit : ℕ)
    → 0 < n
    → AtMost limit total
    → AtMost limit (total -ℤ (pos n -ℤ pos 1))
unfolding ◌-ℤ◌
shrink (pos t) n limit h k = ground arith
shrink (negsuc t) n limit h k = ground arith

pub child_sizes_lem :
    (f : Doubles) (ieee : IsIeee f) (limit : ℕ) (total : ℤ) (children : Nodes)
    (sizes : Option (List Weight))
    → 0 < node_count children
    → IsInRange limit (weights_for (node_count children) sizes)
    → pos_part total ≤ limit
    → (sum_ℤ (child_sizes f total children sizes) ≡ total -ℤ (pos (node_count children) -ℤ pos 1))
      × (length (child_sizes f total children sizes) ≡ node_count children)
      × All (AtMost limit) (child_sizes f total children sizes)
unfolding child_sizes
child_sizes_lem f ieee limit total children sizes h range bound =
    let n = node_count children in
    let weights = weights_for n sizes in
    let count = length-weights_for n sizes in
    let share = total -ℤ (pos n -ℤ pos 1) in
    let small = shrink total n limit h bound in
    let (sum, size, _) =
      distribute_sizes_lem f ieee limit share weights (omega arith) range small in
    (sum, omega arith, distribute_sizes-AtMost f ieee limit share weights range small)
