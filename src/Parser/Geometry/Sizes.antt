-- ===== src/Parser/Geometry/Sizes.antt =====
-- The sizes that distributeSizes returns: their sum, their number, and the least for every child.
use tmuxcc_driver.Prelude.{
  ℕ, zero, suc, ◌+◌, ◌-◌, ◌≤◌, ◌<◌, min, ◌≡◌, ◌⊎◌, refl, sym, ap, ◌∙◌, true, false, List, [], ◌∷◌,
  map, length, arith, Bool-cases, inl, inr, All,
}
use tmuxcc_driver.Prelude.Int.{
  ℤ, pos, negsuc, pos_part, neg_part, ◌+ℤ◌, ◌-ℤ◌, ◌*ℤ◌, ltb_ℤ, floor_div, sum_ℤ, int_laws,
}
use tmuxcc_driver.Parser.Geometry.{
  Weight, Share, Ahead, Doubles, IsIeee, total_of, indexed, insert_ranked, rank, increment,
  hand_out, spread, even_split, distribute_sizes,
}
use tmuxcc_driver.Parser.Geometry.Exact.{
  effective, effective_sum, shares, floors, leftover, apportion,
}
use tmuxcc_driver.Parser.Geometry.Shares.{
  floor_bounds, length-effective, length-floors, leftover_bounds,
}
use tmuxcc_driver.Parser.Geometry.Quotas.{
  AreAtLeast, quotas, apportion-AreAtLeast, single-AreAtLeast,
}
use tmuxcc_driver.Parser.Geometry.Rounding.{IsInRange, apportion_exact}

abbrev Below : ℕ → ℕ × Share → Type 0
Below n x = x.0 < n

insert_ranked-All :
    (ahead : Ahead) (n : ℕ) (x : ℕ × Share) (ys : List (ℕ × Share))
    → Below n x
    → All (Below n) ys
    → All (Below n) (insert_ranked ahead x ys)
      × (length (insert_ranked ahead x ys) ≡ suc (length ys))
unfolding insert_ranked
insert_ranked-All ahead n x [] h k = ((h, tt), refl)
insert_ranked-All ahead n x (y ∷ ys) h k =
    let (later, size) = insert_ranked-All ahead n x ys h k.1 in
    elim (Bool-cases (ahead y.1 x.1)) [
      | inl first ↦ rw first ((k.0, later), omega arith)
      | inr behind ↦ rw behind ((h, k), refl)
    ]

rank-All :
    (ahead : Ahead) (n : ℕ) (xs : List (ℕ × Share))
    → All (Below n) xs
    → All (Below n) (rank ahead xs) × (length (rank ahead xs) ≡ length xs)
unfolding rank
rank-All ahead n [] h = (tt, refl)
rank-All ahead n (x ∷ xs) (h, hs) =
    let (later, size) = rank-All ahead n xs hs in
    let (all, size') = insert_ranked-All ahead n x (rank ahead xs) h later in (all, omega arith)

indexed-All :
    (i n r d : ℕ) (ws : List ℕ)
    → i + length ws ≤ n
    → All (Below n) (indexed i (shares r d ws)) × (length (indexed i (shares r d ws)) ≡ length ws)
unfolding indexed shares
indexed-All i n r d [] h = (tt, refl)
indexed-All i n r d (w ∷ ws) h =
    let (later, size) = indexed-All (suc i) n r d ws (omega arith) in
    ((omega arith, later), omega arith)

increment_lem :
    (i : ℕ) (out : List ℕ)
    → i < length out
    → (total_of (increment i out) ≡ suc (total_of out)) × (length (increment i out) ≡ length out)
unfolding increment
increment_lem i [] h = elim h [ ]
increment_lem zero (n ∷ ns) h = (omega arith, refl)
increment_lem (suc i) (n ∷ ns) h =
    let (sum, size) = increment_lem i ns (omega arith) in (omega arith, omega arith)

increment-All : (i : ℕ) (out : List ℕ) → All (λ n. 1 ≤ n) out → All (λ n. 1 ≤ n) (increment i out)
unfolding increment
increment-All i [] h = tt
increment-All zero (n ∷ ns) (h, hs) = (omega arith, hs)
increment-All (suc i) (n ∷ ns) (h, hs) = (h, increment-All i ns hs)

hand_out_lem :
    (k : ℕ) (order : List (ℕ × Share)) (out : List ℕ)
    → k ≤ length order
    → All (Below (length out)) order
    → (total_of (hand_out k order out) ≡ total_of out + k)
      × (length (hand_out k order out) ≡ length out)
unfolding hand_out
hand_out_lem zero order out h b = (omega arith, refl)
hand_out_lem (suc k) [] out h b = absurd (omega arith)
hand_out_lem (suc k) ((i, e) ∷ order) out h (b, bs) =
    let (sum, size) = increment_lem i out b in
    let (sums, sizes) = hand_out_lem k order (increment i out) (omega arith) (rw size bs) in
    (omega arith, omega arith)

hand_out-All :
    (k : ℕ) (order : List (ℕ × Share)) (out : List ℕ)
    → All (λ n. 1 ≤ n) out
    → All (λ n. 1 ≤ n) (hand_out k order out)
unfolding hand_out
hand_out-All zero order out h = h
hand_out-All (suc k) [] out h = h
hand_out-All (suc k) ((i, e) ∷ order) out h =
    hand_out-All k order (increment i out) (increment-All i out h)

baseline :
    (ns : List ℕ)
    → (total_of (map suc ns) ≡ total_of ns + length ns)
      × (length (map suc ns) ≡ length ns)
      × All (λ n. 1 ≤ n) (map suc ns)
baseline [] = (refl, refl, tt)
baseline (n ∷ ns) =
    let (sum, size, all) = baseline ns in (omega arith, omega arith, (omega arith, all))

pub apportion_lem :
    (ahead : Ahead) (total : ℕ) (weights : List Weight)
    → 0 < length weights
    → length weights ≤ total
    → (total_of (apportion ahead total weights) ≡ total)
      × (length (apportion ahead total weights) ≡ length weights)
      × All (λ n. 1 ≤ n) (apportion ahead total weights)
unfolding apportion
apportion_lem ahead total weights some_child enough =
    let r = total - length weights in
    let d = effective_sum weights in
    let out = map suc (floors (shares r d (effective weights))) in
    let (fit, few) = leftover_bounds r weights some_child in
    let (sum, size, all) = baseline (floors (shares r d (effective weights))) in
    let floors_size = length-floors r d (effective weights) in
    let effective_size = length-effective weights in
    let (indices, count) = indexed-All 0 (length out) r d (effective weights) (omega arith) in
    let (ranked, ranked_count) =
      rank-All ahead (length out) (indexed 0 (shares r d (effective weights))) indices in
    let order = rank ahead (indexed 0 (shares r d (effective weights))) in
    let (sums, sizes) = hand_out_lem (leftover r weights) order out (omega arith) ranked in
    (omega arith, omega arith, hand_out-All (leftover r weights) order out all)

sum-spread :
    (rem : ℕ) (each : ℤ) (ws : List Weight)
    → (sum_ℤ (spread rem each ws) ≡ length ws *ℤ each +ℤ pos (min rem (length ws)))
      × (length (spread rem each ws) ≡ length ws)
unfolding spread
sum-spread zero each [] = (omega int_laws, refl)
sum-spread (suc rem) each [] = (omega int_laws, refl)
sum-spread zero each (w ∷ ws) =
    let (sum, size) = sum-spread zero each ws in
    (omega (int_laws, ap pos_part sum, ap neg_part sum), omega arith)
sum-spread (suc rem) each (w ∷ ws) =
    let (sum, size) = sum-spread rem each ws in
    (omega (int_laws, ap pos_part sum, ap neg_part sum), omega arith)

-- The remainder of the rounded quotient is not negative and less than the divisor.
floor_rem :
    (total : ℤ) (n : ℕ)
    → 0 < n
    → (neg_part (total -ℤ n *ℤ floor_div total n) ≡ 0)
      × (pos_part (total -ℤ n *ℤ floor_div total n) ≤ n)
unfolding ◌-ℤ◌ ◌*ℤ◌
floor_rem (pos t) n h = let (low, high) = floor_bounds t n h in (ground arith, ground arith)
floor_rem (negsuc t) n h = let (low, high) = floor_bounds t n h in (ground arith, ground arith)

sum-even_split :
    (total : ℤ) (weights : List Weight)
    → 0 < length weights
    → (sum_ℤ (even_split total weights) ≡ total)
      × (length (even_split total weights) ≡ length weights)
unfolding even_split
sum-even_split total weights h =
    let n = length weights in
    let each = floor_div total n in
    let (natural, small) = floor_rem total n h in
    let (sum, size) = sum-spread (pos_part (total -ℤ n *ℤ each)) each weights in
    (omega (int_laws, ap pos_part sum, ap neg_part sum), size)

sum-map_pos :
    (ns : List ℕ) → (sum_ℤ (map pos ns) ≡ pos (total_of ns)) × (length (map pos ns) ≡ length ns)
sum-map_pos [] = (refl, refl)
sum-map_pos (n ∷ ns) =
    let (sum, size) = sum-map_pos ns in
    (omega (int_laws, ap pos_part sum, ap neg_part sum), omega arith)

-- A size of one cell or more.
abbrev pub HasCell : ℤ → Type 0
HasCell z = 1 ≤ pos_part z

HasCell-map_pos : (ns : List ℕ) → All (λ n. 1 ≤ n) ns → All HasCell (map pos ns)
HasCell-map_pos [] h = tt
HasCell-map_pos (n ∷ ns) (h, hs) = (h, HasCell-map_pos ns hs)

not_below :
    (total : ℤ) (n : ℕ)
    → ltb_ℤ total (pos n) ≡ false
    → (total ≡ pos (pos_part total)) × (n ≤ pos_part total)
not_below (pos t) n h = (refl, ground arith)
not_below (negsuc t) n h = absurd (ground arith)

-- For doubles as IEEE 754 has them, and weights whose sum, in units of a power of two that they have in
-- common, and number, each times the cells that the children share (or 1), stay below 2^53: the sizes
-- of the children add up to those cells, also in a window that is too small; there is one
-- size for each child; and where the cells reach, every child has at least one, and no less than one
-- and the whole part of its share by weight of the cells that remain when every child has one.
pub distribute_sizes_lem :
    (f : Doubles) (ieee : IsIeee f) (limit : ℕ) (total : ℤ) (weights : List Weight)
    → 0 < length weights
    → IsInRange limit weights
    → pos_part total ≤ limit
    → (sum_ℤ (distribute_sizes f total weights) ≡ total)
      × (length (distribute_sizes f total weights) ≡ length weights)
      × ((ltb_ℤ total (pos (length weights)) ≡ true)
          ⊎ (All HasCell (distribute_sizes f total weights)
              × AreAtLeast (quotas (pos_part total) weights) (distribute_sizes f total weights)))
unfolding distribute_sizes
distribute_sizes_lem f ieee limit total [] h range small_total = elim h [ ]
distribute_sizes_lem f ieee limit total (w ∷ []) h range small_total = (
  omega int_laws,
  refl,
  elim (Bool-cases (ltb_ℤ total (pos 1))) [
    | inl small ↦ inl small
    | inr large ↦
        let enough = (not_below total 1 large).1 in
        inr ((enough, tt), single-AreAtLeast total w enough)
  ],
)
distribute_sizes_lem f ieee limit total (w ∷ v ∷ ws) h range small_total =
    elim (Bool-cases (ltb_ℤ total (pos (length (w ∷ v ∷ ws))))) [
      | inl small ↦
          rw small (let (sum, size) = sum-even_split total (w ∷ v ∷ ws) h in (sum, size, inl refl))
      | inr large ↦
          let weights = w ∷ v ∷ ws in
          rw large (
            rw (apportion_exact f ieee limit (pos_part total) weights range h small_total) (
              let (whole, enough) = not_below total (length weights) large in
              let (sum, size, all) = apportion_lem f.ahead (pos_part total) weights h enough in
              let (sum', size') = sum-map_pos (apportion f.ahead (pos_part total) weights) in
              (
                sum' ∙ ap pos sum ∙ sym whole,
                omega arith,
                inr (
                  HasCell-map_pos (apportion f.ahead (pos_part total) weights) all,
                  apportion-AreAtLeast f.ahead (pos_part total) weights,
                ),
              )))
    ]
