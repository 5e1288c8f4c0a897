-- ===== src/Parser/Geometry/Quotas.antt =====
-- What a child gets by its weight, whoever gets the leftover cells.
use tmuxcc_driver.Prelude.{ℕ, zero, suc, ◌-◌, ◌≤◌, ◌≡◌, List, [], ◌∷◌, map, length, arith}
use tmuxcc_driver.Prelude.Int.{ℤ, pos, pos_part}
use tmuxcc_driver.Parser.Geometry.{Weight, Share, Ahead, total_of, increment, hand_out}
use tmuxcc_driver.Parser.Geometry.Exact.{effective, effective_sum, shares, floors, apportion}
use tmuxcc_driver.Parser.Geometry.Shares.{length-effective, length-floors, leftover_bounds}

-- One size for each number, and at least as large.
abbrev pub AreAtLeast : List ℕ → List ℤ → Type 0
AreAtLeast [] [] = Unit {0}
AreAtLeast [] (z ∷ zs) = ⊥
AreAtLeast (n ∷ ns) [] = ⊥
AreAtLeast (n ∷ ns) (z ∷ zs) = (n ≤ pos_part z) × AreAtLeast ns zs

-- A cell for each child, and the whole part of its share of the others.
abbrev pub quotas : ℕ → List Weight → List ℕ
quotas total weights =
    map suc (floors (shares (total - length weights) (effective_sum weights) (effective weights)))

AreAtLeast-map_pos : (ns : List ℕ) → AreAtLeast ns (map pos ns)
AreAtLeast-map_pos [] = tt
AreAtLeast-map_pos (n ∷ ns) = (omega arith, AreAtLeast-map_pos ns)

increment-AreAtLeast :
    (i : ℕ) (ns out : List ℕ)
    → AreAtLeast ns (map pos out)
    → AreAtLeast ns (map pos (increment i out))
unfolding increment
increment-AreAtLeast i ns [] h = h
increment-AreAtLeast i [] (m ∷ out) h = elim h [ ]
increment-AreAtLeast zero (n ∷ ns) (m ∷ out) (h, hs) = (omega arith, hs)
increment-AreAtLeast (suc i) (n ∷ ns) (m ∷ out) (h, hs) = (h, increment-AreAtLeast i ns out hs)

hand_out-AreAtLeast :
    (k : ℕ) (order : List (ℕ × Share)) (ns out : List ℕ)
    → AreAtLeast ns (map pos out)
    → AreAtLeast ns (map pos (hand_out k order out))
unfolding hand_out
hand_out-AreAtLeast zero order ns out h = h
hand_out-AreAtLeast (suc k) [] ns out h = h
hand_out-AreAtLeast (suc k) ((i, e) ∷ order) ns out h =
    hand_out-AreAtLeast k order ns (increment i out) (increment-AreAtLeast i ns out h)

pub apportion-AreAtLeast :
    (ahead : Ahead) (total : ℕ) (weights : List Weight)
    → AreAtLeast (quotas total weights) (map pos (apportion ahead total weights))
unfolding apportion
apportion-AreAtLeast ahead total weights =
    hand_out-AreAtLeast _ _ (quotas total weights) (quotas total weights)
      (AreAtLeast-map_pos (quotas total weights))

single_quota :
    (ns : List ℕ) (r : ℕ) (total : ℤ)
    → length ns ≡ 1
    → total_of ns ≤ r
    → suc r ≤ pos_part total
    → AreAtLeast (map suc ns) (total ∷ [])
single_quota [] r total one fits h = absurd (omega arith)
single_quota (n ∷ []) r total one fits h = (omega arith, tt)
single_quota (n ∷ m ∷ ns) r total one fits h = absurd (omega arith)

-- A single child has all cells.
pub single-AreAtLeast :
    (total : ℤ) (w : Weight)
    → 1 ≤ pos_part total
    → AreAtLeast (quotas (pos_part total) (w ∷ [])) (total ∷ [])
single-AreAtLeast total w h =
    let r = pos_part total - length (w ∷ []) in
    let ns = floors (shares r (effective_sum (w ∷ [])) (effective (w ∷ []))) in
    let (fit, few) = leftover_bounds r (w ∷ []) (omega arith) in
    let size = length-floors r (effective_sum (w ∷ [])) (effective (w ∷ [])) in
    let size' = length-effective (w ∷ []) in
    single_quota ns r total (omega arith) (omega arith) (omega arith)
