-- ===== src/Parser/Geometry/Shares.antt =====
-- The floors of the shares: what is left over is less than a cell for each child.
use tmuxcc_driver.Prelude.{
  ℕ, ◌+◌, ◌-◌, ◌*◌, ◌/◌, ◌≤◌, ◌<◌, ◌≡◌, refl, ap, List, [], ◌∷◌, map, ltb, length, arith,
  Bool-cases, inl, inr,
}
use tmuxcc_driver.Parser.Geometry.{Weight, total_of, usable}
use tmuxcc_driver.Parser.Geometry.Exact.{effective, effective_sum, shares, floors, leftover}

length-map_list : {A B : Type 0} (f : A → B) (xs : List A) → length (map f xs) ≡ length xs
length-map_list f [] = refl
length-map_list f (x ∷ xs) = omega (arith, length-map_list f xs)

pub length-effective : (weights : List Weight) → length (effective weights) ≡ length weights
unfolding effective
length-effective weights = elim (Bool-cases (ltb 0 (total_of (map usable weights)))) [
  | inl some_weight ↦ rw some_weight (length-map_list usable weights)
  | inr none ↦ rw none (length-map_list (λ w. 1) weights)
]

total_of-ones : (weights : List Weight) → total_of (map (λ w. 1) weights) ≡ length weights
total_of-ones [] = refl
total_of-ones (w ∷ ws) = omega (arith, total_of-ones ws)

pub effective_sum_lem :
    (weights : List Weight) → effective_sum weights ≡ total_of (effective weights)
unfolding effective_sum effective
effective_sum_lem weights = elim (Bool-cases (ltb 0 (total_of (map usable weights)))) [
  | inl some_weight ↦ rw some_weight refl
  | inr none ↦ rw none (omega (arith, total_of-ones weights))
]

pub effective_sum_pos : (weights : List Weight) → 0 < length weights → 0 < effective_sum weights
unfolding effective_sum
effective_sum_pos weights h = ground arith

pub length-floors : (r d : ℕ) (ws : List ℕ) → length (floors (shares r d ws)) ≡ length ws
unfolding floors shares
length-floors r d [] = refl
length-floors r d (w ∷ ws) = omega (arith, length-floors r d ws)

-- One floor, with the part that it cuts off.
pub floor_bounds : (p d : ℕ) → 0 < d → (d * (p / d) ≤ p) × (p < d * (p / d) + d)
floor_bounds p d h = grind arith

-- The floors take all but less than a whole for each child.
floors_bounds :
    (r d : ℕ) (ws : List ℕ)
    → 0 < d
    → (d * total_of (floors (shares r d ws)) ≤ r * total_of ws)
      × (r * total_of ws + length ws ≤ d * total_of (floors (shares r d ws)) + d * length ws)
unfolding floors shares
floors_bounds r d [] h = (omega arith, omega arith)
floors_bounds r d (w ∷ ws) h =
    let (below, above) = floors_bounds r d ws h in
    let (low, high) = floor_bounds (r * w) d h in (omega arith, omega arith)

-- a cancellation that is not linear
mul_cancel_le : (d a b : ℕ) → 0 < d → d * a ≤ d * b → a ≤ b
mul_cancel_le d a b h e = grind arith

pub mul_mono : (d a b : ℕ) → a ≤ b → d * a ≤ d * b
mul_mono d a b h = grind arith

leftover_below : (r d f n : ℕ) → 0 < d → 0 < n → f ≤ r → r * d + n ≤ d * f + d * n → r - f < n
leftover_below r d f n hd hn below h = elim (Bool-cases (ltb (r - f) n)) [
  | inl less ↦ ground arith
  | inr not_less ↦
      let far : f + n ≤ r = ground arith in
      let times : d * (f + n) ≤ d * r = mul_mono d (f + n) r far in absurd (omega arith)
]

-- What is left for the fractions: with the floors it makes up the cells that remain, and there are
-- fewer of them than children.
pub leftover_bounds :
    (r : ℕ) (weights : List Weight)
    → 0 < length weights
    → (total_of (floors (shares r (effective_sum weights) (effective weights))) + leftover r weights
        ≡ r)
      × (leftover r weights < length weights)
unfolding leftover
leftover_bounds r weights h =
    let d = effective_sum weights in
    let f = total_of (floors (shares r d (effective weights))) in
    let (low, high) = floors_bounds r d (effective weights) (effective_sum_pos weights h) in
    let sum : r * d ≡ r * total_of (effective weights) =
      ap (λ (t : ℕ). r * t) (effective_sum_lem weights) in
    let size : d * length (effective weights) ≡ d * length weights =
      ap (λ (t : ℕ). d * t) (length-effective weights) in
    let low' : d * f ≤ d * r = omega arith in
    let high' : r * d + length weights ≤ d * f + d * length weights =
      omega (arith, length-effective weights) in
    let below = mul_cancel_le d f r (effective_sum_pos weights h) low' in
    (omega arith, leftover_below r d f (length weights) (effective_sum_pos weights h) h below high')
