-- ===== src/Parser/Geometry/Rounding.antt =====
-- Where the doubles are exact: the weights of a split against the cells that they share.
use tmuxcc_driver.Prelude.{
  ℕ, ◌+◌, ◌-◌, ◌*◌, ◌≤◌, ◌<◌, ◌≡◌, refl, ap, ◌∙◌, List, [], ◌∷◌, map, ltb, length, arith,
  Bool-cases, inl, inr,
}
use tmuxcc_driver.Parser.Geometry.{
  Weight, Doubles, IsIeee, exact_limit, total_of, usable, sum_from, weight_sum, effective,
  effective_sum, shares, floors, leftover, apportion,
}
use tmuxcc_driver.Parser.Geometry.Exact
use tmuxcc_driver.Parser.Geometry.Shares.{mul_mono, effective_sum_lem, effective_sum_pos}

-- The sum of the weights and their number, times the cells, stay below 2^53.
abbrev pub IsInRange : ℕ → List Weight → Type 0
IsInRange limit weights =
    (1 ≤ limit)
    × (limit * total_of (map usable weights) < exact_limit)
    × (limit * length weights < exact_limit)

below_once : (limit n bound : ℕ) → 1 ≤ limit → limit * n < bound → n < bound
below_once limit n bound h fits = let once = mul_mono n 1 limit h in omega arith

sum_from_lem :
    (f : Doubles) (ieee : IsIeee f) (acc : ℕ) (ws : List ℕ)
    → acc + total_of ws < exact_limit
    → sum_from f acc ws ≡ acc + total_of ws
unfolding sum_from
sum_from_lem f ieee acc [] h = omega arith
sum_from_lem f ieee acc (w ∷ ws) h =
    rw (ieee.plus_exact acc w (omega arith))
      (sum_from_lem f ieee (acc + w) ws (omega arith) ∙ omega arith)

weight_sum_lem :
    (f : Doubles) (ieee : IsIeee f) (limit : ℕ) (weights : List Weight)
    → IsInRange limit weights
    → weight_sum f weights ≡ total_of (map usable weights)
unfolding weight_sum
weight_sum_lem f ieee limit weights (some_cell, fits, _) =
    let fits' = below_once limit (total_of (map usable weights)) exact_limit some_cell fits in
    sum_from_lem f ieee 0 (map usable weights) (omega arith) ∙ omega arith

effective_exact :
    (f : Doubles) (ieee : IsIeee f) (limit : ℕ) (weights : List Weight)
    → IsInRange limit weights
    → (effective f weights ≡ Exact.effective weights)
      × (effective_sum f weights ≡ Exact.effective_sum weights)
unfolding effective effective_sum Exact.effective Exact.effective_sum
effective_exact f ieee limit weights h = rw (weight_sum_lem f ieee limit weights h) (refl, refl)

-- What the weights are divided by stays in range too.
divisor_fits :
    (limit : ℕ) (weights : List Weight)
    → IsInRange limit weights
    → limit * Exact.effective_sum weights < exact_limit
unfolding Exact.effective_sum
divisor_fits limit weights (some_cell, fits, fits') =
    elim (Bool-cases (ltb 0 (total_of (map usable weights)))) [
      | inl some_weight ↦ rw some_weight fits
      | inr none ↦ rw none fits'
    ]

shares_exact :
    (f : Doubles) (ieee : IsIeee f) (r d : ℕ) (ws : List ℕ)
    → r * total_of ws < exact_limit
    → shares f r d ws ≡ Exact.shares r d ws
unfolding shares Exact.shares
shares_exact f ieee r d [] h = refl
shares_exact f ieee r d (w ∷ ws) h =
    rw (ieee.times_exact r w (omega arith)) (rw (shares_exact f ieee r d ws (omega arith)) refl)

floors_exact :
    (f : Doubles) (ieee : IsIeee f) (r d : ℕ) (ws : List ℕ)
    → r * total_of ws < exact_limit
    → d < exact_limit
    → 0 < d
    → floors f (Exact.shares r d ws) ≡ Exact.floors (Exact.shares r d ws)
unfolding floors Exact.floors Exact.shares
floors_exact f ieee r d [] h fits some_weight = refl
floors_exact f ieee r d (w ∷ ws) h fits some_weight =
    rw (ieee.floor_exact (r * w) d (omega arith) fits some_weight)
      (rw (floors_exact f ieee r d ws (omega arith) fits some_weight) refl)

-- In range the doubles give what whole numbers give.
pub apportion_exact :
    (f : Doubles) (ieee : IsIeee f) (limit total : ℕ) (weights : List Weight)
    → IsInRange limit weights
    → 0 < length weights
    → total ≤ limit
    → apportion f total weights ≡ Exact.apportion f.ahead total weights
unfolding apportion leftover Exact.apportion Exact.leftover
apportion_exact f ieee limit total weights h some_child small =
    let r = total - length weights in
    let d = Exact.effective_sum weights in
    let (ws_exact, d_exact) = effective_exact f ieee limit weights h in
    let less : d * r ≤ d * limit = mul_mono d r limit (omega arith) in
    let fits = divisor_fits limit weights h in
    let sum : r * d ≡ r * total_of (Exact.effective weights) =
      ap (λ (t : ℕ). r * t) (effective_sum_lem weights) in
    let in_range : r * total_of (Exact.effective weights) < exact_limit = omega arith in
    let products = shares_exact f ieee r d (Exact.effective weights) in_range in
    let quotients =
      floors_exact f ieee r d (Exact.effective weights) in_range
        (below_once limit d exact_limit h.0 fits) (effective_sum_pos weights some_child) in
    rw ws_exact (rw d_exact (rw products (rw quotients refl)))
