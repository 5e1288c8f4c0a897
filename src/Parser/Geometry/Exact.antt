-- ===== src/Parser/Geometry/Exact.antt =====
-- The shares on whole numbers, without rounding.
use tmuxcc_driver.Prelude.{ℕ, suc, ◌-◌, ◌*◌, ◌/◌, List, [], ◌∷◌, map, ltb, if◌then◌else◌, length}
use tmuxcc_driver.Parser.Geometry.{Weight, Share, Ahead, total_of, usable, indexed, rank, hand_out}

-- The weights that count, and what they are divided by.
unfoldable pub effective : List Weight → List ℕ
effective weights =
    if ltb 0 (total_of (map usable weights)) then map usable weights else map (λ w. 1) weights

unfoldable pub effective_sum : List Weight → ℕ
effective_sum weights =
    if ltb 0 (total_of (map usable weights)) then total_of (map usable weights) else length weights

unfoldable pub shares : ℕ → ℕ → List ℕ → List Share
shares remaining divisor [] = []
shares remaining divisor (w ∷ ws) =
    record { product = remaining * w; divisor = divisor } ∷ shares remaining divisor ws

unfoldable pub floors : List Share → List ℕ
floors [] = []
floors (e ∷ es) = (e.product / e.divisor) ∷ floors es

unfoldable pub leftover : ℕ → List Weight → ℕ
leftover remaining weights =
    remaining - total_of (floors (shares remaining (effective_sum weights) (effective weights)))

-- A cell for each child, and the remaining ones by weight.
unfoldable pub apportion : Ahead → ℕ → List Weight → List ℕ
apportion ahead total weights =
    let remaining = total - length weights in
    let exact = shares remaining (effective_sum weights) (effective weights) in
    hand_out (leftover remaining weights) (rank ahead (indexed 0 exact)) (map suc (floors exact))
