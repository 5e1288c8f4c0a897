-- ===== src/Prelude/Keys.antt =====
-- Maps and sets whose keys are all different, as a JavaScript `Map` and `Set` keep them.
use mathlib.Core.Path.{◌≡◌, refl}
use mathlib.Core.Bool.{false}
use mathlib.Core.List.{List, [], ◌∷◌}
use mathlib.Core.Option.{none}
use native.Mathlib.Omega.{arith}
use tmuxcc_driver.Prelude.Keyed.{Keyed}
use tmuxcc_driver.Prelude.Dict.{
  Dict, get, set, delete, has, add, remove, get-set, get-delete, has-add, has-remove,
}

module _ {ℓ κ} {K : Type ℓ} {V : Type κ} ⦃e : Keyed K⦄ where
  abbrev pub IsUnique : Dict K V → Type (ℓ ⊔ κ)
  IsUnique [] = Unit
  IsUnique ((k, v) ∷ m) = (get m k ≡ none) × IsUnique m

  pub set-IsUnique : (m : Dict K V) (k : K) (v : V) → IsUnique m → IsUnique (set m k v)
  unfolding set get
  set-IsUnique [] k v h = (refl, tt)
  set-IsUnique ((j, w) ∷ m) k v (new, h) =
      ground (arith, e.matches_iff j k, e.matches_iff k j, get-set m k j v, set-IsUnique m k v h)

  pub delete-IsUnique : (m : Dict K V) (k : K) → IsUnique m → IsUnique (delete m k)
  unfolding delete
  delete-IsUnique [] k h = tt
  delete-IsUnique ((j, w) ∷ m) k (new, h) =
      ground (arith, e.matches_iff k j, get-delete m k j, delete-IsUnique m k h)

module _ {ℓ} {K : Type ℓ} ⦃e : Keyed K⦄ where
  abbrev pub IsDistinct : List K → Type ℓ
  IsDistinct [] = Unit
  IsDistinct (k ∷ s) = (has s k ≡ false) × IsDistinct s

  pub add-IsDistinct : (s : List K) (k : K) → IsDistinct s → IsDistinct (add s k)
  unfolding add has
  add-IsDistinct [] k h = (refl, tt)
  add-IsDistinct (j ∷ s) k (new, h) =
      ground (arith, e.matches_iff j k, e.matches_iff k j, has-add s k j, add-IsDistinct s k h)

  pub remove-IsDistinct : (s : List K) (k : K) → IsDistinct s → IsDistinct (remove s k)
  unfolding remove
  remove-IsDistinct [] k h = tt
  remove-IsDistinct (j ∷ s) k (new, h) =
      ground (arith, e.matches_iff k j, has-remove s k j, remove-IsDistinct s k h)
