-- ===== src/Prelude/Dict.antt =====
-- A JavaScript `Map` as its entries in insertion order: a write to a key that is there keeps its
-- place, a new key goes to the end.
use mathlib.Core.Path.{◌≡◌, refl}
use mathlib.Core.Bool.{Bool, false, ◌||◌}
use mathlib.Core.List.{List, [], ◌∷◌}
use mathlib.Core.Option.{Option, none, some}
use native.Mathlib.Omega.{arith}
use tmuxcc_driver.Prelude.Keyed.{Keyed, matches_refl}
use tmuxcc_driver.Prelude.Tests.{if◌then◌else◌}

abbrev pub Dict {ℓ κ} : Type ℓ → Type κ → Type (ℓ ⊔ κ)
Dict K V = List (K × V)

module _ {ℓ κ} {K : Type ℓ} {V : Type κ} ⦃e : Keyed K⦄ where
  unfoldable pub get : Dict K V → K → Option V
  get [] k = none
  get ((j, v) ∷ m) k = if e.matches j k then some v else get m k

  unfoldable pub set : Dict K V → K → V → Dict K V
  set [] k v = (k, v) ∷ []
  set ((j, w) ∷ m) k v = if e.matches j k then (j, v) ∷ m else (j, w) ∷ set m k v

  unfoldable pub delete : Dict K V → K → Dict K V
  delete [] k = []
  delete ((j, w) ∷ m) k = let rest = delete m k in if e.matches j k then rest else (j, w) ∷ rest

  pub get-set :
      (m : Dict K V) (k j : K) (v : V)
      → get (set m k v) j ≡ (if e.matches k j then some v else get m j)
  unfolding get set
  get-set [] k j v = refl
  get-set ((i, w) ∷ m) k j v =
      ground (arith, e.matches_iff k j, e.matches_iff i k, e.matches_iff i j, get-set m k j v)

  pub get-set_self : (m : Dict K V) (k : K) (v : V) → get (set m k v) k ≡ some v
  get-set_self m k v = rw (get-set m k k v, matches_refl k) refl

  pub get-delete :
      (m : Dict K V) (k j : K) → get (delete m k) j ≡ (if e.matches k j then none else get m j)
  unfolding get delete
  get-delete [] k j = ground arith
  get-delete ((i, w) ∷ m) k j =
      ground (arith, e.matches_iff k j, e.matches_iff i k, e.matches_iff i j, get-delete m k j)

-- A JavaScript `Set` as its members in insertion order.
module _ {ℓ} {K : Type ℓ} ⦃e : Keyed K⦄ where
  unfoldable pub has : List K → K → Bool
  has [] k = false
  has (j ∷ s) k = e.matches j k || has s k

  unfoldable pub add : List K → K → List K
  add [] k = k ∷ []
  add (j ∷ s) k = if e.matches j k then j ∷ s else j ∷ add s k

  unfoldable pub remove : List K → K → List K
  remove [] k = []
  remove (j ∷ s) k = let rest = remove s k in if e.matches j k then rest else j ∷ rest

  pub has-add : (s : List K) (k j : K) → has (add s k) j ≡ (e.matches k j || has s j)
  unfolding has add
  has-add [] k j = refl
  has-add (i ∷ s) k j =
      ground (arith, e.matches_iff k j, e.matches_iff i k, e.matches_iff i j, has-add s k j)

  pub has-remove :
      (s : List K) (k j : K) → has (remove s k) j ≡ (if e.matches k j then false else has s j)
  unfolding has remove
  has-remove [] k j = ground arith
  has-remove (i ∷ s) k j =
      ground (arith, e.matches_iff k j, e.matches_iff i k, e.matches_iff i j, has-remove s k j)
