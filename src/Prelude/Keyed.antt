-- ===== src/Prelude/Keyed.antt =====
-- Equality tests of keys, as an interface, with its instances for texts and numbers.
use Prim.Native.Nat.{ℕ}
use Prim.Native.Char.{code}
use Prim.Native.String.{String}
use mathlib.Core.Path.{◌≡◌, refl}
use mathlib.Core.Logic.{◌≢◌, ◌↔◌}
use mathlib.Core.Bool.{Bool, true, false, ◌&&◌}
use mathlib.Core.List.{List, [], ◌∷◌}
use native.Mathlib.Omega.{arith}
use text.Mathlib.Text.{◌==◌ as same_text}
use text.Mathlib.TextEquality.{eq_iff as text_iff}
use tmuxcc_driver.Prelude.Tests.{◌==◌, ==_iff}

-- A type of map keys: its test, and that the test means equality.
pub record Keyed {ℓ} (Key : Type ℓ) : Type ℓ where
  pub matches : Key → Key → Bool
  pub matches_iff : (k j : Key) → (matches k j ≡ true) ↔ (k ≡ j)

instance abbrev pub string_keyed : Keyed String
string_keyed = record { matches_iff = text_iff; matches = same_text }

instance abbrev pub nat_keyed : Keyed ℕ
nat_keyed = record { matches_iff = ==_iff; matches = ◌==◌ }

-- Lists of numbers, element by element.
unfoldable pub matches_list : List ℕ → List ℕ → Bool
matches_list [] [] = true
matches_list (x ∷ xs) (y ∷ ys) = (x == y) && matches_list xs ys
matches_list _ _ = false

pub matches_list_iff : (xs ys : List ℕ) → (matches_list xs ys ≡ true) ↔ (xs ≡ ys)
unfolding matches_list
matches_list_iff [] [] = ground arith
matches_list_iff [] (y ∷ ys) = ground arith
matches_list_iff (x ∷ xs) [] = ground arith
matches_list_iff (x ∷ xs) (y ∷ ys) = ground (arith, matches_list_iff xs ys)

instance abbrev pub list_keyed : Keyed (List ℕ)
list_keyed = record { matches = matches_list; matches_iff = matches_list_iff }

-- The code units of a text literal.
abbrev pub codes : String → List ℕ
codes String.[] = []
codes (String.◌∷◌ c s) = code c ∷ codes s

module _ {ℓ} {Key : Type ℓ} ⦃e : Keyed Key⦄ where
  pub matches_refl : (a : Key) → e.matches a a ≡ true
  matches_refl a = (e.matches_iff a a).1 refl

  pub matches-eq_false : (a b : Key) → a ≢ b → e.matches a b ≡ false
  matches-eq_false a b h = ground (arith, e.matches_iff a b)
