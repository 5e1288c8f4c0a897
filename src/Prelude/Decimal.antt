-- ===== src/Prelude/Decimal.antt =====
-- The decimal print of a number and the digits that are read back.
use Prim.Native.Nat.{ℕ, zero, suc, ◌+◌, ◌-◌, ◌*◌, ◌/◌, ◌%◌, ◌≤◌, ◌<◌}
use mathlib.Core.Path.{◌≡◌, refl}
use mathlib.Core.Logic.{inl, inr}
use mathlib.Core.Bool.{Bool, true, ◌&&◌}
use mathlib.Core.List.{List, [], ◌∷◌, ◌++◌}
use native.Mathlib.Omega.{arith}
use tmuxcc_driver.Prelude.Tests.{ltb, leb, if◌then◌else◌, Bool-cases}
use tmuxcc_driver.Prelude.Lists.{All, All-append, length, length-append}

abbrev pub is_digit : ℕ → Bool
is_digit c = leb 0x30 c && leb c 0x39

abbrev pub IsDigit : ℕ → Type 0
IsDigit c = is_digit c ≡ true

-- The number behind `value` and a run of digits.
abbrev pub decimal_from : ℕ → List ℕ → ℕ
decimal_from value [] = value
decimal_from value (d ∷ ds) = decimal_from (value * 10 + (d - 0x30)) ds

-- A number has fewer digits than its successor counts, so this fuel is enough.
decimal_loop : ℕ → ℕ → List ℕ
decimal_loop zero n = (0x30 + n % 10) ∷ []
decimal_loop (suc fuel) n =
    let higher = decimal_loop fuel (n / 10) in
    if ltb n 10 then (0x30 + n) ∷ [] else higher ++ (0x30 + n % 10) ∷ []

-- `String(n)` of a natural number.
unfoldable pub to_decimal : ℕ → List ℕ
unfolding decimal_loop
to_decimal n = decimal_loop n n

decimal_from-append :
    (value : ℕ) (ds : List ℕ) (d : ℕ)
    → decimal_from value (ds ++ d ∷ []) ≡ decimal_from value ds * 10 + (d - 0x30)
decimal_from-append value [] d = refl
decimal_from-append value (x ∷ ds) d = decimal_from-append (value * 10 + (x - 0x30)) ds d

decimal_from-decimal_loop : (fuel n : ℕ) → n ≤ fuel → decimal_from 0 (decimal_loop fuel n) ≡ n
unfolding decimal_loop
decimal_from-decimal_loop zero n h = omega arith
decimal_from-decimal_loop (suc fuel) n h = elim (Bool-cases (ltb n 10)) [
  | inl small ↦ rw small (omega arith)
  | inr large ↦ rw large (
      rw (decimal_from-append 0 (decimal_loop fuel (n / 10)) (0x30 + n % 10)) (
        let below : n / 10 ≤ fuel = ground arith in
        omega (arith, decimal_from-decimal_loop fuel (n / 10) below)))
]

-- Reading the print back gives the number.
pub decimal_from-to_decimal : (n : ℕ) → decimal_from 0 (to_decimal n) ≡ n
unfolding to_decimal
decimal_from-to_decimal n = decimal_from-decimal_loop n n (omega arith)

digits_decimal_loop : (fuel n : ℕ) → n ≤ fuel → All IsDigit (decimal_loop fuel n)
unfolding decimal_loop
digits_decimal_loop zero n h = (ground arith, tt)
digits_decimal_loop (suc fuel) n h = elim (Bool-cases (ltb n 10)) [
  | inl small ↦ rw small (ground arith, tt)
  | inr large ↦ rw large (
      let below : n / 10 ≤ fuel = ground arith in
      All-append IsDigit (decimal_loop fuel (n / 10)) ((0x30 + n % 10) ∷ [])
        (digits_decimal_loop fuel (n / 10) below) (ground arith, tt))
]

pub to_decimal-IsDigit : (n : ℕ) → All IsDigit (to_decimal n)
unfolding to_decimal
to_decimal-IsDigit n = digits_decimal_loop n n (omega arith)

decimal_loop_pos : (fuel n : ℕ) → 0 < length (decimal_loop fuel n)
unfolding decimal_loop
decimal_loop_pos zero n = omega arith
decimal_loop_pos (suc fuel) n = elim (Bool-cases (ltb n 10)) [
  | inl small ↦ rw small (omega arith)
  | inr large ↦
      rw large (omega (arith, length-append (decimal_loop fuel (n / 10)) ((0x30 + n % 10) ∷ [])))
]

-- The print is not empty.
pub to_decimal_cons : (n : ℕ) → (d : ℕ) × (ds : List ℕ) × (to_decimal n ≡ d ∷ ds)
unfolding to_decimal
to_decimal_cons n = head_of (decimal_loop n n) (decimal_loop_pos n n)
  where
    head_of : (s : List ℕ) → 0 < length s → (d : ℕ) × (ds : List ℕ) × (s ≡ d ∷ ds)
    head_of [] h = elim h [ ]
    head_of (d ∷ ds) h = (d, ds, refl)
