-- ===== src/Parser/LayoutString/Checksum.antt =====
-- What the checksum detects.
use tmuxcc_driver.Prelude.{ℕ, ◌^◌, ◌<◌, ◌≡◌, ◌≢◌, refl, [], ◌∷◌, ◌++◌, arith}
use tmuxcc_driver.Parser.LayoutString.{Chars, checksum_step, checksum_loop, layout_checksum}

checksum_step-lt : (csum c : ℕ) → checksum_step csum c < 2 ^ 16
unfolding checksum_step
checksum_step-lt csum c = omega arith

-- A round loses nothing: the sum before it can be told from the sum behind it.
checksum_step_injective :
    (a b c : ℕ) → a < 2 ^ 16 → b < 2 ^ 16 → checksum_step a c ≡ checksum_step b c → a ≡ b
unfolding checksum_step
checksum_step_injective a b c ha hb e = omega arith

checksum_step_distinct :
    (a c d : ℕ) → c < 2 ^ 16 → d < 2 ^ 16 → checksum_step a c ≡ checksum_step a d → c ≡ d
unfolding checksum_step
checksum_step_distinct a c d hc hd e = omega arith

checksum_loop_injective :
    (s : Chars) (a b : ℕ) → a < 2 ^ 16 → b < 2 ^ 16 → checksum_loop a s ≡ checksum_loop b s → a ≡ b
unfolding checksum_loop
checksum_loop_injective [] a b ha hb e = e
checksum_loop_injective (c ∷ s) a b ha hb e = checksum_step_injective a b c ha hb (
    checksum_loop_injective s (checksum_step a c) (checksum_step b c) (checksum_step-lt a c)
      (checksum_step-lt b c) e)

checksum_loop-append :
    (s t : Chars) (a : ℕ) → checksum_loop a (s ++ t) ≡ checksum_loop (checksum_loop a s) t
unfolding checksum_loop
checksum_loop-append [] t a = refl
checksum_loop-append (c ∷ s) t a = checksum_loop-append s t (checksum_step a c)

-- One changed character changes the checksum: two bodies that differ in one code unit, whatever
-- stands before and behind it, never have the same one.
pub layout_checksum_detects :
    (before behind : Chars) (c d : ℕ)
    → c < 2 ^ 16
    → d < 2 ^ 16
    → c ≢ d
    → layout_checksum (before ++ c ∷ behind) ≢ layout_checksum (before ++ d ∷ behind)
unfolding layout_checksum checksum_loop
layout_checksum_detects before behind c d hc hd differ same =
    let csum = checksum_loop 0 before in
    let later : checksum_loop (checksum_step csum c) behind
        ≡ checksum_loop (checksum_step csum d) behind =
      cc (checksum_loop-append before (c ∷ behind) 0, checksum_loop-append before (d ∷ behind) 0) in
    differ (
      checksum_step_distinct csum c d hc hd (
        checksum_loop_injective behind (checksum_step csum c) (checksum_step csum d)
          (checksum_step-lt csum c) (checksum_step-lt csum d) later))
