-- ===== src/Parser/OscContent/Forms.antt =====
-- The contents that report something, as a writer would put them.
use mathlib.Core.Path.{subst}
use mathlib.Core.Logic.{◌≢◌}
use tmuxcc_driver.Prelude.{
  ℕ, suc, min, ◌≡◌, refl, sym, ap, ◌∙◌, false, Option, none, some, List, [], ◌∷◌, ◌++◌, arith, ◌==◌,
  All, Bool-cases, inl, inr,
}
use tmuxcc_driver.Prelude.Keyed.{matches_list, codes}
use tmuxcc_driver.Prelude.Int.{ℤ, pos, negsuc, sub_ℕ}
use tmuxcc_driver.Prelude.Decimal.{
  IsDigit, decimal_from, to_decimal, decimal_from-to_decimal, to_decimal-IsDigit, to_decimal_cons,
}
use tmuxcc_driver.Runtime.NotifyKind.{osc9, progress, cmd_exit}
use tmuxcc_driver.Parser.OscContent.{
  Chars, from_osc777, PaneProgressState, removed, set_to, error, indeterminate, paused,
  PaneNotifyDetection, bare, semi, cut_at_semi, split_semi, join_semi, is_space, skip_spaces,
  digits_of, number_of, negated, positive, signed, parse_int, conemu_state, clamp_percent,
  parse_conemu_progress, parse_osc9, title_of, parse_osc777, parse_osc633, parse_osc_content,
}

-- What a program may report.
pub data Report : Type 0 where
  titled : (title body : Chars) → Report
  progressed : PaneProgressState → ℕ → Report
  finished : Option ℤ → Report

abbrev pub print_int : ℤ → Chars
print_int (pos n) = to_decimal n
print_int (negsuc n) = 0x2d ∷ to_decimal (suc n)

abbrev pub state_digit : PaneProgressState → ℕ
state_digit removed = 0x30
state_digit set_to = 0x31
state_digit error = 0x32
state_digit indeterminate = 0x33
state_digit paused = 0x34

abbrev pub exit_text : Option ℤ → Chars
exit_text none = []
exit_text (some code) = semi ∷ print_int code

unfoldable pub content_of : Report → Chars
content_of (titled title body) = codes "777;notify;" ++ title ++ semi ∷ body
content_of (progressed state percent) =
    codes "9;4;" ++ state_digit state ∷ semi ∷ to_decimal percent
content_of (finished code) = codes "633;D" ++ exit_text code

abbrev pub title_field : Chars → Option Chars
title_field [] = none
title_field (c ∷ cs) = some (c ∷ cs)

abbrev pub percent_field : PaneProgressState → ℕ → Option ℕ
percent_field removed percent = none
percent_field indeterminate percent = none
percent_field _ percent = some (min percent 100)

unfoldable pub detection_of : Report → PaneNotifyDetection
detection_of (titled title body) = record {
  kind = osc9;
  payload =
      some
        (record bare { message = some body; title = title_field title; source = some from_osc777 });
}
detection_of (progressed state percent) = record {
  kind = progress;
  payload =
      some (record bare { progress_state = some state; percent = percent_field state percent });
}
detection_of (finished none) = record { kind = cmd_exit; payload = none }
detection_of (finished (some code)) = record {
  kind = cmd_exit;
  payload = some (record bare { exit_code = some code });
}

abbrev pub IsReport : Report → Type 0
IsReport (titled title body) = All (λ c. c ≢ semi) title
IsReport (progressed state percent) = Unit
IsReport (finished code) = Unit

join-split_semi : (s : Chars) → join_semi ((split_semi s).0 ∷ (split_semi s).1) ≡ s
unfolding split_semi join_semi
join-split_semi [] = refl
join-split_semi (c ∷ s) = elim (Bool-cases (c == semi)) [
  | inl t ↦ rw (t, join-split_semi s) (ap (λ (d : ℕ). d ∷ s) (ground (arith, t)))
  | inr f ↦ rw f (in_part (split_semi s).0 (split_semi s).1 (join-split_semi s))
]
  where
    in_part :
        (p : Chars) (ps : List Chars) → join_semi (p ∷ ps) ≡ s → join_semi ((c ∷ p) ∷ ps) ≡ c ∷ s
    in_part p [] e = ap (λ (t : Chars). c ∷ t) e
    in_part p (q ∷ qs) e = ap (λ (t : Chars). c ∷ t) e

split_semi-append :
    (part rest : Chars)
    → All (λ c. c ≢ semi) part
    → split_semi (part ++ semi ∷ rest) ≡ (part, (split_semi rest).0 ∷ (split_semi rest).1)
unfolding split_semi
split_semi-append [] rest free = refl
split_semi-append (c ∷ part) rest free =
    let other : (c == semi) ≡ false = ground (arith, free.0) in
    rw (other, split_semi-append part rest free.1) refl

split_semi-whole : (part : Chars) → All IsDigit part → split_semi part ≡ (part, [])
unfolding split_semi
split_semi-whole [] free = refl
split_semi-whole (c ∷ part) free =
    let other : (c == semi) ≡ false = ground (arith, free.0) in
    rw (other, split_semi-whole part free.1) refl

digits_of-whole : (ds : Chars) → All IsDigit ds → digits_of ds ≡ ds
unfolding digits_of
digits_of-whole [] free = refl
digits_of-whole (d ∷ ds) free = rw (free.0, digits_of-whole ds free.1) refl

number_of-to_decimal : (n : ℕ) → number_of (digits_of (to_decimal n)) ≡ some n
number_of-to_decimal n =
    let c = to_decimal_cons n in
    ap number_of (digits_of-whole (to_decimal n) (to_decimal-IsDigit n))
    ∙ rw c.2 (ap (λ (k : ℕ). some k) (ap (decimal_from 0) (sym c.2) ∙ decimal_from-to_decimal n))

-- A digit is no sign and no white space.
parse_int_digit :
    (d : ℕ) (ds : Chars)
    → IsDigit d
    → parse_int (d ∷ ds) ≡ positive (number_of (digits_of (d ∷ ds)))
unfolding parse_int skip_spaces signed
parse_int_digit d ds digit =
    let no_space : is_space d ≡ false = ground (arith, digit) in
    let no_minus : (d == 0x2d) ≡ false = ground (arith, digit) in
    let no_plus : (d == 0x2b) ≡ false = ground (arith, digit) in
    rw no_space (rw (no_minus, no_plus) refl)

parse_int-to_decimal : (n : ℕ) → parse_int (to_decimal n) ≡ some (pos n)
parse_int-to_decimal n =
    let c = to_decimal_cons n in
    let digits : All IsDigit (c.0 ∷ c.1) = subst (All IsDigit) c.2 (to_decimal-IsDigit n) in
    ap parse_int c.2
    ∙ parse_int_digit c.0 c.1 digits.0
    ∙ ap (λ (s : Chars). positive (number_of (digits_of s))) (sym c.2)
    ∙ ap positive (number_of-to_decimal n)

parse_int-print_int : (z : ℤ) → parse_int (print_int z) ≡ some z
parse_int-print_int (pos n) = parse_int-to_decimal n
parse_int-print_int (negsuc n) =
    let minus : sub_ℕ 0 (suc n) ≡ negsuc n = ground arith in
    unfold parse_int skip_spaces signed in
    ap negated (number_of-to_decimal (suc n)) ∙ ap (λ (z : ℤ). some z) minus

split_semi-print_int : (z : ℤ) → split_semi (print_int z) ≡ (print_int z, [])
unfolding split_semi
split_semi-print_int (pos n) = split_semi-whole (to_decimal n) (to_decimal-IsDigit n)
split_semi-print_int (negsuc n) =
    rw (split_semi-whole (to_decimal (suc n)) (to_decimal-IsDigit (suc n))) refl

title_of_lem : (title : Chars) (parts : List Chars) → title_of (title ∷ parts) ≡ title_field title
title_of_lem [] parts = refl
title_of_lem (c ∷ title) parts = refl

parse_osc777_lem :
    (title body : Chars)
    → All (λ c. c ≢ semi) title
    → parse_osc777 (codes "notify;" ++ title ++ semi ∷ body)
      ≡ some (detection_of (titled title body))
unfolding parse_osc777 split_semi detection_of matches_list
parse_osc777_lem title body free =
    rw
      (
        split_semi-append title body free,
        join-split_semi body,
        title_of_lem title ((split_semi body).0 ∷ (split_semi body).1),
      )
      refl

parse_osc633_lem :
    (code : Option ℤ)
    → parse_osc633 (codes "D" ++ exit_text code) ≡ some (detection_of (finished code))
unfolding parse_osc633 split_semi detection_of matches_list
parse_osc633_lem none = refl
parse_osc633_lem (some code) = rw (split_semi-print_int code, parse_int-print_int code) refl

clamp_lem : (n : ℕ) → clamp_percent (pos n) ≡ min n 100
clamp_lem n = ground arith

conemu_lem :
    (state : PaneProgressState) (n : ℕ)
    → parse_conemu_progress (state_digit state ∷ semi ∷ to_decimal n)
      ≡ detection_of (progressed state n)
unfolding parse_conemu_progress split_semi conemu_state detection_of
conemu_lem removed n = refl
conemu_lem set_to n =
    rw (split_semi-whole (to_decimal n) (to_decimal-IsDigit n), parse_int-to_decimal n, clamp_lem n)
      refl
conemu_lem error n =
    rw (split_semi-whole (to_decimal n) (to_decimal-IsDigit n), parse_int-to_decimal n, clamp_lem n)
      refl
conemu_lem indeterminate n = refl
conemu_lem paused n =
    rw (split_semi-whole (to_decimal n) (to_decimal-IsDigit n), parse_int-to_decimal n, clamp_lem n)
      refl

-- A title without semicolons, any body, a progress and its percentage, and an exit code are read
-- back from the contents that carry them: the body of an OSC 777 is all that follows the second
-- semicolon, an empty title counts as none, a percentage above 100 as 100, and none is read where
-- the state has none; every exit code of either sign is read, and its absence.
pub parse_osc_content-content_of :
    (report : Report)
    → IsReport report
    → parse_osc_content (content_of report) ≡ some (detection_of report)
unfolding parse_osc_content cut_at_semi matches_list content_of parse_osc9
parse_osc_content-content_of (titled title body) free = parse_osc777_lem title body free
parse_osc_content-content_of (progressed removed percent) free =
    ap (λ (d : PaneNotifyDetection). some d) (conemu_lem removed percent)
parse_osc_content-content_of (progressed set_to percent) free =
    ap (λ (d : PaneNotifyDetection). some d) (conemu_lem set_to percent)
parse_osc_content-content_of (progressed error percent) free =
    ap (λ (d : PaneNotifyDetection). some d) (conemu_lem error percent)
parse_osc_content-content_of (progressed indeterminate percent) free =
    ap (λ (d : PaneNotifyDetection). some d) (conemu_lem indeterminate percent)
parse_osc_content-content_of (progressed paused percent) free =
    ap (λ (d : PaneNotifyDetection). some d) (conemu_lem paused percent)
parse_osc_content-content_of (finished code) free = parse_osc633_lem code
