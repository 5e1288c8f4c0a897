-- ===== src/Parser/OscContent.antt =====
-- packages/driver/src/parser/notify-scanner.ts, `parseOscContent` and the parsers behind it.
-- A text is the list of its code units. Numbers are exact: the rounding of `parseInt` beyond 2^53,
-- and its `Infinity` from 309 digits on, are not in the model.
mod Forms
mod Tests
use tmuxcc_driver.Prelude.{
  ℕ, zero, suc, ◌+◌, ◌-◌, ◌≡◌, Bool, true, false, Option, none, some, List, [], ◌∷◌, ◌++◌, leb,
  ◌==◌, if◌then◌else◌, ◌&&◌, ◌||◌, length, drop,
}
use tmuxcc_driver.Prelude.Keyed.{matches_list, codes}
use tmuxcc_driver.Prelude.Int.{ℤ, pos, negsuc, sub_ℕ}
use tmuxcc_driver.Prelude.Decimal.{is_digit, decimal_from}
use tmuxcc_driver.Runtime.NotifyKind.{PaneNotifyKind, bell, osc9, progress, cmd_exit}

abbrev pub Chars : Type 0
Chars = List ℕ

pub data PaneNotifySource : Type 0 where
  from_osc9 from_osc777 : PaneNotifySource

pub data PaneProgressState : Type 0 where
  removed set_to error indeterminate paused : PaneProgressState

-- A field of `none` is absent.
pub record PaneNotifyPayload : Type 0 where
  pub message : Option Chars
  pub title : Option Chars
  pub source : Option PaneNotifySource
  pub progress_state : Option PaneProgressState
  pub percent : Option ℕ
  pub exit_code : Option ℤ

pub record PaneNotifyDetection : Type 0 where
  pub kind : PaneNotifyKind
  pub payload : Option PaneNotifyPayload

abbrev pub bare : PaneNotifyPayload
bare = record {
  message = none;
  title = none;
  source = none;
  progress_state = none;
  percent = none;
  exit_code = none;
}

abbrev pub semi : ℕ
semi = 0x3b

-- `content.indexOf(";")`: what stands before the first semicolon, and behind it if there is one.
unfoldable pub cut_at_semi : Chars → Chars × Option Chars
cut_at_semi [] = ([], none)
cut_at_semi (c ∷ s) =
    let later = cut_at_semi s in if c == semi then ([], some s) else (c ∷ later.0, later.1)

abbrev pub or_empty : Option Chars → Chars
or_empty none = []
or_empty (some s) = s

-- `rest.split(";")`: the first part and the others.
unfoldable pub split_semi : Chars → Chars × List Chars
split_semi [] = ([], [])
split_semi (c ∷ s) =
    let later = split_semi s in
    if c == semi then ([], later.0 ∷ later.1) else (c ∷ later.0, later.1)

-- `parts.join(";")`.
unfoldable pub join_semi : List Chars → Chars
join_semi [] = []
join_semi (p ∷ []) = p
join_semi (p ∷ q ∷ ps) = let later = join_semi (q ∷ ps) in p ++ semi ∷ later

-- The white space that `parseInt` skips.
abbrev pub is_space : ℕ → Bool
is_space c =
    (leb 0x9 c && leb c 0xd)
    || (c == 0x20)
    || (c == 0xa0)
    || (c == 0x1680)
    || (leb 0x2000 c && leb c 0x200a)
    || (c == 0x2028)
    || (c == 0x2029)
    || (c == 0x202f)
    || (c == 0x205f)
    || (c == 0x3000)
    || (c == 0xfeff)

unfoldable pub skip_spaces : Chars → Chars
skip_spaces [] = []
skip_spaces (c ∷ s) = let later = skip_spaces s in if is_space c then later else c ∷ s

unfoldable pub digits_of : Chars → Chars
digits_of [] = []
digits_of (c ∷ s) = let later = digits_of s in if is_digit c then c ∷ later else []

abbrev pub number_of : Chars → Option ℕ
number_of [] = none
number_of (d ∷ ds) = some (decimal_from 0 (d ∷ ds))

abbrev pub negated : Option ℕ → Option ℤ
negated none = none
negated (some n) = some (sub_ℕ 0 n)

abbrev pub positive : Option ℕ → Option ℤ
positive none = none
positive (some n) = some (pos n)

unfoldable pub signed : Chars → Option ℤ
unfolding digits_of
signed [] = none
signed (c ∷ s) =
    if c == 0x2d
    then negated (number_of (digits_of s))
    else if c == 0x2b
    then positive (number_of (digits_of s))
    else positive (number_of (digits_of (c ∷ s)))

-- `parseInt(text, 10)`; `none` is NaN.
unfoldable pub parse_int : Chars → Option ℤ
parse_int s = signed (skip_spaces s)

abbrev pub clamp_percent : ℤ → ℕ
clamp_percent (negsuc n) = 0
clamp_percent (pos n) = if leb n 100 then n else 100

-- `CONEMU_STATE`.
unfoldable pub conemu_state : Chars → Option PaneProgressState
conemu_state (c ∷ []) =
    if c == 0x30
    then some removed
    else if c == 0x31
    then some set_to
    else if c == 0x32
    then some error
    else if c == 0x33
    then some indeterminate
    else if c == 0x34
    then some paused
    else none
conemu_state _ = none

abbrev pub takes_percent : Option PaneProgressState → Bool
takes_percent (some set_to) = true
takes_percent (some error) = true
takes_percent (some paused) = true
takes_percent _ = false

abbrev pub percent_of : Option ℤ → Option ℕ
percent_of none = none
percent_of (some pr) = some (clamp_percent pr)

abbrev pub progress_percent : Option PaneProgressState → List Chars → Option ℕ
progress_percent state [] = none
progress_percent state (part ∷ parts) =
    if takes_percent state then percent_of (parse_int part) else none

unfoldable pub parse_conemu_progress : Chars → PaneNotifyDetection
parse_conemu_progress args =
    let parts = split_semi args in
    let state = conemu_state parts.0 in
    record {
      kind = progress;
      payload =
          some (record bare { progress_state = state; percent = progress_percent state parts.1 });
    }

unfoldable pub desktop_notification : Chars → PaneNotifyDetection
desktop_notification rest = record {
  kind = osc9;
  payload = some (record bare { message = some rest; source = some from_osc9 });
}

unfoldable pub parse_osc9 : Chars → PaneNotifyDetection
parse_osc9 (four ∷ sep ∷ st ∷ args) =
    if (four == 0x34) && (sep == semi) && leb 0x30 st && leb st 0x34
    then parse_conemu_progress (st ∷ args)
    else desktop_notification (four ∷ sep ∷ st ∷ args)
parse_osc9 rest = desktop_notification rest

abbrev pub title_of : List Chars → Option Chars
title_of [] = none
title_of ([] ∷ parts) = none
title_of ((c ∷ title) ∷ parts) = some (c ∷ title)

unfoldable pub parse_osc777 : Chars → Option PaneNotifyDetection
parse_osc777 rest =
    let parts = split_semi rest in
    if matches_list parts.0 (codes "notify")
    then some (record {
      kind = osc9;
      payload = some (record bare {
        message = some (join_semi (drop 1 parts.1));
        title = title_of parts.1;
        source = some from_osc777;
      });
    })
    else none

abbrev pub exit_of : List Chars → Option ℤ
exit_of [] = none
exit_of (part ∷ parts) = parse_int part

abbrev pub cmd_exit_detection : Option ℤ → PaneNotifyDetection
cmd_exit_detection none = record { kind = cmd_exit; payload = none }
cmd_exit_detection (some code) = record {
  kind = cmd_exit;
  payload = some (record bare { exit_code = some code });
}

unfoldable pub parse_osc633 : Chars → Option PaneNotifyDetection
parse_osc633 rest =
    let parts = split_semi rest in
    if matches_list parts.0 (codes "D") then some (cmd_exit_detection (exit_of parts.1)) else none

unfoldable pub parse_osc_content : Chars → Option PaneNotifyDetection
parse_osc_content content =
    let param = (cut_at_semi content).0 in
    let rest = or_empty (cut_at_semi content).1 in
    if matches_list param (codes "9")
    then some (parse_osc9 rest)
    else if matches_list param (codes "777")
    then parse_osc777 rest
    else if matches_list param (codes "633")
    then parse_osc633 rest
    else none
