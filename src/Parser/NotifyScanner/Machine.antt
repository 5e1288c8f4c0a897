-- ===== src/Parser/NotifyScanner/Machine.antt =====
-- The scanner byte by byte: no chunks, no array, and every byte is taken once.
use tmuxcc_driver.Prelude.{
  ℕ, ◌+◌, ◌≡◌, refl, sym, ap, Option, List, [], ◌∷◌, ◌++◌, append_assoc, leb, ltb, ◌==◌,
  if◌then◌else◌, Bytes, length,
}
use tmuxcc_driver.Parser.OscContent.{Chars, PaneNotifyDetection, parse_osc_content}
use tmuxcc_driver.Parser.NotifyScanner.{
  bel, esc_code, osc_intro, st_bs, is_string_intro, max_osc_bytes, State, idle, esc, osc, osc_esc,
  str, str_esc, bell_detection, emitted, fallback,
}

pub record Machine : Type 0 where
  pub state : State
  pub content : Bytes
  pub str_len : ℕ

abbrev pub start : Machine
start = record { state = idle; content = []; str_len = 0 }

abbrev pub Step : Type 0
Step = Machine × List PaneNotifyDetection

unfoldable pub at_idle : ℕ → Machine → Step
at_idle b m =
    if b == bel
    then (record m { state = idle }, bell_detection ∷ [])
    else (record m { state = if b == esc_code then esc else idle }, [])

-- The state before does not matter.
pub at_idle_state : (b : ℕ) (m : Machine) → at_idle b m ≡ at_idle b (record m { state = idle })
unfolding at_idle
at_idle_state b m = refl

module _ (utf8 : Bytes → Option Chars) (latin1 : Bytes → Chars) where
  unfoldable pub text_of : Bytes → Chars
  text_of [] = []
  text_of (b ∷ bs) = fallback utf8 latin1 (b ∷ bs) (utf8 (b ∷ bs))

  unfoldable pub finish : Machine → Step
  finish m =
      (record m { state = idle; content = [] }, emitted (parse_osc_content (text_of m.content)))

  -- A byte that ends a sequence without a terminator counts as one behind it.
  unfoldable pub take_byte : ℕ → State → Machine → Step
  take_byte b idle m = at_idle b m
  take_byte b esc m =
      if b == osc_intro
      then (record m { state = osc; content = [] }, [])
      else if is_string_intro b
      then (record m { state = str; str_len = 0 }, [])
      else (record m { state = if b == esc_code then esc else idle }, [])
  take_byte b osc m =
      if b == bel
      then finish m
      else if b == esc_code
      then (record m { state = osc_esc }, [])
      else if leb max_osc_bytes (length m.content)
      then at_idle b m
      else (record m { content = m.content ++ b ∷ [] }, [])
  take_byte b osc_esc m = if b == st_bs then finish m else at_idle b (record m { content = [] })
  take_byte b str m =
      if b == bel
      then (record m { state = idle }, [])
      else if b == esc_code
      then (record m { state = str_esc }, [])
      else (
        record m {
          state = if ltb max_osc_bytes (m.str_len + 1) then idle else str;
          str_len = m.str_len + 1;
        },
        [],
      )
  take_byte b str_esc m = if b == st_bs then (record m { state = idle }, []) else at_idle b m

  unfoldable pub take_all : Bytes → Machine → Step
  unfolding take_byte
  take_all [] m = (m, [])
  take_all (b ∷ bs) m =
      let first = take_byte b m.state m in
      let rest = take_all bs first.0 in (rest.0, first.1 ++ rest.1)

  pub take_all-append :
      (bs cs : Bytes) (m : Machine)
      → take_all (bs ++ cs) m ≡ (
        (take_all cs (take_all bs m).0).0,
        (take_all bs m).1 ++ (take_all cs (take_all bs m).0).1,
      )
  unfolding take_all
  take_all-append [] cs m = refl
  take_all-append (b ∷ bs) cs m = rw (take_all-append bs cs (take_byte b m.state m).0) (
      ap
        (λ (out : List PaneNotifyDetection).
          ((take_all cs (take_all bs (take_byte b m.state m).0).0).0, out))
        (sym (
          append_assoc (take_byte b m.state m).1 (take_all bs (take_byte b m.state m).0).1
            (take_all cs (take_all bs (take_byte b m.state m).0).0).1)))
