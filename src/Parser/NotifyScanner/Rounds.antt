-- ===== src/Parser/NotifyScanner/Rounds.antt =====
-- One round of the loop against the machine's step.
use mathlib.Core.Path.{subst}
use tmuxcc_driver.Prelude.{
  ℕ, ◌+◌, ◌≡◌, ◌⊎◌, refl, ap, true, false, Option, [], ◌∷◌, ◌++◌, arith, leb, ltb, ◌==◌, Bytes,
  length, take-length, Bool-cases, inl, inr,
}
use tmuxcc_driver.Parser.OscContent.{Chars, parse_osc_content}
use tmuxcc_driver.Parser.NotifyScanner.{
  bel, esc_code, osc_intro, st_bs, is_string_intro, max_osc_bytes, State, idle, esc, osc, osc_esc,
  str, str_esc, PaneNotifyScanner, emitted, Round, takes, again, decode_utf8, finish_osc, scan_byte,
}
use tmuxcc_driver.Parser.NotifyScanner.Machine.{
  Machine, Step, text_of, finish, at_idle, at_idle_state, take_byte,
}
use tmuxcc_driver.Parser.NotifyScanner.Array.{
  Holds, push_lem, overflow_lem, moved, stayed, restarted, counted, longer, emptied,
}

-- A round that takes its byte does the machine's step.
pub record Takes (r : Option Round) (t : Step) : Type 0 where
  pub scanner : PaneNotifyScanner
  pub round : r ≡ takes scanner t.1
  pub holds : Holds scanner t.0

-- A round that does not leaves the scanner idle for the byte.
pub record Retries (b : ℕ) (r : Option Round) (t : Step) : Type 0 where
  pub scanner : PaneNotifyScanner
  pub middle : Machine
  pub round : r ≡ again scanner
  pub is_idle : scanner.state ≡ idle
  pub holds : Holds scanner middle
  pub step : t ≡ at_idle b middle

module _ (utf8 : Bytes → Option Chars) (latin1 : Bytes → Chars) where
  decode_utf8_lem :
      (content spare : Bytes)
      → decode_utf8 utf8 latin1 (content ++ spare) (length content) ≡ text_of utf8 latin1 content
  unfolding decode_utf8 text_of
  decode_utf8_lem [] spare = refl
  decode_utf8_lem (b ∷ bs) spare =
      let some_bytes : (length (b ∷ bs) == 0) ≡ false = ground arith in
      rw (some_bytes, take-length (b ∷ bs) spare) refl

  finish_lem :
      (s : PaneNotifyScanner) (m : Machine)
      → Holds s m
      → Takes (finish_osc utf8 latin1 s) (finish utf8 latin1 m)
  unfolding finish_osc finish
  finish_lem s m h =
      let text : decode_utf8 utf8 latin1 s.buf s.buf_len ≡ text_of utf8 latin1 m.content =
        rw (h.buf, h.buf_len) (decode_utf8_lem m.content h.spare) in
      record {
        scanner = record s { state = idle; buf_len = 0 };
        round =
            ap
              (λ (c : Chars).
                takes (record s { state = idle; buf_len = 0 }) (emitted (parse_osc_content c)))
              text;
        holds = emptied idle s m h;
      }

  pub idle_lem :
      (b : ℕ) (s : PaneNotifyScanner) (m : Machine)
      → s.state ≡ idle
      → Holds s m
      → Takes (scan_byte utf8 latin1 b idle s) (at_idle b m)
  unfolding scan_byte at_idle
  idle_lem b s m e h = elim (Bool-cases (b == bel)) [
    | inl t ↦ rw t (record { scanner = s; round = refl; holds = stayed idle s m e h })
    | inr f ↦ rw f (elim (Bool-cases (b == esc_code)) [
      | inl t ↦
          rw t
            (record { scanner = record s { state = esc }; round = refl; holds = moved esc s m h })
      | inr g ↦ rw g (record { scanner = s; round = refl; holds = stayed idle s m e h })
    ])
  ]

  esc_lem :
      (b : ℕ) (s : PaneNotifyScanner) (m : Machine)
      → s.state ≡ esc
      → Holds s m
      → Takes (scan_byte utf8 latin1 b esc s) (take_byte utf8 latin1 b esc m)
  unfolding scan_byte take_byte
  esc_lem b s m e h = elim (Bool-cases (b == osc_intro)) [
    | inl t ↦ rw t (record {
      scanner = record s { state = osc; buf_len = 0 };
      round = refl;
      holds = emptied osc s m h;
    })
    | inr f ↦ rw f (elim (Bool-cases (is_string_intro b)) [
      | inl t ↦ rw t (record {
        scanner = record s { state = str; str_len = 0 };
        round = refl;
        holds = restarted str s m h;
      })
      | inr g ↦ rw g (elim (Bool-cases (b == esc_code)) [
        | inl t ↦ rw t (record { scanner = s; round = refl; holds = stayed esc s m e h })
        | inr k ↦
            rw k (record {
              scanner = record s { state = idle };
              round = refl;
              holds = moved idle s m h;
            })
      ])
    ])
  ]

  osc_lem :
      (b : ℕ) (s : PaneNotifyScanner) (m : Machine)
      → s.state ≡ osc
      → Holds s m
      → Takes (scan_byte utf8 latin1 b osc s) (take_byte utf8 latin1 b osc m)
        ⊎ Retries b (scan_byte utf8 latin1 b osc s) (take_byte utf8 latin1 b osc m)
  unfolding scan_byte take_byte
  osc_lem b s m e h = elim (Bool-cases (b == bel)) [
    | inl t ↦ rw t (inl (finish_lem s m h))
    | inr f ↦ rw f (elim (Bool-cases (b == esc_code)) [
      | inl t ↦ rw t (
          inl (record {
            scanner = record s { state = osc_esc };
            round = refl;
            holds = moved osc_esc s m h;
          }))
      | inr g ↦ rw g (elim (Bool-cases (leb max_osc_bytes (length m.content))) [
        | inl full ↦ rw full (
            inr (record {
              scanner = record s { state = idle };
              middle = record m { state = idle };
              round = rw (overflow_lem b s m h full) refl;
              is_idle = refl;
              holds = moved idle s m h;
              step = at_idle_state b m;
            }))
        | inr low ↦
            let p = push_lem b s m h (ground (arith, low)) in
            rw low (inl (record { scanner = p.0; round = rw p.1 refl; holds = p.2 }))
      ])
    ])
  ]

  osc_esc_lem :
      (b : ℕ) (s : PaneNotifyScanner) (m : Machine)
      → Holds s m
      → Takes (scan_byte utf8 latin1 b osc_esc s) (take_byte utf8 latin1 b osc_esc m)
        ⊎ Retries b (scan_byte utf8 latin1 b osc_esc s) (take_byte utf8 latin1 b osc_esc m)
  unfolding scan_byte take_byte
  osc_esc_lem b s m h = elim (Bool-cases (b == st_bs)) [
    | inl t ↦ rw t (inl (finish_lem s m h))
    | inr f ↦ rw f (
        inr (record {
          scanner = record s { state = idle; buf_len = 0 };
          middle = record m { state = idle; content = [] };
          round = refl;
          is_idle = refl;
          holds = emptied idle s m h;
          step = at_idle_state b (record m { content = [] });
        }))
  ]

  str_lem :
      (b : ℕ) (s : PaneNotifyScanner) (m : Machine)
      → s.state ≡ str
      → Holds s m
      → Takes (scan_byte utf8 latin1 b str s) (take_byte utf8 latin1 b str m)
  unfolding scan_byte take_byte
  str_lem b s m e h = elim (Bool-cases (b == bel)) [
    | inl t ↦
        rw t
          (record { scanner = record s { state = idle }; round = refl; holds = moved idle s m h })
    | inr f ↦ rw f (elim (Bool-cases (b == esc_code)) [
      | inl t ↦ rw t (record {
        scanner = record s { state = str_esc };
        round = refl;
        holds = moved str_esc s m h;
      })
      | inr g ↦ rw g (elim (Bool-cases (ltb max_osc_bytes (s.str_len + 1))) [
        | inl long ↦
            let long' : ltb max_osc_bytes (m.str_len + 1) ≡ true = ground (arith, long) in
            rw (long, long')
              (record {
                scanner = record s { state = idle; str_len = s.str_len + 1 };
                round = refl;
                holds = counted idle s m h;
              })
        | inr short ↦
            let short' : ltb max_osc_bytes (m.str_len + 1) ≡ false = ground (arith, short) in
            rw (short, short')
              (record {
                scanner = record s { str_len = s.str_len + 1 };
                round = refl;
                holds = longer str s m e h;
              })
      ])
    ])
  ]

  str_esc_lem :
      (b : ℕ) (s : PaneNotifyScanner) (m : Machine)
      → Holds s m
      → Takes (scan_byte utf8 latin1 b str_esc s) (take_byte utf8 latin1 b str_esc m)
        ⊎ Retries b (scan_byte utf8 latin1 b str_esc s) (take_byte utf8 latin1 b str_esc m)
  unfolding scan_byte take_byte
  str_esc_lem b s m h = elim (Bool-cases (b == st_bs)) [
    | inl t ↦ rw t (
        inl
          (record { scanner = record s { state = idle }; round = refl; holds = moved idle s m h }))
    | inr f ↦ rw f (
        inr (record {
          scanner = record s { state = idle };
          middle = record m { state = idle };
          round = refl;
          is_idle = refl;
          holds = moved idle s m h;
          step = at_idle_state b m;
        }))
  ]

  step_lem :
      (b : ℕ) (x : State) (s : PaneNotifyScanner) (m : Machine)
      → s.state ≡ x
      → Holds s m
      → Takes (scan_byte utf8 latin1 b x s) (take_byte utf8 latin1 b x m)
        ⊎ Retries b (scan_byte utf8 latin1 b x s) (take_byte utf8 latin1 b x m)
  step_lem b idle s m e h = inl (unfold take_byte in idle_lem b s m e h)
  step_lem b esc s m e h = inl (esc_lem b s m e h)
  step_lem b osc s m e h = osc_lem b s m e h
  step_lem b osc_esc s m e h = osc_esc_lem b s m h
  step_lem b str s m e h = inl (str_lem b s m e h)
  step_lem b str_esc s m e h = str_esc_lem b s m h

  pub step_at :
      (b : ℕ) (s : PaneNotifyScanner) (m : Machine)
      → Holds s m
      → Takes (scan_byte utf8 latin1 b s.state s) (take_byte utf8 latin1 b m.state m)
        ⊎ Retries b (scan_byte utf8 latin1 b s.state s) (take_byte utf8 latin1 b m.state m)
  step_at b s m h =
      subst
        (λ (x : State).
          Takes (scan_byte utf8 latin1 b s.state s) (take_byte utf8 latin1 b x m)
          ⊎ Retries b (scan_byte utf8 latin1 b s.state s) (take_byte utf8 latin1 b x m))
        h.state (step_lem b s.state s m refl h)
