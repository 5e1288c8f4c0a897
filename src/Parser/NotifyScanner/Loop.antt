-- ===== src/Parser/NotifyScanner/Loop.antt =====
-- The loop over a chunk does what the machine does, and ends.
use tmuxcc_driver.Prelude.{
  ℕ, zero, suc, ◌*◌, ◌≤◌, ◌≡◌, refl, sym, ap, ◌∙◌, true, false, Option, some, List, [], ◌∷◌, ◌++◌,
  arith, ◌==◌, ◌&&◌, not, Bytes, length, concat, Bool-cases, inl, inr,
}
use tmuxcc_driver.Parser.OscContent.{Chars, PaneNotifyDetection}
use tmuxcc_driver.Parser.NotifyScanner.{
  bel, esc_code, State, idle, esc, osc, osc_esc, str, str_esc, PaneNotifyScanner, has_esc_or_bel,
  takes, again, scan_byte, Scanned, behind, scan_loop, is_idle, scan, scan_all,
}
use tmuxcc_driver.Parser.NotifyScanner.Machine.{
  Machine, Step, at_idle, take_byte, take_all, take_all-append,
}
use tmuxcc_driver.Parser.NotifyScanner.Array.{Holds}
use tmuxcc_driver.Parser.NotifyScanner.Rounds.{Takes, Retries, idle_lem, step_at}

is_idle_true : (x : State) → is_idle x ≡ true → x ≡ idle
is_idle_true idle e = refl
is_idle_true esc e = absurd (cc e)
is_idle_true osc e = absurd (cc e)
is_idle_true osc_esc e = absurd (cc e)
is_idle_true str e = absurd (cc e)
is_idle_true str_esc e = absurd (cc e)

module _ (utf8 : Bytes → Option Chars) (latin1 : Bytes → Chars) where
  loop_takes :
      (fuel b : ℕ) (bs : Bytes) (s s' : PaneNotifyScanner) (out : List PaneNotifyDetection)
      → scan_byte utf8 latin1 b s.state s ≡ takes s' out
      → scan_loop utf8 latin1 (suc fuel) (b ∷ bs) s
        ≡ behind utf8 latin1 out (scan_loop utf8 latin1 fuel bs s')
  unfolding scan_loop
  loop_takes fuel b bs s s' out e = rw e refl

  loop_again :
      (fuel b : ℕ) (bs : Bytes) (s s' : PaneNotifyScanner)
      → scan_byte utf8 latin1 b s.state s ≡ again s'
      → scan_loop utf8 latin1 (suc fuel) (b ∷ bs) s
        ≡ behind utf8 latin1 [] (scan_loop utf8 latin1 fuel (b ∷ bs) s')
  unfolding scan_loop
  loop_again fuel b bs s s' e = rw e refl

  -- What a call returns, against what the machine does.
  abbrev pub Agrees : Option (Scanned utf8 latin1) → Step → Type 0
  Agrees r t = (s' : PaneNotifyScanner) × (r ≡ some (s', t.1)) × Holds s' t.0

  taken :
      (fuel b : ℕ) (bs : Bytes) (s : PaneNotifyScanner) (t : Step)
      → Takes (scan_byte utf8 latin1 b s.state s) t
      → ((s' : PaneNotifyScanner)
          → Holds s' t.0
          → Agrees (scan_loop utf8 latin1 fuel bs s') (take_all utf8 latin1 bs t.0))
      → Agrees
          (scan_loop utf8 latin1 (suc fuel) (b ∷ bs) s)
          ((take_all utf8 latin1 bs t.0).0, t.1 ++ (take_all utf8 latin1 bs t.0).1)
  taken fuel b bs s t k later =
      let rest = later k.scanner k.holds in
      (
        rest.0,
        loop_takes fuel b bs s k.scanner t.1 k.round
            ∙ ap (λ (r : Option (Scanned utf8 latin1)). behind utf8 latin1 t.1 r) rest.1,
        rest.2,
      )

  retried :
      (fuel b : ℕ) (bs : Bytes) (s : PaneNotifyScanner) (t : Step)
      → Retries b (scan_byte utf8 latin1 b s.state s) t
      → ((s' : PaneNotifyScanner)
          → Holds s' t.0
          → Agrees (scan_loop utf8 latin1 fuel bs s') (take_all utf8 latin1 bs t.0))
      → Agrees
          (scan_loop utf8 latin1 (suc (suc fuel)) (b ∷ bs) s)
          ((take_all utf8 latin1 bs t.0).0, t.1 ++ (take_all utf8 latin1 bs t.0).1)
  retried fuel b bs s t r later =
      let k : Takes (scan_byte utf8 latin1 b r.scanner.state r.scanner) t =
        simp r.is_idle (rw r.step (idle_lem utf8 latin1 b r.scanner r.middle r.is_idle r.holds)) in
      let rest = taken fuel b bs r.scanner t k later in
      (rest.0, rw (loop_again (suc fuel) b bs s r.scanner r.round, rest.1) refl, rest.2)

  scan_loop_lem :
      (bs : Bytes) (fuel : ℕ) (s : PaneNotifyScanner) (m : Machine)
      → length bs * 2 ≤ fuel
      → Holds s m
      → Agrees (scan_loop utf8 latin1 fuel bs s) (take_all utf8 latin1 bs m)
  unfolding take_all scan_loop
  scan_loop_lem [] fuel s m le h = (s, refl, h)
  scan_loop_lem (b ∷ bs) zero s m le h = absurd (omega (arith, le))
  scan_loop_lem (b ∷ bs) (suc zero) s m le h = absurd (omega (arith, le))
  scan_loop_lem (b ∷ bs) (suc (suc fuel)) s m le h =
      let t = take_byte utf8 latin1 b m.state m in
      elim (step_at utf8 latin1 b s m h) [
        | inl k ↦
            taken (suc fuel) b bs s t k
              (λ s' h'. scan_loop_lem bs (suc fuel) s' t.0 (omega (arith, le)) h')
        | inr r ↦
            retried fuel b bs s t r (λ s' h'. scan_loop_lem bs fuel s' t.0 (omega (arith, le)) h')
      ]

  quiet_byte :
      (b : ℕ) (m : Machine)
      → m.state ≡ idle
      → (b == bel) ≡ false
      → (b == esc_code) ≡ false
      → take_byte utf8 latin1 b m.state m ≡ (m, [])
  unfolding take_byte at_idle
  quiet_byte b m e plain simple =
      ap (λ (x : State). take_byte utf8 latin1 b x m) e
      ∙ rw (plain, simple)
          (ap (λ (x : State). let t : Step = (record m { state = x }, []) in t) (sym e))

  -- Without ESC and BEL an idle machine does nothing.
  quiet :
      (bs : Bytes) (m : Machine)
      → m.state ≡ idle
      → has_esc_or_bel bs ≡ false
      → take_all utf8 latin1 bs m ≡ (m, [])
  unfolding take_all has_esc_or_bel
  quiet [] m e free = refl
  quiet (b ∷ bs) m e free =
      let still : take_byte utf8 latin1 b m.state m ≡ (m, []) =
        quiet_byte b m e (ground (arith, free)) (ground (arith, free)) in
      rw still (quiet bs m e (ground (arith, free)))

  scan_lem :
      (chunk : Bytes) (s : PaneNotifyScanner) (m : Machine)
      → Holds s m
      → Agrees (scan utf8 latin1 chunk s) (take_all utf8 latin1 chunk m)
  unfolding scan
  scan_lem chunk s m h = elim (Bool-cases (is_idle s.state && not (has_esc_or_bel chunk))) [
    | inl fast ↦
        let state : m.state ≡ idle = sym h.state ∙ is_idle_true s.state (ground (arith, fast)) in
        (
          s,
          rw (fast, quiet chunk m state (ground (arith, fast))) refl,
          rw (quiet chunk m state (ground (arith, fast))) h,
        )
    | inr slow ↦ rw slow (scan_loop_lem chunk (length chunk * 2) s m (omega arith) h)
  ]

  pub scan_all_lem :
      (chunks : List Bytes) (s : PaneNotifyScanner) (m : Machine)
      → Holds s m
      → Agrees (scan_all utf8 latin1 chunks s) (take_all utf8 latin1 (concat chunks) m)
  unfolding scan_all take_all
  scan_all_lem [] s m h = (s, refl, h)
  scan_all_lem (c ∷ cs) s m h =
      let first = scan_lem c s m h in
      let rest = scan_all_lem cs first.0 (take_all utf8 latin1 c m).0 first.2 in
      (
        rest.0,
        rw (first.1, take_all-append utf8 latin1 c (concat cs) m)
            (ap
              (λ (r : Option (Scanned utf8 latin1)).
                behind utf8 latin1 (take_all utf8 latin1 c m).1 r)
              rest.1),
        rw (take_all-append utf8 latin1 c (concat cs) m) rest.2,
      )
