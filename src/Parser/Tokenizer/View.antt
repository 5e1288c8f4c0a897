-- ===== src/Parser/Tokenizer/View.antt =====
-- What a tokenizer with its chunked line buffer stands for, and its well-formedness.
use tmuxcc_driver.Prelude.{
  ℕ, ◌+◌, ◌*◌, ◌≤◌, ◌<◌, ◌≡◌, refl, sym, ap, ◌∙◌, inl, inr, true, false, Option, none, some, List,
  [], ◌∷◌, ◌++◌, append_assoc, append-nil, arith, Bytes, length, concat, length-append, ◌==◌,
  Bool-cases,
}
use tmuxcc_driver.Prelude.Buffers.{gather-zeros}
use tmuxcc_driver.Parser.Tokens.{ControlToken}
use tmuxcc_driver.Parser.Tokenizer.{
  dcs_intro, DcsState, before_dcs, matching_dcs_intro, inside_dcs, maybe_st, after_dcs,
  ControlTokenizer, flush_collected, append_to_line, strip_cr, materialise, flush_line, Stepped,
}
use tmuxcc_driver.Parser.Tokenizer.Machine.{
  Mode, fresh, reading, escaped, closed, matching, Machine, machine, ahead, run,
}

abbrev pub mode_of : DcsState → ℕ → Mode
mode_of before_dcs n = fresh
mode_of matching_dcs_intro n = matching n
mode_of inside_dcs n = reading
mode_of maybe_st n = escaped
mode_of after_dcs n = closed

-- What a tokenizer stands for.
abbrev pub view : ControlTokenizer → Machine
view t = machine (mode_of t.dcs_state t.dcs_intro_matched) (concat t.line_buf) t.block_state

-- Within the intro some of its bytes, and not all, were matched.
abbrev pub IsPartial : DcsState → ℕ → Type 0
IsPartial matching_dcs_intro n = n < length dcs_intro
IsPartial _ n = Unit

-- The line's length is counted right, and the intro is not passed.
pub record IsWellFormed (t : ControlTokenizer) : Type 0 where
  pub counted : t.line_buf_len ≡ length (concat t.line_buf)
  pub partial : IsPartial t.dcs_state t.dcs_intro_matched

abbrev pub weight : DcsState → ℕ
weight inside_dcs = 0
weight _ = 1

-- Rounds that are left at most.
abbrev pub measure : ControlTokenizer → Bytes → ℕ
measure t bytes = 2 * length bytes + weight t.dcs_state

-- What a round has to yield for bytes that the machine runs on.
abbrev pub StepIs : Machine → Bytes → ℕ → Option Stepped → Type 0
StepIs m bytes bound none = ⊥
StepIs m bytes bound (some s) =
    (run m bytes ≡ ahead s.1 (run (view s.0) s.2)) × IsWellFormed s.0 × (measure s.0 s.2 < bound)

pub concat-snoc : (chunks : List Bytes) (c : Bytes) → concat (chunks ++ c ∷ []) ≡ concat chunks ++ c
concat-snoc [] c = append-nil c
concat-snoc (d ∷ ds) c = ap (◌++◌ d) (concat-snoc ds c) ∙ sym (append_assoc d (concat ds) c)

-- The tokenizer with more bytes in its line, in any state.
pub record Appended (t : ControlTokenizer) (bytes : Bytes) (t' : ControlTokenizer) : Type 0 where
  pub line : concat t'.line_buf ≡ concat t.line_buf ++ bytes
  pub counted : t'.line_buf_len ≡ length (concat t'.line_buf)
  pub same :
      (t'.dcs_state ≡ t.dcs_state)
      × (t'.dcs_intro_matched ≡ t.dcs_intro_matched)
      × (t'.block_state ≡ t.block_state)

pub append_to_line-Appended :
    (t : ControlTokenizer) (bytes : Bytes)
    → t.line_buf_len ≡ length (concat t.line_buf)
    → Appended t bytes (append_to_line bytes t)
unfolding append_to_line
append_to_line-Appended t [] h = record {
  line = sym (append-nil (concat t.line_buf));
  counted = h;
  same = (refl, refl, refl);
}
append_to_line-Appended t (b ∷ bs) h =
    let bytes = b ∷ bs in
    let snoc = concat-snoc t.line_buf bytes in
    let more : (length bytes == 0) ≡ false = ground arith in
    rw more (record {
      line = snoc;
      counted = omega (arith, ap length snoc, length-append (concat t.line_buf) bytes);
      same = (refl, refl, refl);
    })

materialise_lem :
    (chunks : List Bytes) (n : ℕ)
    → n ≡ length (concat chunks)
    → materialise chunks n ≡ some (concat chunks)
materialise_lem [] n h = refl
materialise_lem (chunk ∷ []) n h = ap some (sym (append-nil chunk))
materialise_lem (chunk ∷ next ∷ rest) n h = gather-zeros n (chunk ∷ next ∷ rest) h

no_chunks : (chunks : List Bytes) → (length chunks == 0) ≡ true → chunks ≡ []
no_chunks [] h = refl
no_chunks (c ∷ cs) h = absurd (ground arith)

-- The line is taken whole, and the buffer is empty after it.
abbrev pub FlushIs : ControlTokenizer → Option (ControlTokenizer × List ControlToken) → Type 0
FlushIs t none = ⊥
FlushIs t (some f) =
    let emitted = flush_collected t.block_state (strip_cr (concat t.line_buf)) in
    (f.1 ≡ emitted.0)
    × (f.0.block_state ≡ emitted.1)
    × (f.0.line_buf ≡ [])
    × (f.0.line_buf_len ≡ 0)
    × (f.0.dcs_state ≡ t.dcs_state)
    × (f.0.dcs_intro_matched ≡ t.dcs_intro_matched)

pub flush_line-FlushIs :
    (t : ControlTokenizer) → t.line_buf_len ≡ length (concat t.line_buf) → FlushIs t (flush_line t)
unfolding flush_line
flush_line-FlushIs t h =
    rw (materialise_lem t.line_buf t.line_buf_len h) (elim (Bool-cases (length t.line_buf == 0)) [
      | inl none_yet ↦ rw none_yet (
        refl,
        refl,
        refl,
        h ∙ ap (λ cs. length (concat cs)) (no_chunks t.line_buf none_yet),
        refl,
        refl,
      )
      | inr some_yet ↦ rw some_yet (refl, refl, refl, refl, refl, refl)
    ])

pub StepIs-le :
    (m : Machine) (bytes : Bytes) {n k : ℕ} (o : Option Stepped)
    → n ≤ k
    → StepIs m bytes n o
    → StepIs m bytes k o
StepIs-le m bytes none le h = h
StepIs-le m bytes (some s) le (same, well, less) = (same, well, omega arith)

pub StepIs-run :
    (m m' : Machine) (bytes bytes' : Bytes) (n : ℕ) (o : Option Stepped)
    → run m bytes ≡ run m' bytes'
    → StepIs m' bytes' n o
    → StepIs m bytes n o
StepIs-run m m' bytes bytes' n none e h = h
StepIs-run m m' bytes bytes' n (some s) e (same, well, less) = (e ∙ same, well, less)
