-- ===== src/Parser/Tokenizer/Scan.antt =====
-- The scan for the end of a line against the machine that reads byte by byte.
use tmuxcc_driver.Prelude.{
  ◌≤◌, ◌≡◌, refl, ap, ◌∙◌, inl, inr, Bool, true, false, ◌&&◌, ◌||◌, [], ◌∷◌, ◌++◌, append_assoc,
  append-nil, arith, Bytes, length, ◌==◌, Bool-cases,
}
use tmuxcc_driver.Parser.Tokenizer.{lf, esc, BlockState, is_outside, scan}
use tmuxcc_driver.Parser.Tokenizer.Machine.{reading, machine, feed_line, feed_mode, ahead, run}

-- Bytes of a line, up to the one that stops the scan.
pub scan-run :
    (line bytes : Bytes) (block : BlockState)
    → run (machine reading line block) bytes
      ≡ run
          (machine reading (line ++ (scan (is_outside block) bytes).0) block)
          (scan (is_outside block) bytes).1
unfolding run scan feed_mode feed_line
scan-run line [] block = rw (append-nil line) refl
scan-run line (b ∷ rest) block = elim (Bool-cases ((b == lf) || (is_outside block && (b == esc)))) [
  | inl stops ↦ rw (stops, append-nil line) refl
  | inr goes ↦
      let no_lf : (b == lf) ≡ false = ground arith in
      let no_esc : (is_outside block && (b == esc)) ≡ false = ground arith in
      let later = scan-run (line ++ b ∷ []) rest block in
      rw (no_lf, no_esc)
        (ap (ahead []) later
          ∙ ap (λ l. run (machine reading l block) (scan (is_outside block) rest).1)
              (append_assoc line (b ∷ []) (scan (is_outside block) rest).0))
]

-- What stops a scan.
abbrev pub Stops : BlockState → Bytes → Type 0
Stops block [] = Unit
Stops block (b ∷ rest) = ((b == lf) || (is_outside block && (b == esc))) ≡ true

pub scan-Stops :
    (block : BlockState) (bytes : Bytes) → Stops block (scan (is_outside block) bytes).1
unfolding scan
scan-Stops block [] = tt
scan-Stops block (b ∷ rest) = elim (Bool-cases ((b == lf) || (is_outside block && (b == esc)))) [
  | inl stops ↦ rw stops stops
  | inr goes ↦ rw goes (scan-Stops block rest)
]

pub length-scan : (s : Bool) (bytes : Bytes) → length (scan s bytes).1 ≤ length bytes
unfolding scan
length-scan s [] = omega arith
length-scan s (b ∷ rest) = elim (Bool-cases ((b == lf) || (s && (b == esc)))) [
  | inl stops ↦ rw stops (omega arith)
  | inr goes ↦ rw goes (omega (arith, length-scan s rest))
]
