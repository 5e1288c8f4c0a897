-- ===== src/Parser/Tokenizer/Blocks.antt =====
-- Whole reply blocks and notification lines through the machine.
use tmuxcc_driver.Prelude.{
  ℕ, ◌≡◌, ◌≢◌, refl, ap, ◌∙◌, Bool, true, false, none, some, List, [], ◌∷◌, ◌++◌, arith, Bytes, All,
  All-append, All-map, map, if◌then◌else◌,
}
use tmuxcc_driver.Prelude.Keyed.{matches_list, list_keyed, codes}
use tmuxcc_driver.Parser.Tokens.{ControlToken, notification, block_begin, block_body}
use tmuxcc_driver.Parser.OutputCodec.Notification.{IsDigit}
use tmuxcc_driver.Parser.Correlator.Replies.{bodies, close, reply}
use tmuxcc_driver.Parser.Tokenizer.{
  lf, cr, esc, space, BlockState, outside, inside, extract_keyword, try_parse_guard_line,
  starts_with_percent, parse_notification_or_begin, flush_collected, strip_cr,
}
use tmuxcc_driver.Parser.Tokenizer.Machine.{reading, machine, Fed, ahead, run}
use tmuxcc_driver.Parser.Tokenizer.Lines.{
  IsLineByte, line_run_lem, IsNumber, GuardText, AreNumbers, guard_of, guard_line, IsWordByte,
  extract_keyword_lem, parse_guard_fields_lem,
}

-- A byte of a guard line.
abbrev IsQuiet : ℕ → Type 0
IsQuiet b = (b ≢ lf) × (b ≢ esc) × (b ≢ cr)

strip_cr_of_quiet : (line : Bytes) → All IsQuiet line → strip_cr line ≡ line
unfolding strip_cr
strip_cr_of_quiet [] h = refl
strip_cr_of_quiet (b ∷ []) ((_, _, plain), h) = ground arith
strip_cr_of_quiet (b ∷ c ∷ rest) (_, h) = ap (◌∷◌ b) (strip_cr_of_quiet (c ∷ rest) h)

IsNumber-IsQuiet : (ds : Bytes) → IsNumber ds → All IsQuiet ds
IsNumber-IsQuiet [] h = absurd h
IsNumber-IsQuiet (d ∷ ds) h =
    All-map {P = IsDigit} (d ∷ ds) (λ b digit. (ground arith, ground arith, ground arith)) h

guard_line-IsQuiet :
    (word : Bytes) (g : GuardText)
    → All IsQuiet word
    → AreNumbers g
    → All IsQuiet (guard_line word g)
guard_line-IsQuiet word g h n =
    let sep : IsQuiet space = (ground arith, ground arith, ground arith) in
    (
      (ground arith, ground arith, ground arith),
      All-append IsQuiet word _ h (
        sep,
        All-append IsQuiet g.timestamp _ (IsNumber-IsQuiet g.timestamp n.timestamp) (
          sep,
          All-append IsQuiet g.command_number _ (IsNumber-IsQuiet g.command_number n.command_number)
              (sep, IsNumber-IsQuiet g.flags n.flags),
        ),
      ),
    )

-- A keyword of a guard line.
abbrev closing_word : Bool → Bytes
closing_word true = codes "end"
closing_word false = codes "error"

quiet_line : (block : BlockState) (line : Bytes) → All IsQuiet line → All (IsLineByte block) line
quiet_line outside line h = All-map line (λ b (no_lf, no_esc, _). (no_lf, no_esc)) h
quiet_line inside line h = All-map line (λ b (no_lf, _, _). no_lf) h

begin_flush :
    (g : GuardText)
    → AreNumbers g
    → flush_collected outside (strip_cr (guard_line (codes "begin") g))
      ≡ (block_begin (guard_of g) ∷ [], inside)
unfolding flush_collected parse_notification_or_begin matches_list
begin_flush g n =
    let word : All IsWordByte (codes "begin") = ground arith in
    let line = guard_line (codes "begin") g in
    rw
      (
        strip_cr_of_quiet line (guard_line-IsQuiet (codes "begin") g (ground arith) n),
        extract_keyword_lem (codes "begin") g word,
        parse_guard_fields_lem (codes "begin") g word n,
      )
      refl

word-IsQuiet : (ok : Bool) → All IsQuiet (closing_word ok)
word-IsQuiet true = ground arith
word-IsQuiet false = ground arith

close_parsed :
    (ok : Bool) (g : GuardText)
    → AreNumbers g
    → try_parse_guard_line (guard_line (closing_word ok) g) ≡ some (close ok (guard_of g))
unfolding try_parse_guard_line matches_list
close_parsed true g n =
    let word : All IsWordByte (codes "end") = ground arith in
    rw (extract_keyword_lem (codes "end") g word, parse_guard_fields_lem (codes "end") g word n)
      refl
close_parsed false g n =
    let word : All IsWordByte (codes "error") = ground arith in
    rw (extract_keyword_lem (codes "error") g word, parse_guard_fields_lem (codes "error") g word n)
      refl

close_flush :
    (ok : Bool) (g : GuardText)
    → AreNumbers g
    → flush_collected inside (strip_cr (guard_line (closing_word ok) g))
      ≡ (close ok (guard_of g) ∷ [], outside)
unfolding flush_collected
close_flush ok g n =
    let line = guard_line (closing_word ok) g in
    rw
      (
        strip_cr_of_quiet line (guard_line-IsQuiet (closing_word ok) g (word-IsQuiet ok) n),
        close_parsed ok g n,
      )
      refl

-- A line of a body: any bytes but a line feed, unless it is itself a closing guard line.
abbrev pub IsBodyLine : Bytes → Type 0
IsBodyLine line =
    All (IsLineByte inside) line
    × ((if starts_with_percent (strip_cr line) then try_parse_guard_line (strip_cr line) else none)
        ≡ none)

body_flush :
    (line : Bytes)
    → IsBodyLine line
    → flush_collected inside (strip_cr line) ≡ (block_body (strip_cr line) ∷ [], inside)
unfolding flush_collected
body_flush line (_, no_guard) = rw no_guard refl

abbrev pub body_lines : List Bytes → Bytes → Bytes
body_lines [] rest = rest
body_lines (line ∷ lines) rest = line ++ lf ∷ body_lines lines rest

-- A line through the machine, when it is known what its flush emits.
flushed_run :
    (block block' : BlockState) (line rest : Bytes) (tokens : List ControlToken)
    → All (IsLineByte block) line
    → flush_collected block (strip_cr line) ≡ (tokens, block')
    → run (machine reading [] block) (line ++ lf ∷ rest)
      ≡ ahead tokens (run (machine reading [] block') rest)
flushed_run block block' line rest tokens h e =
    line_run_lem block line rest h ∙ ap (λ f. ahead f.0 (run (machine reading [] f.1) rest)) e

-- Body tokens in front of what was emitted.
abbrev bodies_ahead : List Bytes → Fed → Fed
bodies_ahead lines r = (r.0, bodies lines r.1)

body_run :
    (lines : List Bytes) (rest : Bytes)
    → All IsBodyLine lines
    → run (machine reading [] inside) (body_lines lines rest)
      ≡ bodies_ahead (map strip_cr lines) (run (machine reading [] inside) rest)
body_run [] rest h = refl
body_run (line ∷ lines) rest (body, h) =
    flushed_run inside inside line (body_lines lines rest) (block_body (strip_cr line) ∷ []) body.0
      (body_flush line body)
    ∙ ap (ahead (block_body (strip_cr line) ∷ [])) (body_run lines rest h)

-- A reply block as tmux writes it.
pub record ReplyText : Type 0 where
  pub ok : Bool
  pub guard : GuardText
  pub lines : List Bytes

pub record IsReplyText (r : ReplyText) : Type 0 where
  pub numbers : AreNumbers r.guard
  pub body : All IsBodyLine r.lines

abbrev pub block_wire : ReplyText → Bytes → Bytes
block_wire r rest =
    guard_line (codes "begin") r.guard
    ++ lf ∷ body_lines r.lines (guard_line (closing_word r.ok) r.guard ++ lf ∷ rest)

abbrev pub block_tokens : ReplyText → List ControlToken
block_tokens r = reply r.ok (guard_of r.guard) (map strip_cr r.lines)

bodies-append :
    (lines : List Bytes) (t : ControlToken) (ts : List ControlToken)
    → bodies lines (t ∷ ts) ≡ bodies lines (t ∷ []) ++ ts
bodies-append [] t ts = refl
bodies-append (line ∷ lines) t ts = ap (◌∷◌ (block_body line)) (bodies-append lines t ts)

-- A whole block, whatever bytes its lines hold, is the tokens of that block.
pub block_run :
    (r : ReplyText) (rest : Bytes)
    → IsReplyText r
    → run (machine reading [] outside) (block_wire r rest)
      ≡ ahead (block_tokens r) (run (machine reading [] outside) rest)
block_run r rest h =
    let last = guard_line (closing_word r.ok) r.guard in
    let first = guard_line (codes "begin") r.guard in
    let lines = map strip_cr r.lines in
    let done = run (machine reading [] outside) rest in
    let opened = begin_flush r.guard h.numbers in
    flushed_run outside inside first (body_lines r.lines (last ++ lf ∷ rest))
      (block_begin (guard_of r.guard) ∷ [])
      (quiet_line outside first
        (guard_line-IsQuiet (codes "begin") r.guard (ground arith) h.numbers))
      opened
    ∙ ap (ahead (block_begin (guard_of r.guard) ∷ [])) (
        body_run r.lines (last ++ lf ∷ rest) h.body
        ∙ ap (bodies_ahead lines) (
            flushed_run inside outside last rest (close r.ok (guard_of r.guard) ∷ [])
              (quiet_line inside last
                (guard_line-IsQuiet (closing_word r.ok) r.guard (word-IsQuiet r.ok) h.numbers))
              (close_flush r.ok r.guard h.numbers))
        ∙ ap (λ ts. (done.0, ts)) (bodies-append lines (close r.ok (guard_of r.guard)) done.1))

-- A notification as tmux writes it: a line that starts with `%` and whose keyword is not `begin`.
pub record IsNotice (line : Bytes) : Type 0 where
  pub plain : All (IsLineByte outside) line
  pub sigil : starts_with_percent line ≡ true
  pub no_cr : strip_cr line ≡ line
  pub keyword : list_keyed.matches (extract_keyword line) (codes "begin") ≡ false

abbrev pub notice : Bytes → ControlToken
notice line = notification (record { keyword = extract_keyword line; raw_line = line })

notice_flush :
    (line : Bytes)
    → IsNotice line
    → flush_collected outside (strip_cr line) ≡ (notice line ∷ [], outside)
unfolding flush_collected parse_notification_or_begin
notice_flush line h = rw (h.no_cr, h.sigil, h.keyword) refl

pub run-notice :
    (line rest : Bytes)
    → IsNotice line
    → run (machine reading [] outside) (line ++ lf ∷ rest)
      ≡ ahead (notice line ∷ []) (run (machine reading [] outside) rest)
run-notice line rest h =
    flushed_run outside outside line rest (notice line ∷ []) h.plain (notice_flush line h)
