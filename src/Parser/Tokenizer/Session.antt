-- ===== src/Parser/Tokenizer/Session.antt =====
-- A control-mode session as tmux writes it, delivered in any chunks.
use mathlib.Core.Path.{subst}
use tmuxcc_driver.Prelude.{
  ◌≡◌, refl, sym, ap, ◌∙◌, Option, none, some, List, [], ◌∷◌, ◌++◌, append-nil, Bytes, All, concat,
}
use tmuxcc_driver.Prelude.Buffers.{◌>>=◌}
use tmuxcc_driver.Parser.Tokens.{ControlToken, dcs_open, dcs_close}
use tmuxcc_driver.Parser.Tokenizer.{
  lf, esc, backslash, dcs_intro, outside, ControlTokenizer, new_tokenizer, push, tokenize_buffer,
}
use tmuxcc_driver.Parser.Tokenizer.Machine.{
  reading, closed, Machine, machine, feed_mode, feed_line, ahead, run, ahead-ahead, run-append,
}
use tmuxcc_driver.Parser.Tokenizer.View.{view, IsWellFormed}
use tmuxcc_driver.Parser.Tokenizer.Refines.{closed_run, Tokenizes, push-Tokenizes}
use tmuxcc_driver.Parser.Tokenizer.Blocks.{
  ReplyText, IsReplyText, block_wire, block_tokens, block_run, IsNotice, notice, run-notice,
}

-- A reader that pushes the chunks as they arrive, and collects the tokens.
unfoldable pub push_all :
    ControlTokenizer → List Bytes → Option (ControlTokenizer × List ControlToken)
push_all t [] = some (t, [])
push_all t (chunk ∷ chunks) = do
  first ← push t chunk
  later ← push_all first.0 chunks
  some (later.0, first.1 ++ later.1)

later-Tokenizes :
    (m : Machine) (xs ys : Bytes) (first : ControlTokenizer × List ControlToken)
    (o : Option (ControlTokenizer × List ControlToken))
    → run m xs ≡ (view first.0, first.1)
    → Tokenizes (view first.0) ys o
    → Tokenizes m (xs ++ ys) (do later ← o; some (later.0, first.1 ++ later.1))
later-Tokenizes m xs ys first none same h = h
later-Tokenizes m xs ys first (some later) same (more, well) =
    (run-append m xs ys ∙ ap (λ r. ahead r.1 (run r.0 ys)) same ∙ ap (ahead first.1) more, well)

first-Tokenizes :
    (m : Machine) (chunk : Bytes) (chunks : List Bytes)
    (o : Option (ControlTokenizer × List ControlToken))
    → Tokenizes m chunk o
    → ((t : ControlTokenizer)
        → IsWellFormed t
        → Tokenizes (view t) (concat chunks) (push_all t chunks))
    → Tokenizes m
        (chunk ++ concat chunks)
        (do first ← o; later ← push_all first.0 chunks; some (later.0, first.1 ++ later.1))
first-Tokenizes m chunk chunks none h ih = h
first-Tokenizes m chunk chunks (some first) (same, well) ih =
    later-Tokenizes m chunk (concat chunks) first (push_all first.0 chunks) same (ih first.0 well)

-- The chunks' bytes alone determine the tokens, which are those of the machine.
pub push_all-Tokenizes :
    (t : ControlTokenizer) (chunks : List Bytes)
    → IsWellFormed t
    → Tokenizes (view t) (concat chunks) (push_all t chunks)
unfolding push_all run
push_all-Tokenizes t [] h = (refl, h)
push_all-Tokenizes t (chunk ∷ chunks) h =
    first-Tokenizes (view t) chunk chunks (push t chunk) (push-Tokenizes t chunk h)
      (λ t' h'. push_all-Tokenizes t' chunks h')

pub new_tokenizer-IsWellFormed : IsWellFormed new_tokenizer
new_tokenizer-IsWellFormed = record { counted = refl; partial = tt }

tokens_of :
    (m : Machine) (bytes : Bytes) (o : Option (ControlTokenizer × List ControlToken))
    → Tokenizes m bytes o
    → (t : ControlTokenizer) × (o ≡ some (t, (run m bytes).1))
tokens_of m bytes none h = absurd h
tokens_of m bytes (some (t, tokens)) (same, _) = (t, ap (λ r. some (t, r.1)) (sym same))

buffer_tokens : (buf : Bytes) → tokenize_buffer buf ≡ some (run (view new_tokenizer) buf).1
unfolding tokenize_buffer
buffer_tokens buf =
    let (t, e) =
      tokens_of (view new_tokenizer) buf (push new_tokenizer buf)
        (push-Tokenizes new_tokenizer buf new_tokenizer-IsWellFormed) in
    rw e refl

chunk_tokens :
    (chunks : List Bytes) (buf : Bytes)
    → concat chunks ≡ buf
    → (t : ControlTokenizer) × (push_all new_tokenizer chunks
        ≡ some (t, (run (view new_tokenizer) buf).1))
chunk_tokens chunks buf e =
    let (t, all) =
      tokens_of (view new_tokenizer) (concat chunks) (push_all new_tokenizer chunks)
        (push_all-Tokenizes new_tokenizer chunks new_tokenizer-IsWellFormed) in
    (
      t,
      subst (λ bs. push_all new_tokenizer chunks ≡ some (t, (run (view new_tokenizer) bs).1)) e all,
    )

-- However a byte stream is cut into chunks, a new tokenizer that is pushed the chunks in order
-- returns in all the tokens that `tokenizeBuffer` returns for the whole of it, and both do return.
pub push_all-tokenize_buffer :
    (chunks : List Bytes)
    → (t : ControlTokenizer) × (tokens : List ControlToken) × (push_all new_tokenizer chunks
        ≡ some (t, tokens))
      × (tokenize_buffer (concat chunks) ≡ some tokens)
push_all-tokenize_buffer chunks =
    let (t, all) = chunk_tokens chunks (concat chunks) refl in
    (t, (run (view new_tokenizer) (concat chunks)).1, all, buffer_tokens (concat chunks))

-- What tmux writes at top level: notification lines and reply blocks.
pub data Written : Type 0 where
  line : Bytes → Written
  block : ReplyText → Written

abbrev pub IsWritten : Written → Type 0
IsWritten (line bytes) = IsNotice bytes
IsWritten (block r) = IsReplyText r

abbrev pub session : List Written → Bytes → Bytes
session [] rest = rest
session (line bytes ∷ items) rest = bytes ++ lf ∷ session items rest
session (block r ∷ items) rest = block_wire r (session items rest)

abbrev pub tokens : List Written → List ControlToken
tokens [] = []
tokens (line bytes ∷ items) = notice bytes ∷ tokens items
tokens (block r ∷ items) = block_tokens r ++ tokens items

run-session :
    (items : List Written) (rest : Bytes)
    → All IsWritten items
    → run (machine reading [] outside) (session items rest)
      ≡ ahead (tokens items) (run (machine reading [] outside) rest)
run-session [] rest h = refl
run-session (line bytes ∷ items) rest (is_notice, h) =
    run-notice bytes (session items rest) is_notice
    ∙ ap (ahead (notice bytes ∷ [])) (run-session items rest h)
run-session (block r ∷ items) rest (is_reply, h) =
    block_run r (session items rest) is_reply
    ∙ ap (ahead (block_tokens r)) (run-session items rest h)
    ∙ ahead-ahead (block_tokens r) (tokens items) (run (machine reading [] outside) rest)

intro_run :
    (rest : Bytes)
    → run (view new_tokenizer) (dcs_intro ++ rest)
      ≡ ahead (dcs_open ∷ []) (run (machine reading [] outside) rest)
unfolding run feed_mode
intro_run rest = refl

-- A session in its DCS envelope, cut anywhere: a new tokenizer opens, and returns the token of each
-- notification line and the tokens of each reply block, in order, whatever bytes the body lines
-- hold that are no closing guard line themselves (escape sequences and lines with `%` included).
pub push_all-session :
    (items : List Written) (chunks : List Bytes)
    → All IsWritten items
    → concat chunks ≡ dcs_intro ++ session items []
    → (t : ControlTokenizer) × (push_all new_tokenizer chunks ≡ some (t, dcs_open ∷ tokens items))
unfolding run
push_all-session items chunks h e =
    let (t, all) = chunk_tokens chunks (dcs_intro ++ session items []) e in
    let read = intro_run (session items []) ∙ ap (ahead (dcs_open ∷ [])) (run-session items [] h) in
    (
      t,
      all
          ∙ ap (λ r. some (t, r.1)) read
          ∙ ap (λ ts. some (t, dcs_open ∷ ts)) (append-nil (tokens items)),
    )

close_run :
    (rest : Bytes)
    → run (machine reading [] outside) (esc ∷ backslash ∷ rest)
      ≡ (machine closed [] outside, dcs_close ∷ [])
unfolding run feed_mode feed_line
close_run rest = rw (closed_run [] outside rest) refl

-- The closing `ESC \` behind a session ends it: whatever bytes follow, in whatever chunks, no token
-- comes after the closing one.
pub push_all-closed_session :
    (items : List Written) (rest : Bytes) (chunks : List Bytes)
    → All IsWritten items
    → concat chunks ≡ dcs_intro ++ session items (esc ∷ backslash ∷ rest)
    → (t : ControlTokenizer) × (push_all new_tokenizer chunks
        ≡ some (t, dcs_open ∷ (tokens items ++ dcs_close ∷ [])))
push_all-closed_session items rest chunks h e =
    let ending = esc ∷ backslash ∷ rest in
    let (t, all) = chunk_tokens chunks (dcs_intro ++ session items ending) e in
    let read =
      intro_run (session items ending)
      ∙ ap (ahead (dcs_open ∷ []))
          (run-session items ending h ∙ ap (ahead (tokens items)) (close_run rest)) in
    (t, all ∙ ap (λ r. some (t, r.1)) read)
