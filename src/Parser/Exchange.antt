-- ===== src/Parser/Exchange.antt =====
-- The tokenizer and the correlator together: from tmux's bytes to the promises they resolve.
pub mod Tests
use tmuxcc_driver.Prelude.{
  ℕ, ◌≡◌, ◌≢◌, refl, sym, ap, ◌∙◌, Bool, true, false, Option, none, some, List, [], ◌∷◌, ◌++◌, map,
  arith, Bytes, All, concat,
}
use tmuxcc_driver.Parser.Tokens.{NotificationToken, ControlToken, notification, dcs_open}
use tmuxcc_driver.Parser.Tokenizer.{dcs_intro, strip_cr, ControlTokenizer, new_tokenizer}
use tmuxcc_driver.Parser.Tokenizer.Lines.{guard_of}
use tmuxcc_driver.Parser.Tokenizer.Blocks.{ReplyText, notice, block_tokens}
use tmuxcc_driver.Parser.Tokenizer.Session.{
  Written, line, block, IsWritten, session, tokens, push_all, push_all-session,
}
use tmuxcc_driver.Parser.Correlator.{
  CommandResult, PendingCommand, Options, CommandCorrelator, observed, push, call, or_unchanged,
  Call, pushes, run, Effect, on_notification,
}
use tmuxcc_driver.Parser.Correlator.Replies.{at, replied, run-reply_pending}
use tmuxcc_driver.Parser.Correlator.Fifo.{
  Reply, IsReply, result, resolved, resolved-append, run-append, answers, answers-none,
  resolved-replied,
}

-- The reply that a block's text stands for.
abbrev pub reply_of : ReplyText → Reply
reply_of r = record { ok = r.ok; guard = guard_of r.guard; lines = map strip_cr r.lines }

-- The replies among what tmux wrote, in order.
abbrev pub replies : List Written → List Reply
replies [] = []
replies (line bytes ∷ items) = replies items
replies (block r ∷ items) = reply_of r ∷ replies items

at-append : (now : ℕ) (xs ys : List ControlToken) → at now (xs ++ ys) ≡ at now xs ++ at now ys
at-append now [] ys = refl
at-append now (x ∷ xs) ys = ap (◌∷◌ (now, pushes x)) (at-append now xs ys)

module _ (opts : Options) (now : ℕ) where
  observed-resolved :
      (watches : Bool) (token : NotificationToken) (es : List Effect)
      → resolved (observed watches (on_notification token) ++ es) ≡ resolved es
  observed-resolved true token es = refl
  observed-resolved false token es = refl

  resolved-notice :
      (bytes : Bytes) (ts : List ControlToken) (c : CommandCorrelator)
      → resolved (run opts (at now (notice bytes ∷ ts)) c).1 ≡ resolved (run opts (at now ts) c).1
  unfolding run call push
  resolved-notice bytes ts c = observed-resolved opts.observes_notifications _ _

  resolved-tokens :
      (items : List Written) (c : CommandCorrelator)
      → c.in_flight ≡ none
      → All IsReply (replies items)
      → resolved (run opts (at now (tokens items)) c).1 ≡ answers c.pending (replies items)
  unfolding run
  resolved-tokens [] c idle h = sym (answers-none opts now c.pending)
  resolved-tokens (line bytes ∷ items) c idle h =
      resolved-notice bytes (tokens items) c ∙ resolved-tokens items c idle h
  resolved-tokens (block text ∷ items) c idle (user, h) =
      let r = reply_of text in
      let first = run opts (at now (block_tokens text)) c in
      let (free, _, queue, effects) = run-reply_pending opts now r.ok r.guard r.lines c idle user in
      ap (λ ks. resolved (run opts ks c).1) (at-append now (block_tokens text) (tokens items))
      ∙ ap (λ o. resolved o.1)
          (run-append opts (at now (block_tokens text)) (at now (tokens items)) c)
      ∙ resolved-append first.1 (run opts (at now (tokens items)) first.0).1
      ∙ ap (◌++◌ (resolved first.1)) (resolved-tokens items first.0 free h)
      ∙ ap (λ es. resolved es ++ answers first.0.pending (replies items)) effects
      ∙ ap (λ ps. resolved (replied opts now (result r) c.pending).1 ++ answers ps (replies items))
          queue
      ∙ resolved-replied opts now r (replies items) c.pending

  -- From bytes to promises: when tmux writes its session, reply blocks to commands and notification
  -- lines in any order, and it arrives in any chunks, then tokenizing and correlating it resolves
  -- the pending commands in the order in which they were registered, each with its own reply's body
  -- lines, and no other promise.
  pub resolved-session :
      (items : List Written) (chunks : List Bytes) (c : CommandCorrelator)
      → c.in_flight ≡ none
      → All IsWritten items
      → All IsReply (replies items)
      → concat chunks ≡ dcs_intro ++ session items []
      → (t : ControlTokenizer) × (read : List ControlToken) × (push_all new_tokenizer chunks
          ≡ some (t, read))
        × (resolved (run opts (at now read) c).1 ≡ answers c.pending (replies items))
  unfolding run call push
  resolved-session items chunks c idle written user e =
      let (t, all) = push_all-session items chunks written e in
      (t, dcs_open ∷ tokens items, all, resolved-tokens items c idle user)
