-- ===== src/Parser/Correlator/Fifo.antt =====
-- A sequence of reply blocks against the queue of pending commands.
use tmuxcc_driver.Prelude.{
  ℕ, zero, suc, ◌≡◌, ◌≢◌, refl, sym, ap, ◌∙◌, Bool, false, none, List, [], ◌∷◌, ◌++◌, append_assoc,
  arith, Bytes, All, drop, if◌then◌else◌,
}
use tmuxcc_driver.Parser.Tokens.{Guard}
use tmuxcc_driver.Parser.Correlator.{
  CommandResult, Effect, resolve, reject, write, on_notification, on_unsolicited_block,
  on_pending_changed, PendingCommand, Options, CommandCorrelator, cancel_loop, cancel_oldest,
  fire_pending_changed, Call, or_unchanged, call, run,
}
use tmuxcc_driver.Parser.Correlator.Replies.{
  at, reply, result_of, answer, replied, run-reply_pending,
}

-- A block to come: success or failure, its numbers, its lines.
pub record Reply : Type 0 where
  pub ok : Bool
  pub guard : Guard
  pub lines : List Bytes

-- A reply to a command has a flag; the startup block has none.
abbrev pub IsReply : Reply → Type 0
IsReply r = r.guard.flags ≢ 0

abbrev pub result : Reply → CommandResult
result r = result_of r.ok r.guard r.lines

abbrev pub arrivals : ℕ → List Reply → List (ℕ × Call)
arrivals now [] = []
arrivals now (r ∷ rs) = at now (reply r.ok r.guard r.lines) ++ arrivals now rs

-- The promises resolved, in order, each with its result.
abbrev pub resolved : List Effect → List (ℕ × CommandResult)
resolved [] = []
resolved (resolve slot r ∷ es) = (slot, r) ∷ resolved es
resolved (_ ∷ es) = resolved es

-- The n-th reply belongs to the n-th command; an abandoned one swallows its reply.
unfoldable pub answers : List PendingCommand → List Reply → List (ℕ × CommandResult)
answers [] rs = []
answers (p ∷ ps) [] = []
answers (p ∷ ps) (r ∷ rs) =
    let rest = answers ps rs in if p.cancelled then rest else (p.slot, result r) ∷ rest

pub resolved-append : (es fs : List Effect) → resolved (es ++ fs) ≡ resolved es ++ resolved fs
resolved-append [] fs = refl
resolved-append (resolve k r ∷ es) fs = ap (◌∷◌ (k, r)) (resolved-append es fs)
resolved-append (reject k e ∷ es) fs = resolved-append es fs
resolved-append (write b ∷ es) fs = resolved-append es fs
resolved-append (on_notification t ∷ es) fs = resolved-append es fs
resolved-append (on_unsolicited_block ∷ es) fs = resolved-append es fs
resolved-append (on_pending_changed d a ∷ es) fs = resolved-append es fs

pub run-append :
    (opts : Options) (ks ls : List (ℕ × Call)) (c : CommandCorrelator)
    → run opts (ks ++ ls) c
      ≡ ((run opts ls (run opts ks c).0).0, (run opts ks c).1 ++ (run opts ls (run opts ks c).0).1)
unfolding run
run-append opts [] ls c = refl
run-append opts ((now, k) ∷ ks) ls c =
    let first = or_unchanged c (call opts now k c) in
    rw (run-append opts ks ls first.0) (λ i. (
      (run opts ls (run opts ks first.0).0).0,
      sym (append_assoc first.1 (run opts ks first.0).1 (run opts ls (run opts ks first.0).0).1) i,
    ))

module _ (opts : Options) (now : ℕ) where
  resolved-fire : (ps : List PendingCommand) → resolved (fire_pending_changed opts now ps) ≡ []
  resolved-fire ps = ground arith

  pub resolved-replied :
      (r : Reply) (rs : List Reply) (ps : List PendingCommand)
      → resolved (replied opts now (result r) ps).1 ++ answers (replied opts now (result r) ps).0 rs
        ≡ answers ps (r ∷ rs)
  unfolding answers
  resolved-replied r rs [] = ground arith
  resolved-replied r rs (p ∷ ps) =
      rw
        (resolved-append (fire_pending_changed opts now ps) (answer p (result r)), resolved-fire ps)
        (ground arith)

  pub answers-none : (ps : List PendingCommand) → answers ps [] ≡ []
  unfolding answers
  answers-none [] = refl
  answers-none (p ∷ ps) = refl

  -- Reply blocks that arrive at an idle object, one behind the other, resolve the pending commands
  -- in the order in which they were registered, each with its own reply, and no other promise; a
  -- reply at the position of an abandoned command resolves nothing.
  pub resolved-arrivals :
      (rs : List Reply) (c : CommandCorrelator)
      → c.in_flight ≡ none
      → All IsReply rs
      → resolved (run opts (arrivals now rs) c).1 ≡ answers c.pending rs
  unfolding run answers
  resolved-arrivals [] c idle h = sym (answers-none c.pending)
  resolved-arrivals (r ∷ rs) c idle (user, h) =
      let first = run opts (at now (reply r.ok r.guard r.lines)) c in
      let (free, _, queue, effects) = run-reply_pending opts now r.ok r.guard r.lines c idle user in
      ap (λ o. resolved o.1)
        (run-append opts (at now (reply r.ok r.guard r.lines)) (arrivals now rs) c)
      ∙ resolved-append first.1 (run opts (arrivals now rs) first.0).1
      ∙ ap (◌++◌ (resolved first.1)) (resolved-arrivals rs first.0 free h)
      ∙ ap (λ es. resolved es ++ answers first.0.pending rs) effects
      ∙ ap (λ ps. resolved (replied opts now (result r) c.pending).1 ++ answers ps rs) queue
      ∙ resolved-replied r rs c.pending

-- No command among these was abandoned.
abbrev pub AreLive : List PendingCommand → Type 0
AreLive = All (λ p. p.cancelled ≡ false)

answers-cancel_loop :
    (why count : ℕ) (ps : List PendingCommand) (rs : List Reply)
    → AreLive ps
    → answers (cancel_loop why count ps).0 rs ≡ drop count (answers ps rs)
unfolding answers cancel_loop
answers-cancel_loop why zero [] rs h = refl
answers-cancel_loop why (suc count) [] rs h = refl
answers-cancel_loop why zero (p ∷ ps) rs h = refl
answers-cancel_loop why (suc count) (p ∷ ps) [] (kept, h) = ground arith
answers-cancel_loop why (suc count) (p ∷ ps) (r ∷ rs) (kept, h) =
    ground (arith, answers-cancel_loop why count ps rs h)

-- Abandoning the oldest commands moves no later reply to another command: with no command
-- abandoned before, the replies resolve what they would have resolved, but for the promises of
-- the `count` oldest.
pub resolved-cancel_oldest :
    (opts : Options) (now count why : ℕ) (rs : List Reply) (c : CommandCorrelator)
    → c.in_flight ≡ none
    → AreLive c.pending
    → All IsReply rs
    → resolved (run opts (arrivals now rs) (cancel_oldest count why c).0).1
      ≡ drop count (resolved (run opts (arrivals now rs) c).1)
unfolding cancel_oldest
resolved-cancel_oldest opts now count why rs c idle kept h =
    resolved-arrivals opts now rs (record c { pending = (cancel_loop why count c.pending).0 }) idle
      h
    ∙ answers-cancel_loop why count c.pending rs kept
    ∙ ap (drop count) (sym (resolved-arrivals opts now rs c idle h))
