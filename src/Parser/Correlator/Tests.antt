-- ===== src/Parser/Correlator/Tests.antt =====
-- Runs of the correlator on short sessions.
use tmuxcc_driver.Prelude.{
  ℕ, ◌≡◌, ◌≤◌, ◌+◌, refl, true, false, none, List, [], ◌∷◌, ◌++◌, arith, Bytes, drop,
}
use tmuxcc_driver.Prelude.Buffers.{gather}
use tmuxcc_driver.Parser.Tokens.{Guard}
use tmuxcc_driver.Parser.Correlator.{
  resolve, reject, write, on_unsolicited_block, on_pending_changed, abandoned, Options,
  CommandCorrelator, new_correlator, pending_snapshot, expect_command, lines, send, expect_all,
  send_batch, cancel_loop, cancel_oldest, reject_oldest, handle_begin, handle_body, collect_chunks,
  collect_body, settle, deliver, close_open, close_block, push, Call, sends, sends_batch, cancels,
  call, run,
}
use tmuxcc_driver.Parser.Correlator.Body.{join_lines}
use tmuxcc_driver.Parser.Correlator.Replies.{at, reply, result_of, replied, run-reply_pending}
use tmuxcc_driver.Parser.Correlator.Fifo.{
  Reply, arrivals, resolved, answers, resolved-arrivals, resolved-cancel_oldest,
}
use tmuxcc_driver.Parser.Correlator.Settling.{
  settled, live, made, answered, queued, taken, run-new_correlator-answered,
}

correlator : Unit {0}
unfolding pending_snapshot expect_command send expect_all send_batch cancel_loop cancel_oldest
    reject_oldest handle_begin handle_body gather collect_chunks collect_body settle deliver
    close_open close_block push call run join_lines answers
correlator = tt

abbrev opts : Options
opts = record {
  observes_notifications = true;
  writes = true;
  observes_unsolicited = true;
  observes_pending = true;
}

abbrev guard : ℕ → Guard
guard n = record { timestamp = 7; command_number = n; flags = 1 }

abbrev startup : Guard
startup = record { timestamp = 7; command_number = 1; flags = 0 }

abbrev two_lines : List Bytes
two_lines = (1 ∷ []) ∷ (2 ∷ []) ∷ []

abbrev session : List (ℕ × Call)
session = (0, sends (b'x' ∷ [])) ∷ at 5 (reply true startup [] ++ reply true (guard 2) two_lines)

one_command :
    (run opts session new_correlator).1
    ≡ on_pending_changed 1 0
      ∷ write (b'x' ∷ 10 ∷ [])
      ∷ on_pending_changed 0 0
      ∷ resolve 0 (record { ok = true; command_number = 2; body = 1 ∷ 10 ∷ 2 ∷ [] })
      ∷ []
unfolding correlator
one_command = refl

-- The first command is abandoned; its late reply is dropped and the second reply finds its own.
abbrev stalled : List (ℕ × Call)
stalled =
    (0, sends_batch ((b'a' ∷ []) ∷ (b'b' ∷ []) ∷ []))
    ∷ (9, cancels 1 4)
    ∷ at 9 (reply true (guard 2) [] ++ reply false (guard 3) [])

late_reply :
    (run opts stalled new_correlator).1
    ≡ on_pending_changed 1 0
      ∷ on_pending_changed 2 0
      ∷ write (b'a' ∷ 10 ∷ b'b' ∷ 10 ∷ [])
      ∷ reject 0 (abandoned 4)
      ∷ on_pending_changed 1 9
      ∷ on_pending_changed 0 0
      ∷ resolve 1 (record { ok = false; command_number = 3; body = [] })
      ∷ []
unfolding correlator
late_reply = refl

slotless : (run opts (at 0 (reply true (guard 2) [])) new_correlator).1 ≡ on_unsolicited_block ∷ []
unfolding correlator
slotless = refl

abbrev waiting : CommandCorrelator
waiting = record {
  pending =
      record { slot = 0; expected_command_number = none; cancelled = false; registered_at_ms = 0 }
      ∷ record { slot = 1; expected_command_number = none; cancelled = false; registered_at_ms = 0 }
      ∷ [];
  in_flight = none;
  next_slot = 2;
}

abbrev incoming : List Reply
incoming =
    record { ok = true; guard = guard 2; lines = two_lines }
    ∷ record { ok = false; guard = guard 3; lines = [] }
    ∷ []

run-reply_pending_example :
    let o = run opts (at 5 (reply true (guard 2) two_lines)) waiting in
    (o.0.in_flight ≡ none)
    × (o.0.next_slot ≡ 2)
    × (o.0.pending ≡ (replied opts 5 (result_of true (guard 2) two_lines) waiting.pending).0)
    × (o.1 ≡ (replied opts 5 (result_of true (guard 2) two_lines) waiting.pending).1)
run-reply_pending_example =
    run-reply_pending opts 5 true (guard 2) two_lines waiting refl (λ e. omega arith)

resolved-arrivals_example :
    resolved (run opts (arrivals 5 incoming) waiting).1
    ≡ (0, record { ok = true; command_number = 2; body = 1 ∷ 10 ∷ 2 ∷ [] })
      ∷ (1, record { ok = false; command_number = 3; body = [] })
      ∷ []
unfolding correlator
resolved-arrivals_example =
    resolved-arrivals opts 5 incoming waiting refl ((λ e. omega arith), ((λ e. omega arith), tt))

resolved-cancel_oldest_example :
    resolved (run opts (arrivals 5 incoming) (cancel_oldest 1 4 waiting).0).1
    ≡ drop 1 (resolved (run opts (arrivals 5 incoming) waiting).1)
resolved-cancel_oldest_example =
    resolved-cancel_oldest opts 5 1 4 incoming waiting refl (refl, (refl, tt))
      ((λ e. omega arith), ((λ e. omega arith), tt))

run-new_correlator-answered_example :
    let o = run opts stalled new_correlator in
    (made 1 o.0.next_slot ≤ settled 1 o.1 + live 1 o.0.pending)
    × (answered 1 o.1 + live 1 o.0.pending ≤ made 1 o.0.next_slot)
    × (taken 1 o.1 + queued 1 o.0.pending ≤ made 1 o.0.next_slot)
run-new_correlator-answered_example = run-new_correlator-answered opts stalled 1
