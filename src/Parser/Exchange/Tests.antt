-- ===== src/Parser/Exchange/Tests.antt =====
-- A reply from bytes to the promise it resolves.
use tmuxcc_driver.Prelude.{◌≡◌, refl, true, none, some, List, [], ◌∷◌, ◌++◌, arith}
use tmuxcc_driver.Parser.Tokens.{ControlToken}
use tmuxcc_driver.Parser.Tokenizer.{dcs_intro, ControlTokenizer, new_tokenizer}
use tmuxcc_driver.Parser.Tokenizer.Session.{session, push_all}
use tmuxcc_driver.Parser.Tokenizer.Tests.{written, written-IsWritten, pieces}
use tmuxcc_driver.Parser.Correlator.{Options, CommandCorrelator, new_pending, run}
use tmuxcc_driver.Parser.Correlator.Replies.{at}
use tmuxcc_driver.Parser.Correlator.Fifo.{resolved, answers}
use tmuxcc_driver.Parser.Exchange.{replies, resolved-session}

abbrev all_observers : Options
all_observers = record {
  observes_notifications = true;
  writes = true;
  observes_unsolicited = true;
  observes_pending = true;
}

abbrev two_pending : CommandCorrelator
two_pending = record {
  pending = new_pending all_observers 5 0 ∷ new_pending all_observers 6 1 ∷ [];
  in_flight = none;
  next_slot = 2;
}

resolved-session_example :
    (t : ControlTokenizer) × (read : List ControlToken) × (push_all new_tokenizer
        (pieces (dcs_intro ++ session written []))
      ≡ some (t, read))
    × (resolved (run all_observers (at 9 read) two_pending).1
        ≡ answers two_pending.pending (replies written))
resolved-session_example =
    resolved-session all_observers 9 written (pieces (dcs_intro ++ session written [])) two_pending
      refl written-IsWritten (ground arith) refl
