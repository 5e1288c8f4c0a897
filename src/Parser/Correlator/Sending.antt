-- ===== src/Parser/Correlator/Sending.antt =====
-- Registering slots and writing their commands.
use tmuxcc_driver.Prelude.{ℕ, suc, List, [], ◌∷◌, Bytes}
use tmuxcc_driver.Parser.Correlator.{Effect, write, PendingCommand, Options, new_pending}

-- The chunks written, in order.
abbrev pub written : List Effect → List Bytes
written [] = []
written (write bytes ∷ es) = bytes ∷ written es
written (_ ∷ es) = written es

module _ (opts : Options) (now : ℕ) where
  -- The slots of `n` commands that are registered now, numbered from `slot` on.
  abbrev pub registered : ℕ → List Bytes → List PendingCommand
  registered slot [] = []
  registered slot (_ ∷ commands) = new_pending opts now slot ∷ registered (suc slot) commands
