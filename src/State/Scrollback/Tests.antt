-- ===== src/State/Scrollback/Tests.antt =====
-- Runs of the store on small inputs.
use tmuxcc_driver.Prelude.{◌≡◌, refl, some, List, [], ◌∷◌}
use tmuxcc_driver.Prelude.Dict.{get, set, delete}
use tmuxcc_driver.Prelude.Buffers.{gather}
use tmuxcc_driver.State.Scrollback.{append, copy_out, get_contents, size, Call, appends, drops, run}
use tmuxcc_driver.State.Scrollback.History.{written, get_contents-run}

scrollback : Unit {0}
unfolding append get_contents size get set delete gather copy_out run written
scrollback = tt

abbrev history : List Call
history =
    appends "p1" (9 ∷ [])
    ∷ drops "p1"
    ∷ appends "p0" (1 ∷ 2 ∷ 3 ∷ [])
    ∷ appends "p0" (4 ∷ 5 ∷ [])
    ∷ []

sliced : get_contents (run 4 [] history) "p0" ≡ some (2 ∷ 3 ∷ 4 ∷ 5 ∷ [])
unfolding scrollback
sliced = refl

no_retention : get_contents (append 0 [] "p0" (1 ∷ 2 ∷ [])) "p0" ≡ some []
unfolding scrollback
no_retention = refl

get_contents-run_example : get_contents (run 4 [] history) "p0" ≡ some (2 ∷ 3 ∷ 4 ∷ 5 ∷ [])
unfolding scrollback
get_contents-run_example = get_contents-run 4 history "p0"
