-- ===== src/Runtime/RateLimiter/Tests.antt =====
-- A storm of progress signals between bells.
use tmuxcc_driver.Prelude.{ℕ, ◌+◌, ◌-◌, ◌*◌, ◌≤◌, refl, List, [], ◌∷◌, arith}
use tmuxcc_driver.Runtime.NotifyKind.{PaneNotifyKind, bell, progress, kind_keyed}
use tmuxcc_driver.Runtime.RateLimiter.{budget}
use tmuxcc_driver.Runtime.RateLimiter.Budgets.{
  verdicts, verdicts_on, granted, end_of, granted-verdicts,
}

abbrev storm : List (ℕ × PaneNotifyKind)
storm =
    (0, bell)
    ∷ (1, progress)
    ∷ (2, progress)
    ∷ (3, progress)
    ∷ (4, progress)
    ∷ (100, bell)
    ∷ (101, progress)
    ∷ (250, bell)
    ∷ []

granted-verdicts_example :
    granted (verdicts_on progress (verdicts storm [])) * 1000
    ≤ (budget progress).capacity * 1000
      + (end_of 1 (2 ∷ 3 ∷ 4 ∷ 101 ∷ []) - 1) * (budget progress).rate_per_sec
granted-verdicts_example =
    granted-verdicts progress storm 1 (2 ∷ 3 ∷ 4 ∷ 101 ∷ []) refl (ground arith)
