-- ===== src/Runtime/NotifyKind.antt =====
-- The kinds of a pane's notifications (`PaneNotifyKind` of packages/protocol), as map keys.
use tmuxcc_driver.Prelude.{◌≡◌, ◌↔◌, refl, Bool, true, false}
use tmuxcc_driver.Prelude.Keyed.{Keyed}

pub data PaneNotifyKind : Type 0 where
  bell osc9 progress cmd_exit : PaneNotifyKind

-- The test of the kinds, which are texts in the source.
abbrev pub kind_matches : PaneNotifyKind → PaneNotifyKind → Bool
kind_matches bell bell = true
kind_matches osc9 osc9 = true
kind_matches progress progress = true
kind_matches cmd_exit cmd_exit = true
kind_matches _ _ = false

kind_same : (k : PaneNotifyKind) → kind_matches k k ≡ true
kind_same bell = refl
kind_same osc9 = refl
kind_same progress = refl
kind_same cmd_exit = refl

kind_matches_eq : (k j : PaneNotifyKind) → kind_matches k j ≡ true → k ≡ j
kind_matches_eq bell bell h = refl
kind_matches_eq bell osc9 h = absurd (cc h)
kind_matches_eq bell progress h = absurd (cc h)
kind_matches_eq bell cmd_exit h = absurd (cc h)
kind_matches_eq osc9 bell h = absurd (cc h)
kind_matches_eq osc9 osc9 h = refl
kind_matches_eq osc9 progress h = absurd (cc h)
kind_matches_eq osc9 cmd_exit h = absurd (cc h)
kind_matches_eq progress bell h = absurd (cc h)
kind_matches_eq progress osc9 h = absurd (cc h)
kind_matches_eq progress progress h = refl
kind_matches_eq progress cmd_exit h = absurd (cc h)
kind_matches_eq cmd_exit bell h = absurd (cc h)
kind_matches_eq cmd_exit osc9 h = absurd (cc h)
kind_matches_eq cmd_exit progress h = absurd (cc h)
kind_matches_eq cmd_exit cmd_exit h = refl

pub kind_matches_iff : (k j : PaneNotifyKind) → (kind_matches k j ≡ true) ↔ (k ≡ j)
kind_matches_iff k j = (kind_matches_eq k j, λ e. rw (← e) (kind_same k))

instance abbrev pub kind_keyed : Keyed PaneNotifyKind
kind_keyed = record { matches = kind_matches; matches_iff = kind_matches_iff }
