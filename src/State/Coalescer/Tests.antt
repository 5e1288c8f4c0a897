-- ===== src/State/Coalescer/Tests.antt =====
-- A run of the coalescer: a notification, a cycle that ends dirty, and the trailing edge.
use tmuxcc_driver.Prelude.{ℕ, ◌+◌, ◌≤◌, ◌≡◌, ◌⊎◌, refl, true, false, some, List, [], ◌∷◌, arith}
use tmuxcc_driver.State.Coalescer.{
  leading, CoalescerOptions, Coalescer, new_coalescer, Event, notified, trailing_due, settled,
  converged, handle, notify, maybe_fire, run_requery, on_cycle_settled, trailing_fires,
}
use tmuxcc_driver.State.Coalescer.Pace.{note, IsSpaced}
use tmuxcc_driver.State.Coalescer.Runs.{Reaches, begins, then_, reached-IsSpaced, reached_dirty}

abbrev plain : CoalescerOptions
plain = record {
  ceiling_ms = 1000;
  heartbeat_ms = 30_000;
  observes_notify = true;
  observes_error = false;
  observes_fatal_error = false;
  observes_deltas = true;
}

abbrev after : ℕ → Event → Coalescer → Coalescer
after now e c = (handle plain now e c).0

abbrev starts_after : ℕ → Event → Coalescer → List ℕ → List ℕ
starts_after now e c starts = note now (handle plain now e c).1 starts

-- The leading edge at 5, the end of its cycle at 700, and the trailing edge at 1005.
abbrev first : Coalescer
first = after 5 (notified 0) new_coalescer

abbrev second : Coalescer
second = after 700 (settled (converged true)) first

abbrev third : Coalescer
third = after 1005 trailing_due second

first_reached : Reaches plain 5 first (starts_after 5 (notified 0) new_coalescer []) true
first_reached = then_ 5 (notified 0) (begins 0) (omega arith) tt

second_reached :
    Reaches plain 700 second
      (starts_after 700
        (settled (converged true))
        first
        (starts_after 5 (notified 0) new_coalescer []))
      true
unfolding handle notify maybe_fire run_requery
second_reached =
    then_ 700 (settled (converged true)) first_reached (omega arith)
      (record { edge = leading; first_notify_at = some 5 }, refl)

third_reached :
    Reaches plain 1005 third
      (starts_after 1005 trailing_due second (
        starts_after 700
          (settled (converged true))
          first
          (starts_after 5 (notified 0) new_coalescer [])))
      true
unfolding handle notify maybe_fire run_requery on_cycle_settled
third_reached = then_ 1005 trailing_due second_reached (omega arith) (omega arith)

third_starts :
    starts_after 1005 trailing_due second (
      starts_after 700
        (settled (converged true))
        first
        (starts_after 5 (notified 0) new_coalescer []))
    ≡ 1005 ∷ 5 ∷ []
unfolding handle notify maybe_fire run_requery on_cycle_settled trailing_fires
third_starts = refl

reached-IsSpaced_example : IsSpaced 1000 (
    starts_after 1005 trailing_due second (
      starts_after 700
        (settled (converged true))
        first
        (starts_after 5 (notified 0) new_coalescer [])))
reached-IsSpaced_example = reached-IsSpaced plain third_reached

reached_dirty_example :
    (second.in_flight ≡ true)
    ⊎ ((due : ℕ) × (second.trailing_handle ≡ some due) × (due ≤ 700 + 1000))
unfolding handle notify maybe_fire run_requery on_cycle_settled
reached_dirty_example = reached_dirty plain second_reached refl refl
