-- ===== src/Metrics/StormAlarm/Tests.antt =====
-- Runs of the alarm, and its theorems at them.
use Prim.Native.String.{String}
use tmuxcc_driver.Prelude.{◌+◌, ◌≡◌, refl, none, some, List, [], ◌∷◌, map}
use tmuxcc_driver.Prelude.Keyed.{string_keyed}
use tmuxcc_driver.Prelude.Dict.{get, set}
use tmuxcc_driver.Metrics.StormAlarm.{
  StormAlarmOptions, StormAlarm, filled, buckets_for, create_storm_alarm, new_storm_alarm, modify,
  record_event, arm_tick, start, stop, merge, merge_all, window_breakdown, window_total, rotate,
  evaluate, tick, fires, Call, records, starts, timer, call, run, or_zero,
}
use tmuxcc_driver.Metrics.StormAlarm.Window.{slid, judged, watch, watch_all}
use tmuxcc_driver.Metrics.StormAlarm.Trips.{summary, new_watch, trips-run}
use tmuxcc_driver.Metrics.StormAlarm.Kinds.{occurrences, window_breakdown-run}
use tmuxcc_driver.Metrics.StormAlarm.Spaced.{IsSpaced, run-IsSpaced, run-single_bucket}

abbrev two_seconds : StormAlarmOptions
two_seconds = record {
  window_ms = some 1500;
  bucket_ms = some 1000;
  threshold = some (some 2);
  reset_ms = some 3000;
}

abbrev one_second : StormAlarmOptions
one_second = record {
  window_ms = some 1000;
  bucket_ms = some 1000;
  threshold = some (some 2);
  reset_ms = some 3000;
}

-- A storm of two events in each second.
abbrev storm : List Call
storm =
    starts
    ∷ records (some "window-add")
    ∷ records none
    ∷ timer 1000
    ∷ records (some "window-add")
    ∷ records (some "window-add")
    ∷ timer 2000
    ∷ records none
    ∷ records (some "window-add")
    ∷ timer 4000
    ∷ records (some "window-add")
    ∷ []

end : StormAlarmOptions → StormAlarm
unfolding run call create_storm_alarm fires tick evaluate rotate record_event start stop arm_tick
    window_total window_breakdown merge merge_all modify filled buckets_for get set
end opts = (run storm (create_storm_alarm opts 0)).0

-- A bucket of no width makes the constructor throw.
no_width :
    (new_storm_alarm (record one_second { bucket_ms = some 0 }) 0 ≡ none)
    × (new_storm_alarm one_second 0 ≡ some (create_storm_alarm one_second 0))
unfolding new_storm_alarm buckets_for
no_width = (refl, refl)

trips-run_example :
    map summary (run storm (create_storm_alarm two_seconds 0)).1 ≡ (1000, 2) ∷ (4000, 2) ∷ []
unfolding new_watch watch_all watch slid judged filled buckets_for
trips-run_example = trips-run two_seconds 0 storm

window_of_storm : window_breakdown (end two_seconds) ≡ ("unknown", 1) ∷ ("window-add", 2) ∷ []
unfolding end window_breakdown
window_of_storm = refl

window_breakdown-run_example :
    (window_total (end two_seconds) ≡ 3)
    × ((k : String)
        → or_zero (get (window_breakdown (end two_seconds)) k)
          ≡ occurrences k ("window-add" ∷ "unknown" ∷ []) + occurrences k ("window-add" ∷ []))
unfolding end new_watch watch_all watch slid judged filled buckets_for
window_breakdown-run_example = window_breakdown-run two_seconds 0 storm

run-IsSpaced_example :
    IsSpaced 3000 none (map summary (run storm (create_storm_alarm two_seconds 0)).1)
unfolding create_storm_alarm
run-IsSpaced_example = run-IsSpaced two_seconds 0 storm

-- Two events in every interval, and a threshold of two: no trip.
run-single_bucket_example : map summary (run storm (create_storm_alarm one_second 0)).1 ≡ []
run-single_bucket_example =
    run-single_bucket one_second 0 storm 1 (unfold create_storm_alarm buckets_for in refl)
      (unfold create_storm_alarm in refl)
