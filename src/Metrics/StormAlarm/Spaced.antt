-- ===== src/Metrics/StormAlarm/Spaced.antt =====
-- How far apart the trips are, and the alarm of a single bucket.
use tmuxcc_driver.Prelude.{
  ℕ, suc, ◌+◌, ◌≤◌, ◌≡◌, refl, true, false, Option, none, some, List, [], ◌∷◌, ◌++◌, map, arith,
  ◌&&◌, length, concat, Bool-cases, leb→le, inl, inr,
}
use tmuxcc_driver.Metrics.StormAlarm.{
  StormAlarmOptions, filled, create_storm_alarm, reached, rested, Call, records, starts, stops,
  timer, run,
}
use tmuxcc_driver.Metrics.StormAlarm.Window.{Watch, slid, judged, watch, watch_all}
use tmuxcc_driver.Metrics.StormAlarm.Trips.{summary, watch_on, watch_off, new_watch, trips-run}

-- Trips that are apart, after one at `last` when there was one.
abbrev Since : ℕ → Option ℕ → ℕ → Type 0
Since reset_ms none now = Unit
Since reset_ms (some last) now = last + reset_ms ≤ now

abbrev pub IsSpaced : ℕ → Option ℕ → List (ℕ × ℕ) → Type 0
IsSpaced reset_ms last [] = Unit
IsSpaced reset_ms last ((now, total) ∷ trips) =
    Since reset_ms last now × IsSpaced reset_ms (some now) trips

rested-Since :
    (last : Option ℕ) (reset_ms now : ℕ) → rested last reset_ms now ≡ true → Since reset_ms last now
rested-Since none reset_ms now go = tt
rested-Since (some last) reset_ms now go = leb→le (last + reset_ms) now go

-- What one call leaves open for the trips behind it.
judged-IsSpaced :
    (now : ℕ) (w : Watch) (later : List (ℕ × ℕ))
    → IsSpaced w.reset_ms (judged now w).0.last_trip later
    → IsSpaced w.reset_ms w.last_trip ((judged now w).1 ++ later)
unfolding judged
judged-IsSpaced now w later spaced =
    elim (Bool-cases
      (reached w.threshold (length (concat w.past)) && rested w.last_trip w.reset_ms now)) [
        | inl go ↦
            rw go (rested-Since w.last_trip w.reset_ms now (ground (arith, go)), rw go at spaced)
        | inr quiet ↦ rw quiet (rw quiet at spaced)
      ]

timer-IsSpaced :
    (now : ℕ) (w : Watch) (later : List (ℕ × ℕ))
    → IsSpaced w.reset_ms (watch (timer now) w).0.last_trip later
    → IsSpaced w.reset_ms w.last_trip ((watch (timer now) w).1 ++ later)
unfolding slid
timer-IsSpaced now w later spaced = elim (Bool-cases w.is_on) [
  | inl on ↦
      rw (watch_on now w on) (judged-IsSpaced now (slid w) later (rw (watch_on now w on) at spaced))
  | inr off ↦ rw (watch_off now w off) (rw (watch_off now w off) at spaced)
]

watch-IsSpaced :
    (c : Call) (w : Watch) (later : List (ℕ × ℕ))
    → IsSpaced w.reset_ms (watch c w).0.last_trip later
    → IsSpaced w.reset_ms w.last_trip ((watch c w).1 ++ later)
unfolding watch
watch-IsSpaced (records kind) w later spaced = spaced
watch-IsSpaced starts w later spaced = spaced
watch-IsSpaced stops w later spaced = spaced
watch-IsSpaced (timer now) w later spaced = timer-IsSpaced now w later spaced

watch-reset_ms : (c : Call) (w : Watch) → (watch c w).0.reset_ms ≡ w.reset_ms
unfolding watch judged slid
watch-reset_ms (records kind) w = refl
watch-reset_ms starts w = refl
watch-reset_ms stops w = refl
watch-reset_ms (timer now) w = ground arith

watch_all-IsSpaced :
    (cs : List Call) (w : Watch) → IsSpaced w.reset_ms w.last_trip (watch_all cs w).1
unfolding watch_all
watch_all-IsSpaced [] w = tt
watch_all-IsSpaced (c ∷ cs) w =
    let later = watch_all-IsSpaced cs (watch c w).0 in
    watch-IsSpaced c w (watch_all cs (watch c w).0).1 (rw (watch-reset_ms c w) at later)

-- For every history of calls and firings of the timer on a new alarm, each trip comes at least
-- `reset_ms` after the one before it.
pub run-IsSpaced :
    (opts : StormAlarmOptions) (now : ℕ) (cs : List Call)
    → IsSpaced
        (create_storm_alarm opts now).reset_ms
        none
        (map summary (run cs (create_storm_alarm opts now)).1)
unfolding create_storm_alarm new_watch
run-IsSpaced opts now cs = rw (trips-run opts now cs) (watch_all-IsSpaced cs (new_watch opts))

judged_quiet :
    (now n : ℕ) (w : Watch) → w.past ≡ [] → w.threshold ≡ some (suc n) → judged now w ≡ (w, [])
unfolding judged
judged_quiet now n w empty enough =
    let low : reached w.threshold (length (concat w.past)) ≡ false =
      rw (empty, enough) (ground arith) in
    rw low refl

-- The only interval of the window is the one under way.
watch_quiet :
    (n : ℕ) (c : Call) (w : Watch)
    → w.past ≡ []
    → w.threshold ≡ some (suc n)
    → ((watch c w).0.past ≡ []) × ((watch c w).0.threshold ≡ some (suc n)) × ((watch c w).1 ≡ [])
unfolding watch slid
watch_quiet n (records kind) w empty enough = (empty, enough, refl)
watch_quiet n starts w empty enough = (empty, enough, refl)
watch_quiet n stops w empty enough = (empty, enough, refl)
watch_quiet n (timer now) w empty enough =
    let none_left : (slid w).past ≡ [] = rw empty refl in
    elim (Bool-cases w.is_on) [
      | inl on ↦
          rw (watch_on now w on, judged_quiet now n (slid w) none_left enough)
            (none_left, enough, refl)
      | inr off ↦ rw (watch_off now w off) (empty, enough, refl)
    ]

watch_all_quiet :
    (n : ℕ) (cs : List Call) (w : Watch)
    → w.past ≡ []
    → w.threshold ≡ some (suc n)
    → (watch_all cs w).1 ≡ []
unfolding watch_all
watch_all_quiet n [] w empty enough = refl
watch_all_quiet n (c ∷ cs) w empty enough =
    let first = watch_quiet n c w empty enough in
    rw (first.2, watch_all_quiet n cs (watch c w).0 first.0 first.1) refl

-- An alarm whose bucket is as wide as its window, with a threshold of at least one event, never trips,
-- whatever is recorded.
pub run-single_bucket :
    (opts : StormAlarmOptions) (now : ℕ) (cs : List Call) (n : ℕ)
    → (create_storm_alarm opts now).bucket_count ≡ 1
    → (create_storm_alarm opts now).threshold ≡ some (suc n)
    → map summary (run cs (create_storm_alarm opts now)).1 ≡ []
unfolding create_storm_alarm new_watch filled
run-single_bucket opts now cs n single enough =
    rw (trips-run opts now cs) (watch_all_quiet n cs (new_watch opts) (rw single refl) enough)
