-- ===== src/Metrics/StormAlarm/Kinds.antt =====
-- The breakdown of the window by kind.
use Prim.Native.String.{String}
use tmuxcc_driver.Prelude.{
  ℕ, ◌+◌, ◌≡◌, refl, ◌∙◌, List, [], ◌∷◌, ◌++◌, map, arith, if◌then◌else◌, length, concat,
}
use tmuxcc_driver.Prelude.Keyed.{string_keyed}
use tmuxcc_driver.Prelude.Dict.{get, set, get-set}
use tmuxcc_driver.Metrics.StormAlarm.{
  StormAlarmOptions, StormAlarm, KindBreakdown, or_zero, count_kind, create_storm_alarm, merge,
  merge_all, window_total, window_breakdown, Call, run,
}
use tmuxcc_driver.Metrics.StormAlarm.Window.{Watch, watch_all, tally, IsWatched}
use tmuxcc_driver.Metrics.StormAlarm.Trips.{
  window_total_watched, new_watch, new-IsWatched, run-Agrees,
}

module _ (k : String) where
  -- How often the name stands in a list.
  abbrev pub occurrences : List String → ℕ
  occurrences [] = 0
  occurrences (j ∷ js) = (if string_keyed.matches j k then 1 else 0) + occurrences js

  -- The sum of a map's entries under the name.
  abbrev entries : KindBreakdown → ℕ
  entries [] = 0
  entries ((j, v) ∷ m) = (if string_keyed.matches j k then v else 0) + entries m

  abbrev all_entries : List KindBreakdown → ℕ
  all_entries [] = 0
  all_entries (m ∷ ms) = entries m + all_entries ms

  occurrences-append :
      (xs ys : List String) → occurrences (xs ++ ys) ≡ occurrences xs + occurrences ys
  occurrences-append [] ys = omega arith
  occurrences-append (x ∷ xs) ys = rw (occurrences-append xs ys) (omega arith)

  entries-count_kind :
      (j : String) (m : KindBreakdown)
      → entries (count_kind j m) ≡ (if string_keyed.matches j k then 1 else 0) + entries m
  unfolding get set
  entries-count_kind j [] = ground arith
  entries-count_kind j ((i, v) ∷ m) = ground (
    arith,
    string_keyed.matches_iff i j,
    string_keyed.matches_iff i k,
    string_keyed.matches_iff j k,
    entries-count_kind j m,
  )

  entries-tally : (ks : List String) → entries (tally ks) ≡ occurrences ks
  unfolding tally
  entries-tally [] = refl
  entries-tally (j ∷ js) = entries-count_kind j (tally js) ∙ rw (entries-tally js) refl

  get-merge :
      (merged kinds : KindBreakdown)
      → or_zero (get (merge merged kinds) k) ≡ or_zero (get merged k) + entries kinds
  unfolding merge
  get-merge merged [] = omega arith
  get-merge merged ((j, v) ∷ kinds) = ground (
    arith,
    string_keyed.matches_iff j k,
    get-merge (set merged j (or_zero (get merged j) + v)) kinds,
    get-set merged j k (or_zero (get merged j) + v),
  )

  get-merge_all :
      (merged : KindBreakdown) (ms : List KindBreakdown)
      → or_zero (get (merge_all merged ms) k) ≡ or_zero (get merged k) + all_entries ms
  unfolding merge_all
  get-merge_all merged [] = omega arith
  get-merge_all merged (m ∷ ms) =
      rw (get-merge_all (merge merged m) ms, get-merge merged m) (omega arith)

  all_entries-append :
      (xs ys : List KindBreakdown) → all_entries (xs ++ ys) ≡ all_entries xs + all_entries ys
  all_entries-append [] ys = omega arith
  all_entries-append (x ∷ xs) ys = rw (all_entries-append xs ys) (omega arith)

  all_entries-tally :
      (xs : List (List String)) → all_entries (map tally xs) ≡ occurrences (concat xs)
  all_entries-tally [] = refl
  all_entries-tally (x ∷ xs) =
      rw (all_entries-tally xs, entries-tally x, occurrences-append x (concat xs)) refl

  occurrences-concat :
      (xs ys : List (List String))
      → occurrences (concat (xs ++ ys)) ≡ occurrences (concat xs) + occurrences (concat ys)
  occurrences-concat [] ys = omega arith
  occurrences-concat (x ∷ xs) ys =
      rw
        (
          occurrences-append x (concat (xs ++ ys)),
          occurrences-append x (concat xs),
          occurrences-concat xs ys,
        )
        (omega arith)

  window_breakdown_watched :
      (a : StormAlarm) (w : Watch)
      → IsWatched a w
      → or_zero (get (window_breakdown a) k) ≡ occurrences (concat w.past) + occurrences w.now
  unfolding window_breakdown get
  window_breakdown_watched a w v =
      get-merge_all [] a.bucket_kinds
      ∙ rw
          (
            v.kinds,
            v.window,
            occurrences-concat v.older v.newer,
            all_entries-append (map tally v.newer) (tally w.now ∷ map tally v.older),
            all_entries-tally v.newer,
            all_entries-tally v.older,
            entries-tally w.now,
          )
          (omega arith)

-- For every history of calls and firings of the timer on a new alarm, `windowTotal` is the number of
-- events recorded in the sliding window (the last `bucket_count - 1` complete intervals and the one
-- under way), and `windowBreakdown` has for every kind the number of its events there, the events with
-- no kind under "unknown".
pub window_breakdown-run :
    (opts : StormAlarmOptions) (now : ℕ) (cs : List Call)
    → (window_total (run cs (create_storm_alarm opts now)).0
        ≡ length (concat (watch_all cs (new_watch opts)).0.past)
          + length (watch_all cs (new_watch opts)).0.now)
      × ((k : String)
          → or_zero (get (window_breakdown (run cs (create_storm_alarm opts now)).0) k)
            ≡ occurrences k (concat (watch_all cs (new_watch opts)).0.past)
              + occurrences k (watch_all cs (new_watch opts)).0.now)
window_breakdown-run opts now cs =
    let a = create_storm_alarm opts now in
    let v = (run-Agrees cs a (new_watch opts) (new-IsWatched opts now)).0 in
    (
      window_total_watched (run cs a).0 (watch_all cs (new_watch opts)).0 v,
      λ k. window_breakdown_watched k (run cs a).0 (watch_all cs (new_watch opts)).0 v,
    )
