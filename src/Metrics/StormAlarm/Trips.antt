-- ===== src/Metrics/StormAlarm/Trips.antt =====
-- When the alarm trips.
use Prim.Native.String.{String}
use mathlib.Core.List.{map-append}
use tmuxcc_driver.Prelude.{
  ℕ, zero, suc, ◌+◌, ◌-◌, ◌≤◌, ◌≡◌, refl, sym, ap, ◌∙◌, Bool, true, false, none, some, List, [],
  ◌∷◌, ◌++◌, map, append-nil, arith, ◌&&◌, length, concat, length-append, Bool-cases, inl, inr,
}
use tmuxcc_driver.Metrics.StormAlarm.{
  StormAlarmOptions, StormAlarm, Effect, trip, KindBreakdown, or_default, default_window_ms,
  default_bucket_ms, default_threshold, default_reset_ms, filled, buckets_for, create_storm_alarm,
  arm_tick, start, stop, total_of, window_total, window_breakdown, rotate, reached, rested,
  evaluate, tick, fires, Call, records, starts, stops, timer, call, run,
}
use tmuxcc_driver.Metrics.StormAlarm.Window.{
  Watch, slid, judged, watch, watch_all, tally, IsWatched, record-IsWatched, slid-IsWatched,
}

-- What a trip tells, without its breakdown.
abbrev pub summary : Effect → ℕ × ℕ
summary (trip now total kinds) = (now, total)

total_of-append : (xs ys : List ℕ) → total_of (xs ++ ys) ≡ total_of xs + total_of ys
total_of-append [] ys = omega arith
total_of-append (x ∷ xs) ys = rw (total_of-append xs ys) (omega arith)

total_of-map : (xs : List (List String)) → total_of (map length xs) ≡ length (concat xs)
total_of-map [] = refl
total_of-map (x ∷ xs) = rw (total_of-map xs, length-append x (concat xs)) refl

length-concat :
    (xs ys : List (List String))
    → length (concat (xs ++ ys)) ≡ length (concat xs) + length (concat ys)
length-concat [] ys = omega arith
length-concat (x ∷ xs) ys =
    rw (length-append x (concat (xs ++ ys)), length-append x (concat xs), length-concat xs ys)
      (omega arith)

pub window_total_watched :
    (a : StormAlarm) (w : Watch)
    → IsWatched a w
    → window_total a ≡ length (concat w.past) + length w.now
unfolding window_total
window_total_watched a w v =
    rw
      (
        v.totals,
        v.window,
        length-concat v.older v.newer,
        sym (total_of-map v.older),
        sym (total_of-map v.newer),
        total_of-append (map length v.newer) (length w.now ∷ map length v.older),
      )
      (omega arith)

abbrev pub Agrees : StormAlarm × List Effect → Watch × List (ℕ × ℕ) → Type 0
Agrees o s = IsWatched o.0 s.0 × (map summary o.1 ≡ s.1)

tripped-IsWatched :
    (now : ℕ) (a : StormAlarm) (w : Watch)
    → IsWatched a w
    → IsWatched (record a { last_trip_at = some now }) (record w { last_trip = some now })
tripped-IsWatched now a w v = record {
  newer = v.newer;
  older = v.older;
  totals = v.totals;
  kinds = v.kinds;
  place = v.place;
  count = v.count;
  window = v.window;
  running = v.running;
  armed = v.armed;
  last_trip = refl;
  threshold = v.threshold;
  reset_ms = v.reset_ms;
}

switched-IsWatched :
    (on : Bool) (a : StormAlarm) (w : Watch)
    → IsWatched a w
    → IsWatched (record a { running = on; timer_armed = on }) (record w { is_on = on })
switched-IsWatched on a w v = record {
  newer = v.newer;
  older = v.older;
  totals = v.totals;
  kinds = v.kinds;
  place = v.place;
  count = v.count;
  window = v.window;
  running = refl;
  armed = refl;
  last_trip = v.last_trip;
  threshold = v.threshold;
  reset_ms = v.reset_ms;
}

judged-Agrees :
    (now : ℕ) (a : StormAlarm) (w : Watch)
    → IsWatched a w
    → w.now ≡ []
    → Agrees (evaluate now a) (judged now w)
unfolding evaluate judged
judged-Agrees now a w v fresh =
    let total : window_total a ≡ length (concat w.past) =
      window_total_watched a w v ∙ rw fresh (omega arith) in
    let same : (reached a.threshold (window_total a) && rested a.last_trip_at a.reset_ms now)
        ≡ (reached w.threshold (length (concat w.past)) && rested w.last_trip w.reset_ms now) =
      rw (total, v.threshold, v.last_trip, v.reset_ms) refl in
    rw same
      (elim (Bool-cases
        (reached w.threshold (length (concat w.past)) && rested w.last_trip w.reset_ms now)) [
          | inl go ↦ rw go (tripped-IsWatched now a w v, ap (λ (n : ℕ). (now, n) ∷ []) total)
          | inr quiet ↦ rw quiet (v, refl)
        ])

-- A firing of the timer leaves it armed again.
fires-eq_evaluate :
    (now : ℕ) (a : StormAlarm)
    → a.running ≡ true
    → a.timer_armed ≡ true
    → fires now a ≡ evaluate now (rotate now a)
unfolding fires tick arm_tick evaluate rotate window_total window_breakdown
fires-eq_evaluate now a on armed = ground arith

fires-eq_self : (now : ℕ) (a : StormAlarm) → a.timer_armed ≡ false → fires now a ≡ (a, [])
unfolding fires
fires-eq_self now a off = simp off refl

start-eq_switched :
    (a : StormAlarm)
    → a.timer_armed ≡ a.running
    → start a ≡ record a { running = true; timer_armed = true }
unfolding start arm_tick
start-eq_switched a armed = ground arith

stop-eq_switched :
    (a : StormAlarm)
    → a.timer_armed ≡ a.running
    → stop a ≡ record a { running = false; timer_armed = false }
unfolding stop
stop-eq_switched a armed = ground arith

pub watch_on : (now : ℕ) (w : Watch) → w.is_on ≡ true → watch (timer now) w ≡ judged now (slid w)
unfolding watch
watch_on now w on = rw on refl

pub watch_off : (now : ℕ) (w : Watch) → w.is_on ≡ false → watch (timer now) w ≡ (w, [])
unfolding watch
watch_off now w off = simp off refl

timer-Agrees :
    (now : ℕ) (a : StormAlarm) (w : Watch)
    → IsWatched a w
    → Agrees (fires now a) (watch (timer now) w)
unfolding slid
timer-Agrees now a w v = elim (Bool-cases w.is_on) [
  | inl on ↦
      rw (fires-eq_evaluate now a (v.running ∙ on) (v.armed ∙ v.running ∙ on), watch_on now w on)
        (judged-Agrees now (rotate now a) (slid w) (slid-IsWatched now a w v) slid_fresh)
  | inr off ↦ rw (fires-eq_self now a (v.armed ∙ v.running ∙ off), watch_off now w off) (v, refl)
]
  where
    slid_fresh : (slid w).now ≡ []
    slid_fresh = refl

call-Agrees :
    (c : Call) (a : StormAlarm) (w : Watch) → IsWatched a w → Agrees (call c a) (watch c w)
unfolding call watch
call-Agrees (records kind) a w v = (record-IsWatched kind a w v, refl)
call-Agrees starts a w v = (rw (start-eq_switched a v.armed) (switched-IsWatched true a w v), refl)
call-Agrees stops a w v = (rw (stop-eq_switched a v.armed) (switched-IsWatched false a w v), refl)
call-Agrees (timer now) a w v = timer-Agrees now a w v

pub run-Agrees :
    (cs : List Call) (a : StormAlarm) (w : Watch)
    → IsWatched a w
    → Agrees (run cs a) (watch_all cs w)
unfolding run watch_all
run-Agrees [] a w v = (v, refl)
run-Agrees (c ∷ cs) a w v =
    let first = call-Agrees c a w v in
    let rest = run-Agrees cs (call c a).0 (watch c w).0 first.0 in
    (rest.0, rw (map-append summary (call c a).1 (run cs (call c a).0).1, first.1, rest.1) refl)

-- A new alarm watches an empty window.
unfoldable pub new_watch : StormAlarmOptions → Watch
unfolding buckets_for filled
new_watch opts = record {
  past =
      filled
        (buckets_for (or_default opts.window_ms default_window_ms)
            (or_default opts.bucket_ms default_bucket_ms)
          - 1)
        [];
  now = [];
  is_on = false;
  last_trip = none;
  threshold = or_default opts.threshold (some default_threshold);
  reset_ms = or_default opts.reset_ms default_reset_ms;
}

map-filled : {A B : Type 0} (f : A → B) (n : ℕ) (x : A) → map f (filled n x) ≡ filled n (f x)
unfolding filled
map-filled f zero x = refl
map-filled f (suc n) x = ap (λ t. f x ∷ t) (map-filled f n x)

length-filled : {A : Type 0} (n : ℕ) (x : A) → length (filled n x) ≡ n
unfolding filled
length-filled zero x = refl
length-filled (suc n) x = ap suc (length-filled n x)

filled_suc : {A : Type 0} (n : ℕ) (x : A) → 1 ≤ n → filled n x ≡ x ∷ filled (n - 1) x
unfolding filled
filled_suc zero x h = absurd (omega arith)
filled_suc (suc n) x h = ap (λ (m : ℕ). x ∷ filled m x) (omega arith)

pub new-IsWatched :
    (opts : StormAlarmOptions) (now : ℕ) → IsWatched (create_storm_alarm opts now) (new_watch opts)
unfolding create_storm_alarm new_watch
new-IsWatched opts now =
    let n =
      buckets_for (or_default opts.window_ms default_window_ms)
        (or_default opts.bucket_ms default_bucket_ms) in
    let some_bucket : 1 ≤ n = unfold buckets_for in omega arith in
    record {
      newer = [];
      older = filled (n - 1) [];
      totals =
          rw (map-filled (length {A = String}) (n - 1) [], filled_suc {A = ℕ} n 0 some_bucket) refl;
      kinds =
          rw (map-filled tally (n - 1) [], filled_suc {A = KindBreakdown} n [] some_bucket)
            (unfold tally in refl);
      place = refl;
      count = rw (length-filled {A = List String} (n - 1) []) (omega arith);
      window = sym (append-nil _);
      running = refl;
      armed = refl;
      last_trip = refl;
      threshold = refl;
      reset_ms = refl;
    }

-- For every history of calls and firings of the timer on a new alarm: it trips at the firings where the
-- sliding window does, with the same number of events, that is, when it is running, at least `reset_ms`
-- have passed since the last trip, and the last `bucket_count - 1` complete intervals hold at least
-- `threshold` events. The interval that the firing opens is empty then.
pub trips-run :
    (opts : StormAlarmOptions) (now : ℕ) (cs : List Call)
    → map summary (run cs (create_storm_alarm opts now)).1 ≡ (watch_all cs (new_watch opts)).1
trips-run opts now cs =
    (run-Agrees cs (create_storm_alarm opts now) (new_watch opts) (new-IsWatched opts now)).1
