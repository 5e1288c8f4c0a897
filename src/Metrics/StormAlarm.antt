-- ===== src/Metrics/StormAlarm.antt =====
-- packages/driver/src/metrics/storm-alarm.ts: the alarm on the rate of topology events.
-- The clock is an argument. `fires` is the timer's callback; it runs only while the timer is armed.
-- A threshold of `none` is Infinity, a last trip of `none` is -Infinity. The observer `onTrip` and
-- the line on stderr see the trip's effect; the class catches what the observer throws.
mod Window
mod Kinds
mod Trips
mod Spaced
mod Tests
use Prim.Native.String.{String}
use tmuxcc_driver.Prelude.{
  ℕ, zero, suc, ◌+◌, ◌-◌, ◌/◌, ◌%◌, max, Bool, true, false, Option, none, some, List, [], ◌∷◌, ◌++◌,
  leb, if◌then◌else◌, ◌&&◌, ◌||◌, ◌==◌, ◌^◌,
}
use tmuxcc_driver.Prelude.Keyed.{Keyed, string_keyed}
use tmuxcc_driver.Prelude.Dict.{Dict, get, set}

abbrev pub KindBreakdown : Type 0
KindBreakdown = Dict String ℕ

pub record StormAlarmOptions : Type 0 where
  pub window_ms : Option ℕ
  pub bucket_ms : Option ℕ
  pub threshold : Option (Option ℕ)
  pub reset_ms : Option ℕ

pub record StormAlarm : Type 0 where
  pub bucket_count : ℕ
  pub bucket_ms : ℕ
  pub threshold : Option ℕ
  pub reset_ms : ℕ
  pub bucket_totals : List ℕ
  pub bucket_kinds : List KindBreakdown
  pub current_bucket : ℕ
  pub last_rotate_at : ℕ
  pub running : Bool
  pub timer_armed : Bool
  pub last_trip_at : Option ℕ

-- A trip: when, and what the log line and `onTrip` are given.
pub data Effect : Type 0 where
  trip : (now total : ℕ) → KindBreakdown → Effect

abbrev pub Outcome : Type 0
Outcome = StormAlarm × List Effect

abbrev pub default_window_ms : ℕ
default_window_ms = 5000

abbrev pub default_bucket_ms : ℕ
default_bucket_ms = 1000

abbrev pub default_threshold : ℕ
default_threshold = 2500

abbrev pub default_reset_ms : ℕ
default_reset_ms = 10_000

abbrev pub or_default {ℓ} : {A : Type ℓ} → Option A → A → A
or_default none d = d
or_default (some a) d = a

abbrev pub or_zero : Option ℕ → ℕ
or_zero none = 0
or_zero (some n) = n

unfoldable pub filled {ℓ} : {A : Type ℓ} → ℕ → A → List A
filled zero a = []
filled (suc n) a = a ∷ filled n a

-- `Math.max(1, Math.ceil(windowMs / bucketMs))`, for buckets of some width.
unfoldable pub buckets_for : ℕ → ℕ → ℕ
buckets_for window_ms bucket_ms = max 1 ((window_ms + (bucket_ms - 1)) / bucket_ms)

-- The alarm where the constructor does not throw.
unfoldable pub create_storm_alarm : StormAlarmOptions → ℕ → StormAlarm
create_storm_alarm opts now =
    let bucket_ms = or_default opts.bucket_ms default_bucket_ms in
    let n = buckets_for (or_default opts.window_ms default_window_ms) bucket_ms in
    record {
      bucket_count = n;
      bucket_ms = bucket_ms;
      threshold = or_default opts.threshold (some default_threshold);
      reset_ms = or_default opts.reset_ms default_reset_ms;
      bucket_totals = filled n 0;
      bucket_kinds = filled n [];
      current_bucket = 0;
      last_rotate_at = now;
      running = false;
      timer_armed = false;
      last_trip_at = none;
    }

-- The constructor of the class. `none` is the RangeError of `new Array`: for buckets of no width
-- (the count is Infinity or NaN), and for more buckets than an array can have.
unfoldable pub new_storm_alarm : StormAlarmOptions → ℕ → Option StormAlarm
new_storm_alarm opts now =
    let bucket_ms = or_default opts.bucket_ms default_bucket_ms in
    let n = buckets_for (or_default opts.window_ms default_window_ms) bucket_ms in
    if (bucket_ms == 0) || leb (2 ^ 32) n then none else some (create_storm_alarm opts now)

-- A write to one slot of an array.
unfoldable pub modify {ℓ} : {A : Type ℓ} → ℕ → (A → A) → List A → List A
modify i f [] = []
modify zero f (x ∷ xs) = f x ∷ xs
modify (suc i) f (x ∷ xs) = x ∷ modify i f xs

abbrev pub count_kind : String → KindBreakdown → KindBreakdown
count_kind k kinds = set kinds k (or_zero (get kinds k) + 1)

abbrev pub kind_name : Option String → String
kind_name none = "unknown"
kind_name (some kind) = kind

unfoldable pub record_event : Option String → StormAlarm → StormAlarm
record_event kind a = record a {
  bucket_totals = modify a.current_bucket suc a.bucket_totals;
  bucket_kinds = modify a.current_bucket (count_kind (kind_name kind)) a.bucket_kinds;
}

unfoldable pub arm_tick : StormAlarm → StormAlarm
arm_tick a = if a.running then record a { timer_armed = true } else a

unfoldable pub start : StormAlarm → StormAlarm
unfolding arm_tick
start a = if a.running then a else arm_tick (record a { running = true })

unfoldable pub stop : StormAlarm → StormAlarm
stop a = if a.running then record a { running = false; timer_armed = false } else a

-- The entries of one bucket, added to those merged so far.
unfoldable pub merge : KindBreakdown → KindBreakdown → KindBreakdown
merge merged [] = merged
merge merged ((k, v) ∷ kinds) = merge (set merged k (or_zero (get merged k) + v)) kinds

unfoldable pub merge_all : KindBreakdown → List KindBreakdown → KindBreakdown
merge_all merged [] = merged
merge_all merged (kinds ∷ rest) = merge_all (merge merged kinds) rest

unfoldable pub window_breakdown : StormAlarm → KindBreakdown
window_breakdown a = merge_all [] a.bucket_kinds

abbrev pub total_of : List ℕ → ℕ
total_of [] = 0
total_of (n ∷ ns) = n + total_of ns

unfoldable pub window_total : StormAlarm → ℕ
window_total a = total_of a.bucket_totals

-- The next slot becomes the current one, and is cleared.
unfoldable pub rotate : ℕ → StormAlarm → StormAlarm
rotate now a =
    let next = (a.current_bucket + 1) % a.bucket_count in
    record a {
      current_bucket = next;
      bucket_totals = modify next (λ n. 0) a.bucket_totals;
      bucket_kinds = modify next (λ kinds. []) a.bucket_kinds;
      last_rotate_at = now;
    }

abbrev pub reached : Option ℕ → ℕ → Bool
reached none total = false
reached (some threshold) total = leb threshold total

abbrev pub rested : Option ℕ → ℕ → ℕ → Bool
rested none reset_ms now = true
rested (some last) reset_ms now = leb (last + reset_ms) now

-- The evaluation of the window behind the rotation.
unfoldable pub evaluate : ℕ → StormAlarm → Outcome
evaluate now a =
    if reached a.threshold (window_total a) && rested a.last_trip_at a.reset_ms now
    then (record a { last_trip_at = some now }, trip now (window_total a) (window_breakdown a) ∷ [])
    else (a, [])

unfoldable pub tick : ℕ → StormAlarm → Outcome
tick now a =
    let evaluated = evaluate now (rotate now a) in
    if a.running then (arm_tick evaluated.0, evaluated.1) else (a, [])

-- The callback of the timer.
unfoldable pub fires : ℕ → StormAlarm → Outcome
fires now a = if a.timer_armed then tick now (record a { timer_armed = false }) else (a, [])

-- The calls of a session with the firings of its timer, and a history of them.
pub data Call : Type 0 where
  records : Option String → Call
  starts stops : Call
  timer : (now : ℕ) → Call

unfoldable pub call : Call → StormAlarm → Outcome
call (records kind) a = (record_event kind a, [])
call starts a = (start a, [])
call stops a = (stop a, [])
call (timer now) a = fires now a

unfoldable pub run : List Call → StormAlarm → Outcome
run [] a = (a, [])
run (c ∷ cs) a = let first = call c a in let rest = run cs first.0 in (rest.0, first.1 ++ rest.1)
