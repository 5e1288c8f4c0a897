-- ===== src/Metrics/StormAlarm/Window.antt =====
-- The alarm as a sliding window of intervals: what the ring of buckets stands for.
use Prim.Native.String.{String}
use mathlib.Core.List.{map-append}
use tmuxcc_driver.Prelude.{
  ℕ, zero, suc, ◌+◌, ◌%◌, ◌≡◌, refl, sym, ap, ◌∙◌, Bool, true, false, Option, some, List, [], ◌∷◌,
  ◌++◌, map, append-nil, append_assoc, arith, if◌then◌else◌, ◌&&◌, length, drop, concat,
  length-append,
}
use tmuxcc_driver.Prelude.Keyed.{string_keyed}
use tmuxcc_driver.Metrics.StormAlarm.{
  StormAlarm, KindBreakdown, modify, count_kind, kind_name, record_event, rotate, reached, rested,
  Call, records, starts, stops, timer,
}

-- The specification: the names counted in the complete intervals that the window still holds,
-- oldest first, and in the one under way.
pub record Watch : Type 0 where
  pub past : List (List String)
  pub now : List String
  pub is_on : Bool
  pub last_trip : Option ℕ
  pub threshold : Option ℕ
  pub reset_ms : ℕ

unfoldable pub slid : Watch → Watch
slid w = record w { past = drop 1 (w.past ++ w.now ∷ []); now = [] }

-- A trip, with its time and the number of events, when the complete intervals hold enough of them.
unfoldable pub judged : ℕ → Watch → Watch × List (ℕ × ℕ)
judged now w =
    let total = length (concat w.past) in
    if reached w.threshold total && rested w.last_trip w.reset_ms now
    then (record w { last_trip = some now }, (now, total) ∷ [])
    else (w, [])

unfoldable pub watch : Call → Watch → Watch × List (ℕ × ℕ)
watch (records kind) w = (record w { now = kind_name kind ∷ w.now }, [])
watch starts w = (record w { is_on = true }, [])
watch stops w = (record w { is_on = false }, [])
watch (timer now) w = if w.is_on then judged now (slid w) else (w, [])

unfoldable pub watch_all : List Call → Watch → Watch × List (ℕ × ℕ)
watch_all [] w = (w, [])
watch_all (c ∷ cs) w =
    let first = watch c w in let rest = watch_all cs first.0 in (rest.0, first.1 ++ rest.1)

-- What a bucket holds of an interval.
unfoldable pub tally : List String → KindBreakdown
tally [] = []
tally (k ∷ ks) = count_kind k (tally ks)

-- The ring stands for the window: the slots after the current one hold the older intervals.
pub record IsWatched (a : StormAlarm) (w : Watch) : Type 0 where
  pub newer : List (List String)
  pub older : List (List String)
  pub totals : a.bucket_totals ≡ map length newer ++ length w.now ∷ map length older
  pub kinds : a.bucket_kinds ≡ map tally newer ++ tally w.now ∷ map tally older
  pub place : a.current_bucket ≡ length newer
  pub count : a.bucket_count ≡ suc (length older + length newer)
  pub window : w.past ≡ older ++ newer
  pub running : a.running ≡ w.is_on
  pub armed : a.timer_armed ≡ a.running
  pub last_trip : a.last_trip_at ≡ w.last_trip
  pub threshold : a.threshold ≡ w.threshold
  pub reset_ms : a.reset_ms ≡ w.reset_ms

pub length-map : {A B : Type 0} (f : A → B) (xs : List A) → length (map f xs) ≡ length xs
length-map f [] = refl
length-map f (x ∷ xs) = ap suc (length-map f xs)

modify_at :
    {A : Type 0} (n : ℕ) (xs : List A) (y : A) (zs : List A) (f : A → A)
    → n ≡ length xs
    → modify n f (xs ++ y ∷ zs) ≡ xs ++ f y ∷ zs
unfolding modify
modify_at zero [] y zs f e = refl
modify_at zero (x ∷ xs) y zs f e = ground arith
modify_at (suc n) [] y zs f e = ground arith
modify_at (suc n) (x ∷ xs) y zs f e = rw (modify_at n xs y zs f (omega arith)) refl

pub record-IsWatched :
    (kind : Option String) (a : StormAlarm) (w : Watch)
    → IsWatched a w
    → IsWatched (record_event kind a) (record w { now = kind_name kind ∷ w.now })
unfolding record_event tally
record-IsWatched kind a w v = record {
  newer = v.newer;
  older = v.older;
  totals = rw v.totals (
      modify_at a.current_bucket (map length v.newer) (length w.now) (map length v.older) suc
        (v.place ∙ sym (length-map length v.newer)));
  kinds = rw v.kinds (
      modify_at a.current_bucket (map tally v.newer) (tally w.now) (map tally v.older)
        (count_kind (kind_name kind)) (v.place ∙ sym (length-map tally v.newer)));
  place = v.place;
  count = v.count;
  window = v.window;
  running = v.running;
  armed = v.armed;
  last_trip = v.last_trip;
  threshold = v.threshold;
  reset_ms = v.reset_ms;
}

-- A write to the slot after the current one.
modify_next :
    {A B : Type 0} (g : A → B) (xs : List A) (y z : A) (zs : List A) (f : B → B) (b : B)
    → f (g z) ≡ b
    → modify (suc (length xs)) f (map g xs ++ g y ∷ map g (z ∷ zs))
      ≡ (map g xs ++ g y ∷ []) ++ b ∷ map g zs
unfolding modify
modify_next g [] y z zs f b e = rw e refl
modify_next g (x ∷ xs) y z zs f b e = rw (modify_next g xs y z zs f b e) refl

pub slid-IsWatched :
    (now : ℕ) (a : StormAlarm) (w : Watch) → IsWatched a w → IsWatched (rotate now a) (slid w)
unfolding rotate slid tally modify
slid-IsWatched now a w v = turned v.newer v.older v.totals v.kinds v.place v.count v.window
  where
    turned :
        (newer older : List (List String))
        → a.bucket_totals ≡ map length newer ++ length w.now ∷ map length older
        → a.bucket_kinds ≡ map tally newer ++ tally w.now ∷ map tally older
        → a.current_bucket ≡ length newer
        → a.bucket_count ≡ suc (length older + length newer)
        → w.past ≡ older ++ newer
        → IsWatched (rotate now a) (slid w)
    turned [] [] totals kinds place count window =
        let back : (a.current_bucket + 1) % a.bucket_count ≡ 0 = rw (place, count) refl in
        record {
          newer = [];
          older = [];
          totals = rw (back, totals) refl;
          kinds = rw (back, kinds) refl;
          place = back;
          count = count;
          window = rw window refl;
          running = v.running;
          armed = v.armed;
          last_trip = v.last_trip;
          threshold = v.threshold;
          reset_ms = v.reset_ms;
        }
    turned (x ∷ xs) [] totals kinds place count window =
        let back : (a.current_bucket + 1) % a.bucket_count ≡ 0 = grind (arith, place, count) in
        record {
          newer = [];
          older = xs ++ w.now ∷ [];
          totals = rw (back, totals, map-append length xs (w.now ∷ [])) refl;
          kinds = rw (back, kinds, map-append tally xs (w.now ∷ [])) refl;
          place = back;
          count = rw (count, length-append xs (w.now ∷ [])) (omega arith);
          window = rw window (sym (append-nil _));
          running = v.running;
          armed = v.armed;
          last_trip = v.last_trip;
          threshold = v.threshold;
          reset_ms = v.reset_ms;
        }
    turned xs (z ∷ zs) totals kinds place count window =
        let next : (a.current_bucket + 1) % a.bucket_count ≡ suc (length xs) =
          grind (arith, place, count) in
        record {
          newer = xs ++ w.now ∷ [];
          older = zs;
          totals =
              rw (next, totals, map-append length xs (w.now ∷ []))
                (modify_next length xs w.now z zs (λ n. 0) 0 refl);
          kinds =
              rw (next, kinds, map-append tally xs (w.now ∷ []))
                (modify_next tally xs w.now z zs (λ ks. []) [] refl);
          place = rw (next, length-append xs (w.now ∷ [])) (omega arith);
          count = rw (count, length-append xs (w.now ∷ [])) (omega arith);
          window = rw window (append_assoc zs xs (w.now ∷ []));
          running = v.running;
          armed = v.armed;
          last_trip = v.last_trip;
          threshold = v.threshold;
          reset_ms = v.reset_ms;
        }
