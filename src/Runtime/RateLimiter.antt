-- ===== src/Runtime/RateLimiter.antt =====
-- packages/driver/src/runtime/notify-rate-limiter.ts: the token buckets of a pane's notifications.
-- Tokens are counted in thousandths, so that a millisecond refills exactly the rate; the source's
-- doubles round instead. The clock is an argument.
pub mod Budgets
pub mod Tests
use tmuxcc_driver.Prelude.{
  ℕ, ◌+◌, ◌-◌, ◌*◌, ◌≡◌, Bool, true, false, ◌||◌, Option, none, some, List, [], ◌∷◌, leb, ltb, ◌==◌,
  if◌then◌else◌, min,
}
use tmuxcc_driver.Prelude.Dict.{Dict, get, set}
use tmuxcc_driver.Runtime.NotifyKind.{
  PaneNotifyKind, bell, osc9, progress, cmd_exit, kind_matches, kind_keyed,
}

pub record Budget : Type 0 where
  pub rate_per_sec : ℕ
  pub capacity : ℕ

unfoldable pub budget : PaneNotifyKind → Budget
budget bell = record { rate_per_sec = 10; capacity = 10 }
budget osc9 = record { rate_per_sec = 10; capacity = 10 }
budget progress = record { rate_per_sec = 5; capacity = 3 }
budget cmd_exit = record { rate_per_sec = 20; capacity = 20 }

-- `tokens` in thousandths of a token.
pub record Bucket : Type 0 where
  pub tokens : ℕ
  pub last_refill_ms : ℕ

-- Refill by the elapsed time, when there is any, up to the capacity.
unfoldable pub refill : Budget → ℕ → Bucket → Bucket
refill b now bucket =
    if ltb bucket.last_refill_ms now
    then record {
      tokens =
          min (b.capacity * 1000) (bucket.tokens + (now - bucket.last_refill_ms) * b.rate_per_sec);
      last_refill_ms = now;
    }
    else bucket

abbrev pub take_token : Bucket → Bucket × Bool
take_token bucket =
    if leb 1000 bucket.tokens
    then (record bucket { tokens = bucket.tokens - 1000 }, true)
    else (bucket, false)

-- The bucket of a kind after a signal, and whether the signal is within budget.
unfoldable pub allow_bucket : Budget → ℕ → Option Bucket → Bucket × Bool
allow_bucket b now none = (record { tokens = (b.capacity - 1) * 1000; last_refill_ms = now }, true)
allow_bucket b now (some bucket) = take_token (refill b now bucket)

-- The limiter of a pane: a bucket for each kind that was seen.
abbrev pub PaneNotifyRateLimiter : Type 0
PaneNotifyRateLimiter = Dict PaneNotifyKind Bucket

unfoldable pub allow : PaneNotifyKind → ℕ → PaneNotifyRateLimiter → PaneNotifyRateLimiter × Bool
allow kind now buckets =
    let r = allow_bucket (budget kind) now (get buckets kind) in (set buckets kind r.0, r.1)

unfoldable pub is_tier1_notify_kind : PaneNotifyKind → Bool
is_tier1_notify_kind kind = kind_matches kind bell || kind_matches kind osc9
