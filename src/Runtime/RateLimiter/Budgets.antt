-- ===== src/Runtime/RateLimiter/Budgets.antt =====
-- The kinds' budgets: each kind has its own, which bounds its signals and is never spent by others.
use tmuxcc_driver.Prelude.{
  ℕ, zero, suc, ◌+◌, ◌-◌, ◌*◌, ◌≤◌, ◌≡◌, refl, ap, ◌∙◌, inl, inr, Bool, true, false, Option, none,
  some, List, [], ◌∷◌, arith, leb, ltb, if◌then◌else◌, Bool-cases, All,
}
use tmuxcc_driver.Prelude.Dict.{get, get-set, get-set_self}
use tmuxcc_driver.Runtime.NotifyKind.{
  PaneNotifyKind, bell, osc9, progress, cmd_exit, kind_matches, kind_matches_iff, kind_keyed,
}
use tmuxcc_driver.Runtime.RateLimiter.{
  Budget, budget, Bucket, refill, allow_bucket, PaneNotifyRateLimiter, allow,
}

-- The verdicts on a sequence of signals, each with its time and kind.
unfoldable pub verdicts :
    List (ℕ × PaneNotifyKind) → PaneNotifyRateLimiter → List (PaneNotifyKind × Bool)
verdicts [] limiter = []
verdicts ((now, kind) ∷ signals) limiter =
    let r = allow kind now limiter in (kind, r.1) ∷ verdicts signals r.0

-- The verdicts on one kind, and the times of its signals.
abbrev pub verdicts_on : PaneNotifyKind → List (PaneNotifyKind × Bool) → List Bool
verdicts_on kind [] = []
verdicts_on kind ((k, ok) ∷ rest) =
    let later = verdicts_on kind rest in if kind_matches k kind then ok ∷ later else later

abbrev pub times_of : PaneNotifyKind → List (ℕ × PaneNotifyKind) → List ℕ
times_of kind [] = []
times_of kind ((now, k) ∷ rest) =
    let later = times_of kind rest in if kind_matches k kind then now ∷ later else later

-- One bucket by itself.
unfoldable pub alone : Budget → List ℕ → Option Bucket → List Bool
alone b [] bucket = []
alone b (now ∷ times) bucket = let r = allow_bucket b now bucket in r.1 ∷ alone b times (some r.0)

-- The kinds are isolated: in any sequence of signals of all kinds, the verdicts on one kind are
-- those of a bucket that sees the signals of this kind alone.
pub verdicts_on-verdicts :
    (kind : PaneNotifyKind) (signals : List (ℕ × PaneNotifyKind)) (limiter : PaneNotifyRateLimiter)
    → verdicts_on kind (verdicts signals limiter)
      ≡ alone (budget kind) (times_of kind signals) (get limiter kind)
unfolding verdicts allow alone
verdicts_on-verdicts kind [] limiter = refl
verdicts_on-verdicts kind ((now, k) ∷ signals) limiter =
    let r = allow k now limiter in
    let later = verdicts_on-verdicts kind signals r.0 in
    let after = get-set limiter k kind (allow_bucket (budget k) now (get limiter k)).0 in
    elim (Bool-cases (kind_matches k kind)) [
      | inl same ↦
          let e : k ≡ kind = (kind_matches_iff k kind).0 same in
          rw (same, e)
            (ap (◌∷◌ (allow_bucket (budget kind) now (get limiter kind)).1) (
              verdicts_on-verdicts kind signals (allow kind now limiter).0
              ∙ ap (alone (budget kind) (times_of kind signals)) (
                  get-set_self limiter kind (allow_bucket (budget kind) now (get limiter kind)).0)))
      | inr other ↦ rw other (
          later
          ∙ ap (alone (budget kind) (times_of kind signals)) (
              after
              ∙ ap
                  (λ t.
                    if t
                    then some (allow_bucket (budget k) now (get limiter k)).0
                    else get limiter kind)
                  other))
    ]

abbrev pub granted : List Bool → ℕ
granted [] = 0
granted (true ∷ rest) = suc (granted rest)
granted (false ∷ rest) = granted rest

-- Times that do not run backwards, from a first one on, and the last of them.
abbrev pub IsAscending : ℕ → List ℕ → Type 0
IsAscending from [] = Unit
IsAscending from (now ∷ times) = (from ≤ now) × IsAscending now times

abbrev pub end_of : ℕ → List ℕ → ℕ
end_of from [] = from
end_of from (now ∷ times) = end_of now times

end_of_ge : (from : ℕ) (times : List ℕ) → IsAscending from times → from ≤ end_of from times
end_of_ge from [] h = omega arith
end_of_ge from (now ∷ times) (le, h) = omega (arith, end_of_ge now times h)

-- A refill brings no more than the rate, and stands at the time of the signal.
refill_lem :
    (b : Budget) (now : ℕ) (bucket : Bucket)
    → bucket.last_refill_ms ≤ now
    → ((refill b now bucket).tokens
        ≤ bucket.tokens + (now - bucket.last_refill_ms) * b.rate_per_sec)
      × ((refill b now bucket).last_refill_ms ≡ now)
unfolding refill
refill_lem b now bucket le = elim (Bool-cases (ltb bucket.last_refill_ms now)) [
  | inl later ↦ rw later (omega arith, refl)
  | inr same ↦ rw same (omega arith, ground arith)
]

split_rate : (a b c r : ℕ) → a ≤ b → b ≤ c → (b - a) * r + (c - b) * r ≡ (c - a) * r
split_rate a b c r h k = grind arith

alone-granted :
    (b : Budget) (times : List ℕ) (bucket : Bucket)
    → IsAscending bucket.last_refill_ms times
    → granted (alone b times (some bucket)) * 1000
      ≤ bucket.tokens
        + (end_of bucket.last_refill_ms times - bucket.last_refill_ms) * b.rate_per_sec
unfolding alone allow_bucket
alone-granted b [] bucket h = omega arith
alone-granted b (now ∷ times) bucket (le, h) =
    let full = refill b now bucket in
    let (brings, at) = refill_lem b now bucket le in
    let later : IsAscending full.last_refill_ms times = rw at h in
    let grows = end_of_ge now times h in
    let split = split_rate bucket.last_refill_ms now (end_of now times) b.rate_per_sec le grows in
    elim (Bool-cases (leb 1000 full.tokens)) [
      | inl enough ↦
          let rest = alone-granted b times (record full { tokens = full.tokens - 1000 }) later in
          let rest' : granted (
                  alone b times
                    (some (record { tokens = full.tokens - 1000; last_refill_ms = now })))
                * 1000
              ≤ full.tokens - 1000 + (end_of now times - now) * b.rate_per_sec =
            rw at at rest in
          rw (enough, at) (ground arith)
      | inr empty ↦
          let rest = alone-granted b times full later in
          let same = ap (λ t. (end_of t times - t) * b.rate_per_sec) at in
          rw empty (omega (arith, rest, same, split))
    ]

capacity_some : (kind : PaneNotifyKind) → 1 ≤ (budget kind).capacity
unfolding budget
capacity_some bell = omega arith
capacity_some osc9 = omega arith
capacity_some progress = omega arith
capacity_some cmd_exit = omega arith

alone-new :
    (b : Budget) (now : ℕ) (times : List ℕ)
    → 1 ≤ b.capacity
    → IsAscending now times
    → granted (alone b (now ∷ times) none) * 1000
      ≤ b.capacity * 1000 + (end_of now times - now) * b.rate_per_sec
unfolding alone allow_bucket
alone-new b now times some_yet h =
    let bucket : Bucket = record { tokens = (b.capacity - 1) * 1000; last_refill_ms = now } in
    let rest = alone-granted b times bucket h in omega (arith, rest)

-- From the first signal of a kind to its last, no more of them pass than the burst and what the rate
-- allows in the time between: in thousandths, 1000 for each one passed is at most 1000 times the
-- capacity and the rate for each millisecond. Signals of other kinds may come in between.
pub granted-verdicts :
    (kind : PaneNotifyKind) (signals : List (ℕ × PaneNotifyKind)) (now : ℕ) (times : List ℕ)
    → times_of kind signals ≡ now ∷ times
    → IsAscending now times
    → granted (verdicts_on kind (verdicts signals [])) * 1000
      ≤ (budget kind).capacity * 1000 + (end_of now times - now) * (budget kind).rate_per_sec
unfolding get
granted-verdicts kind signals now times e h =
    rw (verdicts_on-verdicts kind signals [], e)
      (alone-new (budget kind) now times (capacity_some kind) h)

-- Signals far enough apart for the rate to bring a token in between.
abbrev pub IsPaced : ℕ → ℕ → List ℕ → Type 0
IsPaced rate from [] = Unit
IsPaced rate from (now ∷ times) = (1000 ≤ (now - from) * rate) × IsPaced rate now times

abbrev pub AreGranted : List Bool → Type 0
AreGranted = All (λ ok. ok ≡ true)

elapsed_some : (d r : ℕ) → 1000 ≤ d * r → 1 ≤ d
elapsed_some zero r h = absurd (omega arith)
elapsed_some (suc d) r h = omega arith

refill_paced :
    (b : Budget) (now : ℕ) (bucket : Bucket)
    → 1 ≤ b.capacity
    → 1000 ≤ (now - bucket.last_refill_ms) * b.rate_per_sec
    → (1000 ≤ (refill b now bucket).tokens) × ((refill b now bucket).last_refill_ms ≡ now)
unfolding refill
refill_paced b now bucket some_yet brings =
    let some_ms = elapsed_some (now - bucket.last_refill_ms) b.rate_per_sec brings in
    let later : ltb bucket.last_refill_ms now ≡ true = ground arith in rw later (omega arith, refl)

alone-paced :
    (b : Budget) (times : List ℕ) (bucket : Bucket)
    → 1 ≤ b.capacity
    → IsPaced b.rate_per_sec bucket.last_refill_ms times
    → AreGranted (alone b times (some bucket))
unfolding alone allow_bucket
alone-paced b [] bucket some_yet h = tt
alone-paced b (now ∷ times) bucket some_yet (brings, h) =
    let (enough, at) = refill_paced b now bucket some_yet brings in
    let full = refill b now bucket in
    let yes : leb 1000 full.tokens ≡ true = ground arith in
    rw yes
      (refl, alone-paced b times (record full { tokens = full.tokens - 1000 }) some_yet (rw at h))

-- Signals of a kind that are paced at its rate are never dropped, whatever storm of other kinds
-- comes in between.
pub verdicts-paced :
    (kind : PaneNotifyKind) (signals : List (ℕ × PaneNotifyKind)) (now : ℕ) (times : List ℕ)
    → times_of kind signals ≡ now ∷ times
    → IsPaced (budget kind).rate_per_sec now times
    → AreGranted (verdicts_on kind (verdicts signals []))
unfolding get alone allow_bucket
verdicts-paced kind signals now times e h =
    rw (verdicts_on-verdicts kind signals [], e)
      (
        refl,
        alone-paced (budget kind) times
            (record { tokens = ((budget kind).capacity - 1) * 1000; last_refill_ms = now })
            (capacity_some kind) h,
      )
