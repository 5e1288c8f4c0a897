-- ===== src/Runtime/FlowControl/Ledger.antt =====
-- The sub-ledgers of one pane: what the loops over the clients do to each entry.
use tmuxcc_driver.Prelude.{
  ℕ, ◌+◌, ◌≤◌, ◌<◌, ◌≡◌, refl, inl, inr, ◌&&◌, some, List, [], ◌∷◌, arith, ltb, leb, ◌==◌,
  if◌then◌else◌, Bool-cases, ==_iff,
}
use tmuxcc_driver.Prelude.Keyed.{nat_keyed}
use tmuxcc_driver.Prelude.Dict.{Dict, get, set, has, get-set}
use tmuxcc_driver.Prelude.Keys.{IsUnique, set-IsUnique, IsDistinct}
use tmuxcc_driver.Runtime.FlowControl.{or_zero, max_of, credit, clamp}

pub max_of_ge : (d : Dict ℕ ℕ) (k v : ℕ) → get d k ≡ some v → v ≤ max_of d
unfolding get max_of
max_of_ge [] k v h = absurd (cc h)
max_of_ge ((j, w) ∷ d) k v h = elim (Bool-cases (j == k)) [
  | inl same ↦ let e : some w ≡ some v = rw same at h in ground arith
  | inr other ↦ let e : get d k ≡ some v = rw other at h in omega (arith, max_of_ge d k v e)
]

pub max_of_le :
    (d : Dict ℕ ℕ) (n : ℕ) → IsUnique d → ((k v : ℕ) → get d k ≡ some v → v ≤ n) → max_of d ≤ n
unfolding get max_of
max_of_le [] n u h = omega arith
max_of_le ((j, w) ∷ d) n (new, u) h =
    let first : w ≤ n = h j w (ground arith) in
    let rest = max_of_le d n u (λ k v e. h k v (ground (arith, ==_iff j k))) in omega arith

-- Raising an entry to a mark that the maximum reaches keeps it reached.
pub max_of-set_ge : (d : Dict ℕ ℕ) (k n : ℕ) → n ≤ max_of d → n ≤ max_of (set d k n)
unfolding set max_of
max_of-set_ge [] k n h = omega arith
max_of-set_ge ((j, w) ∷ d) k n h = elim (Bool-cases (j == k)) [
  | inl same ↦ rw same (omega arith)
  | inr other ↦ rw other (elim (Bool-cases (leb n w)) [
    | inl low ↦ let le : n ≤ w = ground arith in omega arith
    | inr high ↦ let gt : w < n = ground arith in omega (arith, max_of-set_ge d k n (omega arith))
  ])
]

pub credit-IsUnique : (ks : List ℕ) (n : ℕ) (d : Dict ℕ ℕ) → IsUnique d → IsUnique (credit ks n d)
unfolding credit
credit-IsUnique [] n d h = h
credit-IsUnique (k ∷ ks) n d h =
    credit-IsUnique ks n (set d k (or_zero (get d k) + n)) (set-IsUnique d k _ h)

pub get-credit :
    (ks : List ℕ) (n : ℕ) (d : Dict ℕ ℕ) (k : ℕ)
    → IsDistinct ks
    → get (credit ks n d) k ≡ (if has ks k then some (or_zero (get d k) + n) else get d k)
unfolding credit has
get-credit [] n d k h = refl
get-credit (j ∷ ks) n d k (new, h) =
    let step = get-set d j k (or_zero (get d j) + n) in
    ground (arith, get-credit ks n (set d j (or_zero (get d j) + n)) k h, step)

pub clamp-IsUnique : (ks : List ℕ) (n : ℕ) (d : Dict ℕ ℕ) → IsUnique d → IsUnique (clamp ks n d)
unfolding clamp
clamp-IsUnique [] n d h = h
clamp-IsUnique (k ∷ ks) n d h = elim (Bool-cases (ltb n (or_zero (get d k)))) [
  | inl over ↦ rw over (clamp-IsUnique ks n (set d k n) (set-IsUnique d k n h))
  | inr under ↦ rw under (clamp-IsUnique ks n d h)
]

pub get-clamp :
    (ks : List ℕ) (n : ℕ) (d : Dict ℕ ℕ) (k : ℕ)
    → get (clamp ks n d) k ≡ (if has ks k && ltb n (or_zero (get d k)) then some n else get d k)
unfolding clamp has
get-clamp [] n d k = refl
get-clamp (j ∷ ks) n d k = elim (Bool-cases (ltb n (or_zero (get d j)))) [
  | inl over ↦ rw over (ground (arith, get-clamp ks n (set d j n) k, get-set d j k n, ==_iff j k))
  | inr under ↦ rw under (ground (arith, get-clamp ks n d k, ==_iff j k))
]

pub max_of-clamp : (ks : List ℕ) (n : ℕ) (d : Dict ℕ ℕ) → n ≤ max_of d → n ≤ max_of (clamp ks n d)
unfolding clamp
max_of-clamp [] n d h = h
max_of-clamp (k ∷ ks) n d h = elim (Bool-cases (ltb n (or_zero (get d k)))) [
  | inl over ↦ rw over (max_of-clamp ks n (set d k n) (max_of-set_ge d k n h))
  | inr under ↦ rw under (max_of-clamp ks n d h)
]
