-- ===== src/Runtime/FlowControl/Books.antt =====
-- No operation breaks the books: every sub-ledger stays within the high-water mark and belongs to a
-- registered client.
use tmuxcc_driver.Prelude.{
  ℕ, ◌+◌, ◌-◌, ◌≤◌, ◌≡◌, sym, ap, ◌∙◌, inl, inr, true, false, none, some, arith, ltb, ◌==◌,
  if◌then◌else◌, Bool-cases, Option-cases,
}
use tmuxcc_driver.Prelude.Keyed.{nat_keyed}
use tmuxcc_driver.Prelude.Dict.{Dict, get, set, has, remove, get-set, has-add, has-remove}
use tmuxcc_driver.Prelude.Keys.{
  IsUnique, set-IsUnique, delete-IsUnique, add-IsDistinct, remove-IsDistinct,
}
use tmuxcc_driver.Runtime.FlowControl.{
  FlowController, Waters, or_zero, inner_for, max_of, clamp, add_client,
}
use tmuxcc_driver.Runtime.FlowControl.Ledger.{
  max_of_ge, credit-IsUnique, get-credit, clamp-IsUnique, get-clamp,
}
use tmuxcc_driver.Runtime.FlowControl.Accounts.{
  entry, IsWellFormed, inner_for-set, inner_for-delete_everywhere, credited, debited, without,
  entry-without,
}

module _ (w : Waters) where
  pub add_client-IsWellFormed :
      (fc : FlowController) (client : ℕ)
      → IsWellFormed w fc
      → IsWellFormed w (add_client client fc).0
  unfolding add_client
  add_client-IsWellFormed fc client h = record {
    unique = h.unique;
    distinct = add-IsDistinct fc.clients client h.distinct;
    within = λ q k n found.
        let (low, known) = h.within q k n found in
        (low, rw (has-add fc.clients client k) (ground arith));
  }

  -- An entry that is left when a client goes.
  left_within :
      (fc : FlowController) (client q k n : ℕ)
      → IsWellFormed w fc
      → entry (without w fc client) q k ≡ some n
      → (n ≤ w.high_water) × (has (remove fc.clients client) k ≡ true)
  left_within fc client q k n h found = elim (Bool-cases (client == k)) [
    | inl gone ↦
        let e : none ≡ some n = rw (entry-without w fc client q k, gone) at found in absurd (cc e)
    | inr stays ↦
        let e : entry fc q k ≡ some n = rw (entry-without w fc client q k, stays) at found in
        let (low, known) = h.within q k n e in
        (
          low,
          has-remove fc.clients client k
              ∙ ap (λ b. if b then false else has fc.clients k) stays
              ∙ known,
        )
  ]

  pub without-IsWellFormed :
      (fc : FlowController) (client : ℕ) → IsWellFormed w fc → IsWellFormed w (without w fc client)
  without-IsWellFormed fc client h = record {
    unique = λ q.
        rw (inner_for-delete_everywhere client fc.buffered q)
          (delete-IsUnique (inner_for fc q) client (h.unique q));
    distinct = remove-IsDistinct fc.clients client h.distinct;
    within = λ q k n found. left_within fc client q k n h found;
  }

  -- A new inner map for a pane, when it keeps to the mark and to the registered clients.
  set_inner-IsWellFormed :
      (fc : FlowController) (pane : ℕ) (inner : Dict ℕ ℕ)
      → IsWellFormed w fc
      → IsUnique inner
      → ((k n : ℕ) → get inner k ≡ some n → (n ≤ w.high_water) × (has fc.clients k ≡ true))
      → IsWellFormed w (record fc { buffered = set fc.buffered pane inner })
  set_inner-IsWellFormed fc pane inner h u new = record {
    unique = λ q. rw (inner_for-set fc pane q inner) (elim (Bool-cases (pane == q)) [
      | inl here ↦ rw here u
      | inr there ↦ rw there (h.unique q)
    ]);
    distinct = h.distinct;
    within = λ q k n found. elim (Bool-cases (pane == q)) [
      | inl here ↦ new k n (rw (inner_for-set fc pane q inner, here) at found)
      | inr there ↦ h.within q k n (rw (inner_for-set fc pane q inner, there) at found)
    ];
  }

  -- Only a registered client is credited, and every other entry was there.
  credited-known :
      (fc : FlowController) (pane n k v : ℕ)
      → IsWellFormed w fc
      → get (credited w fc pane n) k ≡ some v
      → has fc.clients k ≡ true
  credited-known fc pane n k v h found = elim (Bool-cases (has fc.clients k)) [
    | inl known ↦ known
    | inr unknown ↦
        let e : entry fc pane k ≡ some v =
          ap (λ b. if b then some (or_zero (entry fc pane k) + n) else entry fc pane k)
            (sym unknown)
          ∙ sym (get-credit fc.clients n (inner_for fc pane) k h.distinct)
          ∙ found in
        (h.within pane k v e).1
  ]

  pub credited-IsWellFormed :
      (fc : FlowController) (pane n : ℕ)
      → IsWellFormed w fc
      → ltb w.high_water (max_of (credited w fc pane n)) ≡ false
      → IsWellFormed w (record fc { buffered = set fc.buffered pane (credited w fc pane n) })
  credited-IsWellFormed fc pane n h under =
      set_inner-IsWellFormed fc pane (credited w fc pane n) h
        (credit-IsUnique fc.clients n (inner_for fc pane) (h.unique pane))
        (λ k v found.
          let le = max_of_ge (credited w fc pane n) k v found in
          (ground arith, credited-known fc pane n k v h found))

  clamped_within :
      (fc : FlowController) (pane n k v : ℕ)
      → IsWellFormed w fc
      → get (clamp fc.clients w.high_water (credited w fc pane n)) k ≡ some v
      → (v ≤ w.high_water) × (has fc.clients k ≡ true)
  clamped_within fc pane n k v h found = elim (Option-cases (get (credited w fc pane n) k)) [
    | inl none_yet ↦ absurd (
        ground (arith, get-clamp fc.clients w.high_water (credited w fc pane n) k, found, none_yet))
    | inr (old, was) ↦
        let known = credited-known fc pane n k old h was in
        (
          ground (
            arith,
            get-clamp fc.clients w.high_water (credited w fc pane n) k,
            found,
            was,
            known,
          ),
          known,
        )
  ]

  pub clamped-IsWellFormed :
      (fc : FlowController) (pane n : ℕ)
      → IsWellFormed w fc
      → IsWellFormed w (record fc {
        buffered = set fc.buffered pane (clamp fc.clients w.high_water (credited w fc pane n));
      })
  clamped-IsWellFormed fc pane n h =
      set_inner-IsWellFormed fc pane (clamp fc.clients w.high_water (credited w fc pane n)) h
        (clamp-IsUnique fc.clients w.high_water (credited w fc pane n)
          (credit-IsUnique fc.clients n (inner_for fc pane) (h.unique pane)))
        (λ k v found. clamped_within fc pane n k v h found)

  debited_within :
      (fc : FlowController) (pane n client prev k v : ℕ)
      → IsWellFormed w fc
      → entry fc pane client ≡ some prev
      → get (set (inner_for fc pane) client (prev - n)) k ≡ some v
      → (v ≤ w.high_water) × (has fc.clients k ≡ true)
  debited_within fc pane n client prev k v h was found = elim (Bool-cases (client == k)) [
    | inl same ↦
        let e : some (prev - n) ≡ some v =
          rw (get-set (inner_for fc pane) client k (prev - n), same) at found in
        let (low, known) = h.within pane client prev was in
        let k_is : client ≡ k = ground arith in (ground arith, rw k_is at known)
    | inr other ↦
        h.within pane k v (rw (get-set (inner_for fc pane) client k (prev - n), other) at found)
  ]

  pub debited-IsWellFormed :
      (fc : FlowController) (pane n client prev : ℕ)
      → IsWellFormed w fc
      → entry fc pane client ≡ some prev
      → IsWellFormed w (debited w fc pane client (prev - n))
  debited-IsWellFormed fc pane n client prev h was =
      set_inner-IsWellFormed fc pane (set (inner_for fc pane) client (prev - n)) h
        (set-IsUnique (inner_for fc pane) client (prev - n) (h.unique pane))
        (λ k v found. debited_within fc pane n client prev k v h was found)
