-- ===== src/Runtime/FlowControl/Accounts.antt =====
-- What each operation does to the bytes owed to each client, and that the ledgers stay well-formed.
use tmuxcc_driver.Prelude.{
  ℕ, ◌+◌, ◌-◌, ◌≤◌, ◌≡◌, refl, ap, ◌∙◌, inl, inr, true, false, not, ◌&&◌, Option, none, some, List,
  [], ◌∷◌, arith, length, ltb, leb, ◌==◌, if◌then◌else◌, Bool-cases, Option-cases, min, ==_iff,
}
use tmuxcc_driver.Prelude.Keyed.{nat_keyed}
use tmuxcc_driver.Prelude.Dict.{Dict, get, set, delete, has, remove, get-set, get-delete}
use tmuxcc_driver.Prelude.Keys.{IsUnique, IsDistinct}
use tmuxcc_driver.Runtime.FlowControl.{
  FlowController, Waters, or_zero, or_empty, inner_for, max_of, max_buffered, credit, clamp, resume,
  delete_everywhere, resume_if_low, resume_all, remove_client, credit_pane, on_pane_bytes, debit,
  note_drained,
}
use tmuxcc_driver.Runtime.FlowControl.Ledger.{max_of_ge, get-credit, get-clamp}

-- The sub-ledger of a pane and a client, and the bytes owed.
abbrev pub entry : FlowController → ℕ → ℕ → Option ℕ
entry fc pane client = get (inner_for fc pane) client

abbrev pub owed : FlowController → ℕ → ℕ → ℕ
owed fc pane client = or_zero (entry fc pane client)

-- Every sub-ledger belongs to a registered client, and none passes the high-water mark.
pub record IsWellFormed (w : Waters) (fc : FlowController) : Type 0 where
  pub unique : (pane : ℕ) → IsUnique (inner_for fc pane)
  pub distinct : IsDistinct fc.clients
  pub within :
      (pane client n : ℕ)
      → entry fc pane client ≡ some n
      → (n ≤ w.high_water) × (has fc.clients client ≡ true)

-- A changed inner map stands at its pane, and at no other.
pub inner_for-set :
    (fc : FlowController) (pane q : ℕ) (inner : Dict ℕ ℕ)
    → inner_for (record fc { buffered = set fc.buffered pane inner }) q
      ≡ (if pane == q then inner else inner_for fc q)
inner_for-set fc pane q inner = ground (arith, get-set fc.buffered pane q inner)

pub inner_for-delete_everywhere :
    (client : ℕ) (buffered : Dict ℕ (Dict ℕ ℕ)) (pane : ℕ)
    → or_empty (get (delete_everywhere client buffered) pane)
      ≡ delete (or_empty (get buffered pane)) client
unfolding delete_everywhere get delete
inner_for-delete_everywhere client [] pane = refl
inner_for-delete_everywhere client ((p, inner) ∷ buffered) pane = elim (Bool-cases (p == pane)) [
  | inl same ↦ rw same refl
  | inr other ↦ rw other (inner_for-delete_everywhere client buffered pane)
]

has-none : (s : List ℕ) (k : ℕ) → (length s == 0) ≡ true → has s k ≡ false
unfolding has
has-none [] k h = refl
has-none (j ∷ s) k h = absurd (ground arith)

module _ (w : Waters) where
  -- Operations that leave the ledgers and the clients alone keep them well-formed.
  pub same_books :
      (fc fc' : FlowController)
      → fc'.buffered ≡ fc.buffered
      → fc'.clients ≡ fc.clients
      → IsWellFormed w fc
      → IsWellFormed w fc'
  same_books fc fc' b c h = record {
    unique = rw b h.unique;
    distinct = rw c h.distinct;
    within = rw (b, c) h.within;
  }

  pub resume_if_low-books :
      (pane : ℕ) (fc : FlowController)
      → ((resume_if_low w pane fc).0.buffered ≡ fc.buffered)
        × ((resume_if_low w pane fc).0.clients ≡ fc.clients)
  resume_if_low-books pane fc =
      elim (Bool-cases (has fc.paused pane && leb (max_buffered fc pane) w.low_water)) [
        | inl low ↦ rw low (refl, refl)
        | inr kept ↦ rw kept (refl, refl)
      ]

  pub resume_all-books :
      (panes : List ℕ) (fc : FlowController)
      → ((resume_all w panes fc).0.buffered ≡ fc.buffered)
        × ((resume_all w panes fc).0.clients ≡ fc.clients)
  unfolding resume_all
  resume_all-books [] fc = (refl, refl)
  resume_all-books (pane ∷ panes) fc =
      elim (Bool-cases (has fc.paused pane && leb (max_buffered fc pane) w.low_water)) [
        | inl low ↦ rw low (resume_all-books panes (resume pane fc).0)
        | inr kept ↦ rw kept (resume_all-books panes fc)
      ]

  owed_le : (fc : FlowController) (q k : ℕ) → IsWellFormed w fc → owed fc q k ≤ w.high_water
  owed_le fc q k h = elim (Option-cases (entry fc q k)) [
    | inl none_yet ↦ rw none_yet (omega arith)
    | inr (n, found) ↦ let (low, _) = h.within q k n found in rw found low
  ]

  -- The value of a sub-ledger after the bytes are fanned in, clamped when they cross the mark.
  abbrev pub credited : FlowController → ℕ → ℕ → Dict ℕ ℕ
  credited fc pane n = credit fc.clients n (inner_for fc pane)

  owed-credited :
      (fc : FlowController) (pane n k : ℕ)
      → IsWellFormed w fc
      → or_zero (get (credited fc pane n) k)
        ≡ (if has fc.clients k then owed fc pane k + n else owed fc pane k)
  owed-credited fc pane n k h =
      ground (arith, get-credit fc.clients n (inner_for fc pane) k h.distinct)

  owed-clamped :
      (fc : FlowController) (pane n k : ℕ)
      → IsWellFormed w fc
      → or_zero (get (clamp fc.clients w.high_water (credited fc pane n)) k)
        ≡ (if has fc.clients k then min w.high_water (owed fc pane k + n) else owed fc pane k)
  owed-clamped fc pane n k h =
      ground (
        arith,
        get-clamp fc.clients w.high_water (credited fc pane n) k,
        owed-credited fc pane n k h,
      )

  owed-under :
      (fc : FlowController) (pane n k : ℕ)
      → IsWellFormed w fc
      → ltb w.high_water (max_of (credited fc pane n)) ≡ false
      → or_zero (get (credited fc pane n) k)
        ≡ (if has fc.clients k then min w.high_water (owed fc pane k + n) else owed fc pane k)
  owed-under fc pane n k h under = elim (Option-cases (get (credited fc pane n) k)) [
    | inl none_yet ↦ ground (arith, owed-credited fc pane n k h)
    | inr (v, found) ↦
        ground (arith, owed-credited fc pane n k h, max_of_ge (credited fc pane n) k v found)
  ]

  owed-credit_pane :
      (fc : FlowController) (pane n q k : ℕ)
      → IsWellFormed w fc
      → owed (credit_pane w pane n fc).0 q k ≡ (
          if (pane == q) && has fc.clients k
          then min w.high_water (owed fc q k + n)
          else owed fc q k)
  owed-credit_pane fc pane n q k h =
      elim (Bool-cases (ltb w.high_water (max_of (credited fc pane n)))) [
        | inl over ↦
            rw (over, inner_for-set fc pane q (clamp fc.clients w.high_water (credited fc pane n)))
              (ground (arith, owed-clamped fc pane n k h))
        | inr under ↦
            rw (under, inner_for-set fc pane q (credited fc pane n))
              (ground (arith, owed-under fc pane n k h under))
      ]

  -- Bytes for a pane that is not paused are owed to every registered client, up to the high-water
  -- mark and no further; for a paused pane nothing is, and no other pane and no unregistered client
  -- is touched.
  pub owed-on_pane_bytes :
      (fc : FlowController) (pane n q k : ℕ)
      → IsWellFormed w fc
      → owed (on_pane_bytes w pane n fc).0 q k ≡ (
          if not (has fc.paused pane) && (pane == q) && has fc.clients k
          then min w.high_water (owed fc q k + n)
          else owed fc q k)
  unfolding on_pane_bytes
  owed-on_pane_bytes fc pane n q k h = elim (Bool-cases (n == 0)) [
    | inl nothing ↦ rw nothing (ground (arith, owed_le fc q k h))
    | inr bytes ↦ elim (Bool-cases (has fc.paused pane)) [
      | inl held ↦ rw (bytes, held) refl
      | inr free ↦ elim (Bool-cases (length fc.clients == 0)) [
        | inl nobody ↦ rw (bytes, free, nobody) (ground (arith, has-none fc.clients k nobody))
        | inr somebody ↦ rw (bytes, free, somebody) (owed-credit_pane fc pane n q k h)
      ]
    ]
  ]

  -- The controller with the debit written, before the resume edge.
  abbrev pub debited : FlowController → ℕ → ℕ → ℕ → FlowController
  debited fc pane client v = record fc {
    buffered = set fc.buffered pane (set (inner_for fc pane) client v);
  }

  pub entry-debited :
      (fc : FlowController) (pane client v q k : ℕ)
      → entry (debited fc pane client v) q k
        ≡ (if (pane == q) && (client == k) then some v else entry fc q k)
  entry-debited fc pane client v q k =
      rw (inner_for-set fc pane q (set (inner_for fc pane) client v))
        (ground (arith, get-set (inner_for fc pane) client k v))

  entry-debit :
      (fc : FlowController) (pane n client prev q k : ℕ)
      → entry (debit w pane n client prev fc).0 q k
        ≡ (if (pane == q) && (client == k) then some (prev - n) else entry fc q k)
  entry-debit fc pane n client prev q k =
      let (books, _) = resume_if_low-books pane (debited fc pane client (prev - n)) in
      ap (λ b. get (or_empty (get b q)) k) books ∙ entry-debited fc pane client (prev - n) q k

  -- Where the hook does not throw, a drain credit debits the sub-ledger of its client in its pane by its bytes, down to 0, and no
  -- other; one for a sub-ledger that is not there debits nothing.
  pub owed-note_drained :
      (fc : FlowController) (pane n client q k : ℕ)
      → w.clamp_throws ≡ false
      → owed (note_drained w pane n client fc).0 q k
        ≡ (if (pane == q) && (client == k) then owed fc q k - n else owed fc q k)
  unfolding note_drained
  owed-note_drained fc pane n client q k quiet = elim (Bool-cases (n == 0)) [
    | inl nothing ↦ rw nothing (ground arith)
    | inr bytes ↦ elim (Option-cases (get (inner_for fc pane) client)) [
      | inl unknown ↦ rw (bytes, unknown) (ground arith)
      | inr (prev, found) ↦ elim (Bool-cases (w.clamp_throws && ltb prev n)) [
        | inl throws ↦ rw (bytes, found, throws) (absurd (ground (arith, quiet, throws)))
        | inr returns ↦
            rw (bytes, found, returns, entry-debit fc pane n client prev q k) (ground arith)
      ]
    ]
  ]

  -- The controller without a client, before the resume edges.
  abbrev pub without : FlowController → ℕ → FlowController
  without fc client = record fc {
    buffered = delete_everywhere client fc.buffered;
    clients = remove fc.clients client;
  }

  pub entry-without :
      (fc : FlowController) (client q k : ℕ)
      → entry (without fc client) q k ≡ (if client == k then none else entry fc q k)
  entry-without fc client q k =
      rw (inner_for-delete_everywhere client fc.buffered q, get-delete (inner_for fc q) client k)
        refl

  entry-left :
      (fc : FlowController) (client q k : ℕ)
      → entry (resume_all w fc.paused (without fc client)).0 q k
        ≡ (if client == k then none else entry fc q k)
  entry-left fc client q k =
      let (books, _) = resume_all-books fc.paused (without fc client) in
      ap (λ b. get (or_empty (get b q)) k) books ∙ entry-without fc client q k

  stranger-owed :
      (fc : FlowController) (client q : ℕ)
      → IsWellFormed w fc
      → has fc.clients client ≡ false
      → entry fc q client ≡ none
  stranger-owed fc client q h unknown = elim (Option-cases (entry fc q client)) [
    | inl none_yet ↦ none_yet
    | inr (n, found) ↦ let (_, known) = h.within q client n found in absurd (cc (known, unknown))
  ]

  -- A client that leaves is owed nothing more, and what the others are owed stays.
  pub owed-remove_client :
      (fc : FlowController) (client q k : ℕ)
      → IsWellFormed w fc
      → owed (remove_client w client fc).0 q k ≡ (if client == k then 0 else owed fc q k)
  unfolding remove_client
  owed-remove_client fc client q k h = elim (Bool-cases (has fc.clients client)) [
    | inl known ↦ rw (known, entry-left fc client q k) (ground arith)
    | inr unknown ↦
        rw unknown (ground (arith, stranger-owed fc client q h unknown, ==_iff client k))
  ]
