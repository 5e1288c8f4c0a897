-- ===== src/State/Scrollback/History.antt =====
-- Any history of calls, against the bytes that it wrote.
use Prim.Native.String.{String}
use tmuxcc_driver.Prelude.{
  ℕ, ◌-◌, ◌≡◌, refl, sym, ap, ◌∙◌, inl, inr, some, List, [], ◌∷◌, ◌++◌, arith, Bytes, length, drop,
  length-append, concat, length-drop, drop-append_le, drop-drop, drop-nil, if◌then◌else◌,
  Bool-cases,
}
use tmuxcc_driver.Prelude.Dict
use tmuxcc_driver.Prelude.Keyed.{string_keyed}
use tmuxcc_driver.State.Scrollback.{
  Store, empty_buffer, get_or_create, get_contents, Call, appends, drops, clears, step, run,
}
use tmuxcc_driver.State.Scrollback.Contents.{
  take_last, IsValidStore, held, append-IsValidStore, held-append, get_contents-size,
  empty_buffer-IsValid,
}

-- All that was written to a pane since it was last dropped: the store with no cap.
unfoldable pub written : String → Bytes → List Call → Bytes
written pane before [] = before
written pane before (appends other bytes ∷ cs) =
    written pane (if string_keyed.matches other pane then before ++ bytes else before) cs
written pane before (drops other ∷ cs) =
    written pane (if string_keyed.matches other pane then [] else before) cs
written pane before (clears ∷ cs) = written pane [] cs

-- A cap may be applied before or after more bytes come.
take_last-append :
    (cap_bytes : ℕ) (xs ys : Bytes)
    → take_last cap_bytes (take_last cap_bytes xs ++ ys) ≡ take_last cap_bytes (xs ++ ys)
take_last-append cap_bytes xs ys =
    let over = length xs - cap_bytes in
    let sizes = length-append xs ys in
    let kept : take_last cap_bytes xs ++ ys ≡ drop over (xs ++ ys) =
      sym (drop-append_le over xs ys (omega arith)) in
    rw kept (
      rw (drop-drop (length (drop over (xs ++ ys)) - cap_bytes) over (xs ++ ys))
        (ap (λ k. drop k (xs ++ ys)) (omega (arith, length-drop over (xs ++ ys)))))

get_or_create-delete :
    (buffers : Store) (pane other : String)
    → get_or_create (Dict.delete buffers pane) other
      ≡ (if string_keyed.matches pane other then empty_buffer else get_or_create buffers other)
get_or_create-delete buffers pane other = elim (Bool-cases (string_keyed.matches pane other)) [
  | inl same ↦ rw (Dict.get-delete buffers pane other, same) refl
  | inr apart ↦ rw (Dict.get-delete buffers pane other, apart) refl
]

pub step-IsValidStore :
    (cap_bytes : ℕ) (buffers : Store) (c : Call)
    → IsValidStore cap_bytes buffers
    → IsValidStore cap_bytes (step cap_bytes buffers c)
unfolding step Dict.get
step-IsValidStore cap_bytes buffers (appends pane bytes) v other =
    append-IsValidStore cap_bytes buffers pane bytes v other
step-IsValidStore cap_bytes buffers (drops pane) v other =
    rw (get_or_create-delete buffers pane other)
      (elim (Bool-cases (string_keyed.matches pane other)) [
        | inl same ↦ rw same (empty_buffer-IsValid cap_bytes)
        | inr apart ↦ rw apart (v other)
      ])
step-IsValidStore cap_bytes buffers clears v other = empty_buffer-IsValid cap_bytes

pub run-IsValidStore :
    (cap_bytes : ℕ) (buffers : Store) (cs : List Call)
    → IsValidStore cap_bytes buffers
    → IsValidStore cap_bytes (run cap_bytes buffers cs)
unfolding run
run-IsValidStore cap_bytes buffers [] v = v
run-IsValidStore cap_bytes buffers (c ∷ cs) v =
    run-IsValidStore cap_bytes (step cap_bytes buffers c) cs
      (step-IsValidStore cap_bytes buffers c v)

take_last-nil : (cap_bytes : ℕ) → take_last {A = ℕ} cap_bytes [] ≡ []
take_last-nil cap_bytes = drop-nil (0 - cap_bytes)

held_appended :
    (cap_bytes : ℕ) (buffers : Store) (other pane : String) (bytes before : Bytes)
    → IsValidStore cap_bytes buffers
    → held buffers pane ≡ take_last cap_bytes before
    → held (step cap_bytes buffers (appends other bytes)) pane
      ≡ take_last cap_bytes (if string_keyed.matches other pane then before ++ bytes else before)
unfolding step
held_appended cap_bytes buffers other pane bytes before v h =
    held-append cap_bytes buffers other pane bytes v
    ∙ elim (Bool-cases (string_keyed.matches other pane)) [
      | inl same ↦
          rw same (
            ap (λ xs. take_last cap_bytes (xs ++ bytes)) h
            ∙ take_last-append cap_bytes before bytes)
      | inr apart ↦ rw apart h
    ]

held_dropped :
    (cap_bytes : ℕ) (buffers : Store) (other pane : String) (before : Bytes)
    → held buffers pane ≡ take_last cap_bytes before
    → held (step cap_bytes buffers (drops other)) pane
      ≡ take_last cap_bytes (if string_keyed.matches other pane then [] else before)
unfolding step
held_dropped cap_bytes buffers other pane before h =
    ap (λ b. concat b.chunks) (get_or_create-delete buffers other pane)
    ∙ elim (Bool-cases (string_keyed.matches other pane)) [
      | inl same ↦ rw same (sym (take_last-nil cap_bytes))
      | inr apart ↦ rw apart h
    ]

held-run :
    (cap_bytes : ℕ) (buffers : Store) (cs : List Call) (pane : String) (before : Bytes)
    → IsValidStore cap_bytes buffers
    → held buffers pane ≡ take_last cap_bytes before
    → held (run cap_bytes buffers cs) pane ≡ take_last cap_bytes (written pane before cs)
unfolding run written step Dict.get
held-run cap_bytes buffers [] pane before v h = h
held-run cap_bytes buffers (appends other bytes ∷ cs) pane before v h =
    held-run cap_bytes (step cap_bytes buffers (appends other bytes)) cs pane _
      (step-IsValidStore cap_bytes buffers (appends other bytes) v)
      (held_appended cap_bytes buffers other pane bytes before v h)
held-run cap_bytes buffers (drops other ∷ cs) pane before v h =
    held-run cap_bytes (step cap_bytes buffers (drops other)) cs pane _
      (step-IsValidStore cap_bytes buffers (drops other) v)
      (held_dropped cap_bytes buffers other pane before h)
held-run cap_bytes buffers (clears ∷ cs) pane before v h =
    held-run cap_bytes (step cap_bytes buffers clears) cs pane []
      (step-IsValidStore cap_bytes buffers clears v) (sym (take_last-nil cap_bytes))

pub empty_store-IsValidStore : (cap_bytes : ℕ) → IsValidStore cap_bytes []
unfolding Dict.get
empty_store-IsValidStore cap_bytes pane = empty_buffer-IsValid cap_bytes

-- After any history of appends, drops and clears on a new store, `getContents` returns the last
-- `cap_bytes` of the bytes written to the pane since it was last dropped or the store last cleared.
pub get_contents-run :
    (cap_bytes : ℕ) (cs : List Call) (pane : String)
    → get_contents (run cap_bytes [] cs) pane ≡ some (take_last cap_bytes (written pane [] cs))
unfolding Dict.get
get_contents-run cap_bytes cs pane =
    let valid = empty_store-IsValidStore cap_bytes in
    (get_contents-size cap_bytes (run cap_bytes [] cs) pane
      (run-IsValidStore cap_bytes [] cs valid)).0
    ∙ ap some (held-run cap_bytes [] cs pane [] valid (sym (take_last-nil cap_bytes)))
