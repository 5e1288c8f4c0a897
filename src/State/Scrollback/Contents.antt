-- ===== src/State/Scrollback/Contents.antt =====
-- What a pane's buffer holds: the newest bytes of all that was appended, up to the cap.
use Prim.Native.String.{String}
use tmuxcc_driver.Prelude.{
  ℕ, ◌+◌, ◌-◌, ◌≤◌, ◌≡◌, refl, sym, ap, ◌∙◌, inl, inr, some, List, [], ◌∷◌, ◌++◌, append_assoc,
  append-nil, arith, Bytes, length, drop, concat, length-append, length-drop, drop-append_le,
  drop-append_ge, ltb, leb, ◌==◌, if◌then◌else◌, Bool-cases,
}
use tmuxcc_driver.Prelude.Buffers.{gather-zeros}
use tmuxcc_driver.Prelude.Dict
use tmuxcc_driver.Prelude.Keyed.{string_keyed}
use tmuxcc_driver.State.Scrollback.{
  PaneBuffer, Store, empty_buffer, get_or_create, evict, push_chunk, append, copy_out, contents,
  get_contents, size,
}

-- The last `n` elements of a list.
abbrev pub take_last {ℓ} : {A : Type ℓ} → ℕ → List A → List A
take_last n xs = drop (length xs - n) xs

-- The counter agrees with the chunks, and the cap is kept.
pub record IsValid (cap_bytes : ℕ) (buf : PaneBuffer) : Type 0 where
  pub counted : buf.total_bytes ≡ length (concat buf.chunks)
  pub capped : buf.total_bytes ≤ cap_bytes

abbrev pub IsValidStore : ℕ → Store → Type 0
IsValidStore cap_bytes buffers = (pane : String) → IsValid cap_bytes (get_or_create buffers pane)

-- The bytes that a pane's buffer stands for.
abbrev pub held : Store → String → Bytes
held buffers pane = concat (get_or_create buffers pane).chunks

drop-all_fit : (n : ℕ) (xs : Bytes) → n ≡ 0 → drop n xs ≡ xs
drop-all_fit n xs h = ap (λ k. drop k xs) h

evict-concat :
    (cap_bytes : ℕ) (chunks : List Bytes) (total : ℕ)
    → total ≡ length (concat chunks)
    → concat (evict cap_bytes chunks total).chunks ≡ take_last cap_bytes (concat chunks)
unfolding evict
evict-concat cap_bytes [] total h = sym (drop-all_fit (0 - cap_bytes) [] (omega arith))
evict-concat cap_bytes (first ∷ rest) total h =
    let sizes = length-append first (concat rest) in
    elim (Bool-cases (leb total cap_bytes)) [
      | inl fits ↦ rw fits (sym (drop-all_fit _ (first ++ concat rest) (ground arith)))
      | inr over ↦ elim (Bool-cases (leb (length first) (total - cap_bytes))) [
        | inl whole ↦
            let same : length (first ++ concat rest) - cap_bytes - length first
                ≡ length (concat rest) - cap_bytes =
              omega arith in
            rw (over, whole)
              (evict-concat cap_bytes rest (total - length first) (omega arith)
                ∙ sym (
                    drop-append_ge _ first (concat rest) (ground arith)
                    ∙ ap (λ k. drop k (concat rest)) same))
        | inr inside ↦
            rw (over, inside, ← h)
              (sym (drop-append_le (total - cap_bytes) first (concat rest) (ground arith)))
      ]
    ]

evict-IsValid :
    (cap_bytes : ℕ) (chunks : List Bytes) (total : ℕ)
    → total ≡ length (concat chunks)
    → IsValid cap_bytes (evict cap_bytes chunks total)
unfolding evict
evict-IsValid cap_bytes [] total h = record { counted = h; capped = omega arith }
evict-IsValid cap_bytes (first ∷ rest) total h = ground (
  arith,
  length-append first (concat rest),
  length-append (drop (total - cap_bytes) first) (concat rest),
  length-drop (total - cap_bytes) first,
  evict-IsValid cap_bytes rest (total - length first),
)

concat-snoc : (chunks : List Bytes) (c : Bytes) → concat (chunks ++ c ∷ []) ≡ concat chunks ++ c
concat-snoc [] c = append-nil c
concat-snoc (d ∷ ds) c = ap (◌++◌ d) (concat-snoc ds c) ∙ sym (append_assoc d (concat ds) c)

push_chunk-IsValid :
    (cap_bytes : ℕ) (buf : PaneBuffer) (bytes : Bytes)
    → IsValid cap_bytes buf
    → IsValid cap_bytes (push_chunk cap_bytes buf bytes)
unfolding push_chunk
push_chunk-IsValid cap_bytes buf bytes v = ground (
  arith,
  evict-IsValid cap_bytes (buf.chunks ++ bytes ∷ []) (buf.total_bytes + length bytes),
  ap length (concat-snoc buf.chunks bytes),
  length-append (concat buf.chunks) bytes,
)

push_chunk-concat :
    (cap_bytes : ℕ) (buf : PaneBuffer) (bytes : Bytes)
    → IsValid cap_bytes buf
    → concat (push_chunk cap_bytes buf bytes).chunks
      ≡ take_last cap_bytes (concat buf.chunks ++ bytes)
unfolding push_chunk
push_chunk-concat cap_bytes buf bytes v =
    let snoc = concat-snoc buf.chunks bytes in
    let sizes = length-append (concat buf.chunks) bytes in
    let total : buf.total_bytes + length bytes ≡ length (concat (buf.chunks ++ bytes ∷ [])) =
      omega (arith, ap length snoc) in
    elim (Bool-cases (ltb cap_bytes (buf.total_bytes + length bytes))) [
      | inl over ↦ rw over (
          evict-concat cap_bytes (buf.chunks ++ bytes ∷ []) _ total ∙ ap (take_last cap_bytes) snoc)
      | inr fits ↦ rw fits (snoc ∙ sym (drop-all_fit _ (concat buf.chunks ++ bytes) (ground arith)))
    ]

get_or_create-set :
    (buffers : Store) (pane other : String) (buf : PaneBuffer)
    → get_or_create (Dict.set buffers pane buf) other
      ≡ (if string_keyed.matches pane other then buf else get_or_create buffers other)
get_or_create-set buffers pane other buf = elim (Bool-cases (string_keyed.matches pane other)) [
  | inl same ↦ rw (Dict.get-set buffers pane other buf, same) refl
  | inr apart ↦ rw (Dict.get-set buffers pane other buf, apart) refl
]

pub empty_buffer-IsValid : (cap_bytes : ℕ) → IsValid cap_bytes empty_buffer
empty_buffer-IsValid cap_bytes = record { counted = refl; capped = omega arith }

-- An append keeps every pane's byte counter equal to the bytes held and every pane within the cap.
pub append-IsValidStore :
    (cap_bytes : ℕ) (buffers : Store) (pane : String) (bytes : Bytes)
    → IsValidStore cap_bytes buffers
    → IsValidStore cap_bytes (append cap_bytes buffers pane bytes)
unfolding append
append-IsValidStore cap_bytes buffers pane bytes v other = elim (Bool-cases (length bytes == 0)) [
  | inl nothing ↦ rw nothing (v other)
  | inr some_bytes ↦
      rw (some_bytes, get_or_create-set buffers pane other _)
        (elim (Bool-cases (string_keyed.matches pane other)) [
          | inl same ↦ rw same (push_chunk-IsValid cap_bytes _ bytes (v pane))
          | inr apart ↦ rw apart (v other)
        ])
]

nil-of_length : (xs : Bytes) → length xs ≡ 0 → xs ≡ []
nil-of_length [] h = refl
nil-of_length (x ∷ xs) h = absurd (omega arith)

held_unchanged :
    (cap_bytes : ℕ) (buffers : Store) (pane other : String) (bytes : Bytes)
    → IsValidStore cap_bytes buffers
    → length bytes ≡ 0
    → held buffers other ≡ (
        if string_keyed.matches pane other
        then take_last cap_bytes (held buffers other ++ bytes)
        else held buffers other)
held_unchanged cap_bytes buffers pane other bytes v h =
    let valid = v other in
    rw (nil-of_length bytes h, append-nil (held buffers other))
      (ground (arith, drop-all_fit (length (held buffers other) - cap_bytes) (held buffers other)))

held_pushed :
    (cap_bytes : ℕ) (buffers : Store) (pane other : String) (bytes : Bytes)
    → IsValidStore cap_bytes buffers
    → concat
        (if string_keyed.matches pane other
          then push_chunk cap_bytes (get_or_create buffers pane) bytes
          else get_or_create buffers other).chunks
      ≡ (if string_keyed.matches pane other
          then take_last cap_bytes (held buffers other ++ bytes)
          else held buffers other)
held_pushed cap_bytes buffers pane other bytes v = ground (
  arith,
  string_keyed.matches_iff pane other,
  push_chunk-concat cap_bytes (get_or_create buffers pane) bytes (v pane),
)

-- After an append to a pane of a valid store the pane holds the last `cap_bytes` bytes of what it held
-- followed by the new bytes, and every other pane holds what it held.
pub held-append :
    (cap_bytes : ℕ) (buffers : Store) (pane other : String) (bytes : Bytes)
    → IsValidStore cap_bytes buffers
    → held (append cap_bytes buffers pane bytes) other ≡ (
        if string_keyed.matches pane other
        then take_last cap_bytes (held buffers other ++ bytes)
        else held buffers other)
unfolding append
held-append cap_bytes buffers pane other bytes v = elim (Bool-cases (length bytes == 0)) [
  | inl nothing ↦ rw nothing (held_unchanged cap_bytes buffers pane other bytes v (ground arith))
  | inr some_bytes ↦ rw some_bytes (
      ap (λ b. concat b.chunks) (get_or_create-set buffers pane other _)
      ∙ held_pushed cap_bytes buffers pane other bytes v)
]

copy_out_lem :
    (chunks : List Bytes) (total : ℕ)
    → total ≡ length (concat chunks)
    → copy_out chunks total ≡ some (concat chunks)
unfolding copy_out
copy_out_lem (only ∷ []) total h =
    gather-zeros (length only) (only ∷ []) (ap length (sym (append-nil only)))
copy_out_lem [] total h = gather-zeros total [] h
copy_out_lem (c ∷ d ∷ ds) total h = gather-zeros total (c ∷ d ∷ ds) h

-- On a valid store `getContents` never writes past its array, and returns exactly the bytes held;
-- `size` is their number.
pub get_contents-size :
    (cap_bytes : ℕ) (buffers : Store) (pane : String)
    → IsValidStore cap_bytes buffers
    → (get_contents buffers pane ≡ some (held buffers pane))
      × (size buffers pane ≡ length (held buffers pane))
unfolding get_contents size contents
get_contents-size cap_bytes buffers pane v =
    let buf = get_or_create buffers pane in
    let valid = v pane in
    (
      ground (
        arith,
        copy_out_lem buf.chunks buf.total_bytes valid.counted,
        nil-of_length (concat buf.chunks),
      ),
      valid.counted,
    )
