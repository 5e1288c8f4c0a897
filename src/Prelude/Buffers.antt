-- ===== src/Prelude/Buffers.antt =====
-- `Uint8Array` as the source fills it: `new Uint8Array(n)`, and `TypedArray.set`, which throws a
-- `RangeError` (here `none`) when the written bytes would pass the end.
use Prim.Native.Nat.{ℕ, zero, suc, ◌+◌, ◌≤◌}
use mathlib.Core.Bool.{true}
use mathlib.Core.Path.{◌≡◌, refl, sym, ap, ◌∙◌}
use mathlib.Core.List.{List, [], ◌∷◌, ◌++◌, append_assoc}
use mathlib.Core.Option.{Option, none, some}
use native.Mathlib.Omega.{arith}
use tmuxcc_driver.Prelude.Tests.{leb, if◌then◌else◌}
use tmuxcc_driver.Prelude.Lists.{
  length, take, drop, concat, length-append, length-drop, take-length, drop-append_ge,
}

-- The chain of calls that may throw or find nothing.
infixl 5 ◌>>=◌
abbrev pub ◌>>=◌ {ℓ κ} :
    {Found : Type ℓ} {Next : Type κ} (first : Option Found) (next : Found → Option Next)
    → Option Next
some found >>= next = next found
none >>= next = none

abbrev pub zeros : ℕ → List ℕ
zeros zero = []
zeros (suc n) = 0 ∷ zeros n

pub length-zeros : (n : ℕ) → length (zeros n) ≡ n
length-zeros zero = refl
length-zeros (suc n) = ap suc (length-zeros n)

unfoldable pub blit : List ℕ → ℕ → List ℕ → Option (List ℕ)
blit out offset chunk =
    if leb (offset + length chunk) (length out)
    then some (take offset out ++ (chunk ++ drop (offset + length chunk) out))
    else none

-- The loop `for (const chunk of chunks) { out.set(chunk, offset); offset += chunk.length; }`.
unfoldable pub gather : List ℕ → ℕ → List (List ℕ) → Option (List ℕ)
unfolding blit
gather out offset [] = some out
gather out offset (chunk ∷ chunks) = do
  out' ← blit out offset chunk
  gather out' (offset + length chunk) chunks

-- Behind a written prefix and a chunk the rest is as it was.
drop-behind : (done rest : List ℕ) (n : ℕ) → drop (length done + n) (done ++ rest) ≡ drop n rest
drop-behind done rest n =
    drop-append_ge (length done + n) done rest (omega arith) ∙ ap (λ k. drop k rest) (omega arith)

-- A write that fits replaces just its own range.
pub blit_lem :
    (done rest chunk : List ℕ)
    → length chunk ≤ length rest
    → blit (done ++ rest) (length done) chunk ≡ some ((done ++ chunk) ++ drop (length chunk) rest)
unfolding blit
blit_lem done rest chunk h =
    let fits : leb (length done + length chunk) (length (done ++ rest)) ≡ true =
      ground (arith, length-append done rest) in
    rw fits (
      rw (take-length done rest, drop-behind done rest (length chunk))
        (ap some (sym (append_assoc done chunk (drop (length chunk) rest)))))

-- Chunks that fill the array up to its end are laid out one behind the other.
pub gather_lem :
    (done rest : List ℕ) (chunks : List (List ℕ))
    → length rest ≡ length (concat chunks)
    → gather (done ++ rest) (length done) chunks ≡ some (done ++ concat chunks)
unfolding gather
gather_lem done [] [] h = refl
gather_lem done (x ∷ rest) [] h = absurd (omega arith)
gather_lem done rest (chunk ∷ chunks) h =
    let sizes = length-append chunk (concat chunks) in
    let step = blit_lem done rest chunk (omega arith) in
    let ahead : length (drop (length chunk) rest) ≡ length (concat chunks) =
      omega (arith, length-drop (length chunk) rest) in
    rw (step, ◌>>=◌)
      (rw (← length-append done chunk) (
        gather_lem (done ++ chunk) (drop (length chunk) rest) chunks ahead
        ∙ ap some (append_assoc done chunk (concat chunks))))

-- A fresh array of the chunks' total size ends up holding the chunks in order.
pub gather-zeros :
    (n : ℕ) (chunks : List (List ℕ))
    → n ≡ length (concat chunks)
    → gather (zeros n) 0 chunks ≡ some (concat chunks)
gather-zeros n chunks h = gather_lem [] (zeros n) chunks (length-zeros n ∙ h)
