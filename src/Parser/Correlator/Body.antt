-- ===== src/Parser/Correlator/Body.antt =====
-- The body that a block's lines are joined into.
use tmuxcc_driver.Prelude.{
  ℕ, ◌+◌, ◌-◌, ◌≡◌, refl, ap, ◌∙◌, some, List, [], ◌∷◌, ◌++◌, append-nil, arith, Bytes, length,
  concat, length-append,
}
use tmuxcc_driver.Prelude.Buffers.{gather-zeros}
use tmuxcc_driver.Parser.Correlator.{InFlight, separated, collect_chunks, collect_body}

-- Lines joined by a newline, with none at the end.
unfoldable pub join_lines : List Bytes → Bytes
join_lines [] = []
join_lines (first ∷ []) = first
join_lines (first ∷ second ∷ rest) = first ++ 0x0a ∷ join_lines (second ∷ rest)

-- The byte counter agrees with the lines.
abbrev pub IsCounted : InFlight → Type 0
IsCounted block = block.body_len ≡ length (concat block.body_chunks)

concat-separated :
    (chunk : Bytes) (chunks : List Bytes)
    → concat (chunk ∷ separated chunks) ≡ join_lines (chunk ∷ chunks)
unfolding join_lines
concat-separated chunk [] = append-nil chunk
concat-separated chunk (next ∷ rest) = ap (λ b. chunk ++ 0x0a ∷ b) (concat-separated next rest)

length-separated :
    (chunks : List Bytes)
    → length (concat (separated chunks)) ≡ length (concat chunks) + length chunks
length-separated [] = refl
length-separated (chunk ∷ chunks) = omega (
  arith,
  length-append chunk (concat chunks),
  length-append chunk (concat (separated chunks)),
  length-separated chunks,
)

collect_chunks_lem :
    (chunks : List Bytes) (total : ℕ)
    → total ≡ length (concat chunks)
    → collect_chunks chunks total ≡ some (join_lines chunks)
unfolding collect_chunks join_lines
collect_chunks_lem [] total h = refl
collect_chunks_lem (chunk ∷ []) total h = refl
collect_chunks_lem (chunk ∷ next ∷ rest) total h =
    gather-zeros (total + length (chunk ∷ next ∷ rest) - 1) (chunk ∷ separated (next ∷ rest)) (
      omega (
        arith,
        length-append chunk (concat (next ∷ rest)),
        length-append chunk (concat (separated (next ∷ rest))),
        length-separated (next ∷ rest),
      ))
    ∙ ap some (concat-separated chunk (next ∷ rest))

-- Collecting never writes past the array, and yields the lines joined by newlines.
pub collect_body_lem :
    (block : InFlight) → IsCounted block → collect_body block ≡ some (join_lines block.body_chunks)
unfolding collect_body
collect_body_lem block counted = collect_chunks_lem block.body_chunks block.body_len counted
