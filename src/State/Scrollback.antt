-- ===== src/State/Scrollback.antt =====
-- packages/driver/src/state/scrollback.ts: the per-pane store of recent output.
-- The closure's `buffers` map is the store; each method takes it and returns the new one.
pub mod Contents
pub mod History
pub mod Tests
use Prim.Native.String.{String}
use tmuxcc_driver.Prelude.{
  ℕ, ◌+◌, ◌-◌, Option, none, some, List, [], ◌∷◌, ◌++◌, Bytes, length, drop, ltb, leb, ◌==◌,
  if◌then◌else◌,
}
use tmuxcc_driver.Prelude.Buffers.{zeros, gather}
use tmuxcc_driver.Prelude.Dict
use tmuxcc_driver.Prelude.Dict.{Dict}
use tmuxcc_driver.Prelude.Keyed.{string_keyed}

pub record PaneBuffer : Type 0 where
  pub chunks : List Bytes
  pub total_bytes : ℕ

abbrev pub Store : Type 0
Store = Dict String PaneBuffer

abbrev pub default_cap_bytes : ℕ
default_cap_bytes = 1_048_576

abbrev pub empty_buffer : PaneBuffer
empty_buffer = record { chunks = []; total_bytes = 0 }

abbrev pub or_empty : Option PaneBuffer → PaneBuffer
or_empty none = empty_buffer
or_empty (some buf) = buf

-- The buffer of a pane; the write that follows in `append` stores a new one.
abbrev pub get_or_create : Store → String → PaneBuffer
get_or_create buffers pane = or_empty (Dict.get buffers pane)

-- The loop of `evict`. After a slice the total is the cap, so the loop's test fails.
pub evict : ℕ → List Bytes → ℕ → PaneBuffer
evict cap_bytes [] total = record { chunks = []; total_bytes = total }
evict cap_bytes (first ∷ rest) total =
    let shifted = evict cap_bytes rest (total - length first) in
    let excess = total - cap_bytes in
    if leb total cap_bytes
    then record { chunks = first ∷ rest; total_bytes = total }
    else if leb (length first) excess
    then shifted
    else record { chunks = drop excess first ∷ rest; total_bytes = total - excess }

push_chunk : ℕ → PaneBuffer → Bytes → PaneBuffer
push_chunk cap_bytes buf bytes =
    let chunks = buf.chunks ++ bytes ∷ [] in
    let total = buf.total_bytes + length bytes in
    if ltb cap_bytes total
    then evict cap_bytes chunks total
    else record { chunks = chunks; total_bytes = total }

unfoldable pub append : ℕ → Store → String → Bytes → Store
unfolding push_chunk evict
append cap_bytes buffers pane bytes =
    if length bytes == 0
    then buffers
    else Dict.set buffers pane (push_chunk cap_bytes (get_or_create buffers pane) bytes)

-- A single chunk is copied, several are gathered into an array of `total_bytes`.
unfoldable pub copy_out : List Bytes → ℕ → Option Bytes
copy_out (only ∷ []) total = gather (zeros (length only)) 0 (only ∷ [])
copy_out chunks total = gather (zeros total) 0 chunks

contents : PaneBuffer → Option Bytes
unfolding copy_out
contents buf = if buf.total_bytes == 0 then some [] else copy_out buf.chunks buf.total_bytes

-- Without a buffer the answers are those of the empty one.
unfoldable pub get_contents : Store → String → Option Bytes
unfolding contents
get_contents buffers pane = contents (get_or_create buffers pane)

unfoldable pub size : Store → String → ℕ
size buffers pane = (get_or_create buffers pane).total_bytes

unfoldable pub drop_pane : Store → String → Store
drop_pane buffers pane = Dict.delete buffers pane

unfoldable pub clear : Store → Store
clear buffers = []

-- The calls that change the store, as values, and a history of them.
pub data Call : Type 0 where
  appends : String → Bytes → Call
  drops : String → Call
  clears : Call

pub step : ℕ → Store → Call → Store
unfolding append drop_pane clear
step cap_bytes buffers (appends pane bytes) = append cap_bytes buffers pane bytes
step cap_bytes buffers (drops pane) = drop_pane buffers pane
step cap_bytes buffers clears = clear buffers

unfoldable pub run : ℕ → Store → List Call → Store
unfolding step
run cap_bytes buffers [] = buffers
run cap_bytes buffers (c ∷ cs) = run cap_bytes (step cap_bytes buffers c) cs
