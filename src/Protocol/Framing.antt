-- ===== src/Protocol/Framing.antt =====
-- packages/protocol/src/framing.ts: the binary frames of the data plane.
-- A `RangeError` is a value; a slice of an array is the list of its bytes.
pub mod Stream
pub mod Chunks
pub mod Push
pub mod RoundTrip
pub mod Cuts
pub mod Tests
use tmuxcc_driver.Prelude.{
  ℕ, zero, suc, ◌+◌, ◌-◌, ◌*◌, ◌/◌, ◌%◌, ◌^◌, Bool, not, Option, none, some, List, [], ◌∷◌, ◌++◌,
  Bytes, length, take, drop, ltb, leb, ◌==◌, if◌then◌else◌,
}
use tmuxcc_driver.Prelude.Buffers.{zeros}
use tmuxcc_driver.Protocol.Utf8.{Text, encode, decode}

abbrev pub frame_magic : ℕ
frame_magic = 0xcc

abbrev pub off_paneid : ℕ
off_paneid = 11

abbrev pub min_header_bytes : ℕ
min_header_bytes = 11

abbrev pub max_frame : ℕ
max_frame = 8_388_608

pub record DataFrame : Type 0 where
  pub pane_id : Text
  pub seq : ℕ
  pub payload : Bytes

pub data FrameError : Type 0 where
  id_too_long payload_too_long : FrameError
  bad_magic oversized : ℕ → FrameError
  too_short : (got expected : ℕ) → FrameError

-- `DataView.setUint32` and `setUint16`, big-endian, and the getters.
abbrev pub uint32 : ℕ → Bytes
uint32 n = (n / 2 ^ 24 % 256) ∷ (n / 2 ^ 16 % 256) ∷ (n / 2 ^ 8 % 256) ∷ (n % 256) ∷ []

abbrev pub uint16 : ℕ → Bytes
uint16 n = (n / 2 ^ 8 % 256) ∷ (n % 256) ∷ []

abbrev pub get_uint32 : ℕ → ℕ → ℕ → ℕ → ℕ
get_uint32 a b c d = a * 2 ^ 24 + b * 2 ^ 16 + c * 2 ^ 8 + d

abbrev pub get_uint16 : ℕ → ℕ → ℕ
get_uint16 a b = a * 2 ^ 8 + b

pub data Encoded : Type 0 where
  frame : Bytes → Encoded
  refused : FrameError → Encoded

-- The writes of `encodeFrame` are adjacent and fill its array. `seq >>> 0` is `seq % 2 ^ 32`.
abbrev pub frame_bytes : Bytes → ℕ → Bytes → Bytes
frame_bytes id_bytes seq payload =
    frame_magic
    ∷ (uint32 (seq % 2 ^ 32)
        ++ (uint32 (length payload % 2 ^ 32)
            ++ (uint16 (length id_bytes) ++ (id_bytes ++ payload))))

unfoldable pub encode_frame : Text → ℕ → Bytes → Encoded
encode_frame id seq payload =
    let id_bytes = encode id in
    if ltb 0xffff (length id_bytes)
    then refused id_too_long
    else if ltb 0xffff_ffff (length payload)
    then refused payload_too_long
    else frame (frame_bytes id_bytes seq payload)

-- What the views of a header read.
pub record Header : Type 0 where
  pub magic : ℕ
  pub seq : ℕ
  pub pay_len : ℕ
  pub id_len : ℕ

unfoldable pub header : Bytes → Option Header
header (m ∷ s0 ∷ s1 ∷ s2 ∷ s3 ∷ p0 ∷ p1 ∷ p2 ∷ p3 ∷ i0 ∷ i1 ∷ _) = some (record {
  magic = m;
  seq = get_uint32 s0 s1 s2 s3;
  pay_len = get_uint32 p0 p1 p2 p3;
  id_len = get_uint16 i0 i1;
})
header _ = none

-- The frame that a header announces, from the bytes of the whole frame.
abbrev pub frame_of : Header → Bytes → DataFrame
frame_of h bytes = record {
  pane_id = decode (take h.id_len (drop off_paneid bytes));
  seq = h.seq;
  payload = take h.pay_len (drop (off_paneid + h.id_len) bytes);
}

abbrev pub frame_length : Header → ℕ
frame_length h = min_header_bytes + h.id_len + h.pay_len

-- The `FrameDecoder` object.
pub record FrameDecoder : Type 0 where
  pub chunks : List Bytes
  pub buffered_len : ℕ

abbrev pub new_decoder : FrameDecoder
new_decoder = record { chunks = []; buffered_len = 0 }

-- The copying loop of `_peekBytes`: what is not written of the new array stays zero.
unfoldable pub peek_slow : ℕ → List Bytes → Bytes
peek_slow needed [] = zeros needed
peek_slow needed (chunk ∷ chunks) =
    let rest = peek_slow (needed - length chunk) chunks in
    if needed == 0
    then []
    else if leb (length chunk) needed
    then chunk ++ rest
    else take needed chunk

unfoldable pub peek_bytes : ℕ → List Bytes → Bytes
peek_bytes n [] = peek_slow n []
peek_bytes n (first ∷ rest) =
    if leb n (length first) then take n first else peek_slow n (first ∷ rest)

-- The loop of `_consumeBytes`: the bytes taken, and the chunks left.
unfoldable pub consume_slow : ℕ → List Bytes → Bytes × List Bytes
consume_slow needed [] = (zeros needed, [])
consume_slow needed (chunk ∷ chunks) =
    let rest = consume_slow (needed - length chunk) chunks in
    if needed == 0
    then ([], chunk ∷ chunks)
    else if leb (length chunk) needed
    then (chunk ++ rest.0, rest.1)
    else (take needed chunk, drop needed chunk ∷ chunks)

unfoldable pub consume_bytes : ℕ → List Bytes → Bytes × List Bytes
consume_bytes n [] = consume_slow n []
consume_bytes n (first ∷ rest) =
    if length first == n
    then (first, rest)
    else if ltb n (length first)
    then (take n first, drop n first ∷ rest)
    else consume_slow n (first ∷ rest)

-- One round of the loop of `push`: it breaks, throws, or yields a frame.
pub data Round : Type 0 where
  break : Round
  throw : FrameError → Round
  yields : DataFrame → FrameDecoder → Round

-- `h` is read from the peeked header, and again from the consumed frame.
unfoldable pub decode_round : FrameDecoder → Header → Round
decode_round dec h =
    if not (h.magic == frame_magic)
    then throw (bad_magic h.magic)
    else if ltb max_frame h.pay_len
    then throw (oversized h.pay_len)
    else if ltb dec.buffered_len (frame_length h)
    then break
    else let taken = consume_bytes (frame_length h) dec.chunks in
      yields
        (frame_of (record h { seq = elim (header taken.0) [ none ↦ 0 | some again ↦ again.seq ] })
          taken.0)
        (record { chunks = taken.1; buffered_len = dec.buffered_len - frame_length h })

unfoldable pub round : FrameDecoder → Round
round dec =
    if ltb dec.buffered_len min_header_bytes
    then break
    else elim (header (peek_bytes min_header_bytes dec.chunks)) [
      | none ↦ break
      | some h ↦ decode_round dec h
    ]

-- The result of a `push`: the frames returned, or the error thrown, with the decoder after it.
pub data Pushed : Type 0 where
  frames : List DataFrame → FrameDecoder → Pushed
  threw : FrameError → FrameDecoder → Pushed
  out_of_fuel : Pushed

-- Each round takes at least a header from the buffer.
unfoldable pub decode_loop : ℕ → FrameDecoder → List DataFrame → Pushed
decode_loop zero dec out = out_of_fuel
decode_loop (suc fuel) dec out = elim (round dec) [
  | break ↦ frames out dec
  | throw e ↦ threw e dec
  | yields f dec' ↦ decode_loop fuel dec' (out ++ f ∷ [])
]

unfoldable pub push : FrameDecoder → Bytes → Pushed
push dec chunk =
    let buffered = dec.buffered_len + length chunk in
    if length chunk == 0
    then frames [] dec
    else decode_loop (suc buffered)
        (record { chunks = dec.chunks ++ chunk ∷ []; buffered_len = buffered }) []

pub data Decoded : Type 0 where
  decoded : DataFrame → Decoded
  invalid : FrameError → Decoded

unfoldable pub decode_frame : Bytes → Decoded
decode_frame buf = elim (header buf) [
  | none ↦ invalid (too_short (length buf) min_header_bytes)
  | some h ↦
      if not (h.magic == frame_magic)
      then invalid (bad_magic h.magic)
      else if ltb max_frame h.pay_len
      then invalid (oversized h.pay_len)
      else if ltb (length buf) (frame_length h)
      then invalid (too_short (length buf) (frame_length h))
      else decoded (frame_of h buf)
]
