-- ===== src/Protocol/Framing/RoundTrip.antt =====
-- Encoded frames, concatenated and cut anywhere, come back as they were.
use tmuxcc_driver.Prelude.{
  ℕ, ◌+◌, ◌/◌, ◌%◌, ◌^◌, ◌≤◌, ◌<◌, ◌≡◌, refl, sym, ap, ◌∙◌, some, List, [], ◌∷◌, ◌++◌, append-nil,
  arith, Bytes, All, length, take, drop, length-append, take-length, drop-length, drop-drop,
}
use tmuxcc_driver.Protocol.Utf8.{encode, decode}
use tmuxcc_driver.Protocol.Utf8.RoundTrip.{IsPlainText, decode-encode_text}
use tmuxcc_driver.Protocol.Framing.{
  frame_magic, max_frame, off_paneid, DataFrame, get_uint32, get_uint16, frame, frame_bytes,
  encode_frame, Header, header, frame_of, frame_length, decoded, decode_frame,
}
use tmuxcc_driver.Protocol.Framing.Stream.{got, first_of, first_frame, Run, here, next}

-- What may be put into a frame that the decoder accepts.
pub record IsSendable (f : DataFrame) : Type 0 where
  pub plain : IsPlainText f.pane_id
  pub id_fits : length (encode f.pane_id) ≤ 0xffff
  pub payload_fits : length f.payload ≤ max_frame
  pub seq_fits : f.seq < 2 ^ 32

uint32_lem :
    (n : ℕ)
    → n < 2 ^ 32
    → get_uint32 (n / 2 ^ 24 % 256) (n / 2 ^ 16 % 256) (n / 2 ^ 8 % 256) (n % 256) ≡ n
uint32_lem n h = omega arith

uint16_lem : (n : ℕ) → n < 2 ^ 16 → get_uint16 (n / 2 ^ 8 % 256) (n % 256) ≡ n
uint16_lem n h = omega arith

-- The whole frame of a value, and the header read back from it.
abbrev pub wire : DataFrame → Bytes
wire f = frame_bytes (encode f.pane_id) f.seq f.payload

abbrev header_for : DataFrame → Header
header_for f = record {
  magic = frame_magic;
  seq = f.seq;
  pay_len = length f.payload;
  id_len = length (encode f.pane_id);
}

header-wire :
    (f : DataFrame) (rest : Bytes) → IsSendable f → header (wire f ++ rest) ≡ some (header_for f)
unfolding header
header-wire f rest s =
    let payload_fits = s.payload_fits in
    let id_fits = s.id_fits in
    let seq_fits = s.seq_fits in
    let seq_mod : f.seq % 2 ^ 32 ≡ f.seq = omega arith in
    let len_mod : length f.payload % 2 ^ 32 ≡ length f.payload = omega arith in
    ap some (λ i. record {
      magic = frame_magic;
      seq =
          (ap (λ n. get_uint32 (n / 2 ^ 24 % 256) (n / 2 ^ 16 % 256) (n / 2 ^ 8 % 256) (n % 256))
                seq_mod
              ∙ uint32_lem f.seq seq_fits)
            i;
      pay_len =
          (ap (λ n. get_uint32 (n / 2 ^ 24 % 256) (n / 2 ^ 16 % 256) (n / 2 ^ 8 % 256) (n % 256))
                len_mod
              ∙ uint32_lem (length f.payload) (omega arith))
            i;
      id_len = uint16_lem (length (encode f.pane_id)) (omega arith) i;
    })

length-wire : (f : DataFrame) → length (wire f) ≡ frame_length (header_for f)
length-wire f = omega (arith, length-append (encode f.pane_id) f.payload)

take_all : (xs : Bytes) → take (length xs) xs ≡ xs
take_all [] = refl
take_all (x ∷ xs) = ap (◌∷◌ x) (take_all xs)

frame_of-wire : (f : DataFrame) → IsSendable f → frame_of (header_for f) (wire f) ≡ f
frame_of-wire f s =
    let id = encode f.pane_id in
    let text : decode (take (length id) (id ++ f.payload)) ≡ f.pane_id =
      ap decode (take-length id f.payload) ∙ decode-encode_text f.pane_id s.plain in
    let tail : take (length f.payload) (drop (off_paneid + length id) (wire f)) ≡ f.payload =
      ap (take (length f.payload))
        (sym (drop-drop (length id) off_paneid (wire f)) ∙ drop-length id f.payload)
      ∙ take_all f.payload in
    λ i. record { pane_id = text i; seq = f.seq; payload = tail i }

first_of-exact :
    (h : Header) (bs rest : Bytes)
    → length bs ≡ frame_length h
    → h.magic ≡ frame_magic
    → h.pay_len ≤ max_frame
    → first_of h (bs ++ rest) ≡ got (frame_of h bs) rest
first_of-exact h bs rest size magic fits =
    let front : take (frame_length h) (bs ++ rest) ≡ bs =
      ap (λ n. take n (bs ++ rest)) (sym size) ∙ take-length bs rest in
    let back : drop (frame_length h) (bs ++ rest) ≡ rest =
      ap (λ n. drop n (bs ++ rest)) (sym size) ∙ drop-length bs rest in
    rw (front, back) (ground (arith, length-append bs rest))

-- A stream that starts with an encoded frame yields that frame and what follows it.
pub first_frame-wire :
    (f : DataFrame) (rest : Bytes) → IsSendable f → first_frame (wire f ++ rest) ≡ got f rest
unfolding first_frame
first_frame-wire f rest s =
    let step = first_of-exact (header_for f) (wire f) rest (length-wire f) refl s.payload_fits in
    rw (header-wire f rest s, first_frame) (step ∙ ap (λ g. got g rest) (frame_of-wire f s))

-- A frame that can be sent is encoded with no error.
pub encode_frame-wire :
    (f : DataFrame) → IsSendable f → encode_frame f.pane_id f.seq f.payload ≡ frame (wire f)
unfolding encode_frame
encode_frame-wire f s = ground arith

-- The isolated frame is decoded to the value that was encoded.
pub decode_frame-encode_frame :
    (f : DataFrame)
    → IsSendable f
    → (bytes : Bytes) × (encode_frame f.pane_id f.seq f.payload ≡ frame bytes)
      × (decode_frame bytes ≡ decoded f)
unfolding decode_frame
decode_frame-encode_frame f s =
    let found : header (wire f) ≡ some (header_for f) =
      ap header (sym (append-nil (wire f))) ∙ header-wire f [] s in
    let payload_fits = s.payload_fits in
    (
      wire f,
      encode_frame-wire f s,
      rw (found, decode_frame) (ground (arith, length-wire f, frame_of-wire f s)),
    )

-- The bytes of frames sent one behind the other.
abbrev pub wires : List DataFrame → Bytes
wires [] = []
wires (f ∷ fs) = wire f ++ wires fs

pub wires-Run : (fs : List DataFrame) → All IsSendable fs → Run (wires fs) fs []
wires-Run [] h = here refl
wires-Run (f ∷ fs) (s, h) = next (first_frame-wire f (wires fs) s) (wires-Run fs h)
