-- ===== src/Protocol/Framing/Push.antt =====
-- What `FrameDecoder.push` does with a chunk, on every branch.
use mathlib.Core.Path.{subst}
use tmuxcc_driver.Prelude.{
  ℕ, zero, suc, ◌+◌, ◌≤◌, ◌<◌, ◌≡◌, refl, sym, ap, ◌∙◌, inl, inr, true, not, some, List, [], ◌∷◌,
  ◌++◌, append_assoc, append-nil, arith, Bytes, length, take, drop, concat, length-append,
  length-take, length-drop, take-append-drop, ltb, ◌==◌, Bool-cases,
}
use tmuxcc_driver.Protocol.Framing.{
  frame_magic, min_header_bytes, max_frame, DataFrame, Header, header, frame_of, frame_length,
  FrameDecoder, Round, break, throw, yields, decode_round, round, Pushed, frames, threw,
  out_of_fuel, decode_loop, push,
}
use tmuxcc_driver.Protocol.Framing.Stream.{
  First, wait, fails, got, first_of, first_frame, Run, here, next, header-append, header-long,
  header-short,
}
use tmuxcc_driver.Protocol.Framing.Chunks.{held, IsCounted, peek_bytes_lem, consume_bytes-Takes}

-- What a round of the loop stands for on the plain stream.
abbrev RoundIs : FrameDecoder → First → Round → Type 0
RoundIs dec first break = first ≡ wait
RoundIs dec first (throw e) = first ≡ fails e
RoundIs dec first (yields f dec') =
    (first ≡ got f (held dec')) × IsCounted dec' × (dec'.buffered_len < dec.buffered_len)

header-take :
    (n : ℕ) (bs : Bytes) {h : Header}
    → 11 ≤ n
    → 11 ≤ length bs
    → header bs ≡ some h
    → header (take n bs) ≡ some h
header-take n bs enough long e =
    let (h', found) = header-long (take n bs) (omega (arith, length-take n bs)) in
    let whole = header-append (take n bs) (drop n bs) found in
    let same : header bs ≡ some h' = rw (take-append-drop n bs) at whole in found ∙ sym same ∙ e

decode_round-RoundIs :
    (dec : FrameDecoder) (h : Header)
    → IsCounted dec
    → 11 ≤ length (held dec)
    → header (held dec) ≡ some h
    → RoundIs dec (first_of h (held dec)) (decode_round dec h)
unfolding decode_round
decode_round-RoundIs dec h counted long e = elim (Bool-cases (not (h.magic == frame_magic))) [
  | inl bad ↦ rw bad refl
  | inr magic ↦ elim (Bool-cases (ltb max_frame h.pay_len)) [
    | inl big ↦ rw (magic, big) refl
    | inr small ↦ elim (Bool-cases (ltb (length (held dec)) (frame_length h))) [
      | inl short ↦ rw (magic, small, counted, short) refl
      | inr whole ↦
          let fits : frame_length h ≤ length (held dec) = ground arith in
          let (front, back) = consume_bytes-Takes (frame_length h) dec.chunks fits in
          rw
            (
              magic,
              small,
              counted,
              whole,
              front,
              header-take (frame_length h) (held dec) (omega arith) long e,
            )
            (
              ap (got (frame_of h (take (frame_length h) (held dec)))) (sym back),
              omega (arith, length-drop (frame_length h) (held dec), ap length back),
              omega arith,
            )
    ]
  ]
]

round-RoundIs :
    (dec : FrameDecoder) → IsCounted dec → RoundIs dec (first_frame (held dec)) (round dec)
unfolding round first_frame
round-RoundIs dec counted = elim (Bool-cases (ltb dec.buffered_len min_header_bytes)) [
  | inl short ↦ rw (short, header-short (held dec) (ground arith), first_frame) refl
  | inr enough ↦
      let long : 11 ≤ length (held dec) = ground arith in
      let (h, found) = header-long (held dec) long in
      rw
        (
          enough,
          peek_bytes_lem min_header_bytes dec.chunks long,
          header-take min_header_bytes (held dec) (omega arith) long found,
          found,
          first_frame,
        )
        (decode_round-RoundIs dec h counted long found)
]

-- The result of `push` against the stream of the bytes buffered and pushed: the frames of its
-- longest run, with the rest buffered, or the error at which the run stops.
abbrev pub Reads : Bytes → List DataFrame → Pushed → Type 0
Reads bs before (frames out dec) =
    (fs : List DataFrame) × (out ≡ before ++ fs)
    × Run bs fs (held dec)
    × (first_frame (held dec) ≡ wait)
    × IsCounted dec
Reads bs before (threw e dec) =
    (fs : List DataFrame) × Run bs fs (held dec) × (first_frame (held dec) ≡ fails e)
Reads bs before out_of_fuel = ⊥

Reads-next :
    (bs rest : Bytes) {f : DataFrame} (before : List DataFrame) (p : Pushed)
    → first_frame bs ≡ got f rest
    → Reads rest (before ++ f ∷ []) p
    → Reads bs before p
Reads-next bs rest {f} before (frames out dec) first (fs, e, run, stop, counted) =
    (f ∷ fs, e ∙ append_assoc before (f ∷ []) fs, next first run, stop, counted)
Reads-next bs rest {f} before (threw e dec) first (fs, run, stop) = (f ∷ fs, next first run, stop)
Reads-next bs rest {f} before out_of_fuel first r = r

-- One round of the loop, given what the rounds after it do.
loop_step-Reads :
    (fuel : ℕ) (dec : FrameDecoder) (out : List DataFrame) (r : Round)
    → ((dec' : FrameDecoder) (out' : List DataFrame)
        → IsCounted dec'
        → dec'.buffered_len < fuel
        → Reads (held dec') out' (decode_loop fuel dec' out'))
    → IsCounted dec
    → dec.buffered_len < suc fuel
    → round dec ≡ r
    → RoundIs dec (first_frame (held dec)) r
    → Reads (held dec) out (decode_loop (suc fuel) dec out)
unfolding decode_loop
loop_step-Reads fuel dec out break ih counted enough e stop =
    rw (e, decode_loop) ([], sym (append-nil out), here refl, stop, counted)
loop_step-Reads fuel dec out (throw why) ih counted enough e stop =
    rw (e, decode_loop) ([], here refl, stop)
loop_step-Reads fuel dec out (yields f dec') ih counted enough e (first, counted', less) =
    rw (e, decode_loop)
      (Reads-next (held dec) (held dec') out (decode_loop fuel dec' (out ++ f ∷ [])) first
        (ih dec' (out ++ f ∷ []) counted' (omega arith)))

decode_loop-Reads :
    (fuel : ℕ) (dec : FrameDecoder) (out : List DataFrame)
    → IsCounted dec
    → dec.buffered_len < fuel
    → Reads (held dec) out (decode_loop fuel dec out)
decode_loop-Reads zero dec out counted enough = absurd (omega arith)
decode_loop-Reads (suc fuel) dec out counted enough =
    loop_step-Reads fuel dec out (round dec) (decode_loop-Reads fuel) counted enough refl
      (round-RoundIs dec counted)

concat-snoc : (chunks : List Bytes) (c : Bytes) → concat (chunks ++ c ∷ []) ≡ concat chunks ++ c
concat-snoc [] c = append-nil c
concat-snoc (d ∷ ds) c = ap (◌++◌ d) (concat-snoc ds c) ∙ sym (append_assoc d (concat ds) c)

-- Between calls a decoder's counter is right, and it holds no complete frame.
pub record IsSettled (dec : FrameDecoder) : Type 0 where
  pub counted : IsCounted dec
  pub waiting : first_frame (held dec) ≡ wait

nil-of_length : (xs : Bytes) → (length xs == 0) ≡ true → xs ≡ []
nil-of_length [] h = refl
nil-of_length (x ∷ xs) h = absurd (ground arith)

-- A push to a settled decoder never runs out of rounds: either it returns exactly the complete
-- frames of the bytes buffered and pushed, keeps the rest and is settled again, or it throws the
-- error of the first bytes that no frame can start with.
pub push-Reads :
    (dec : FrameDecoder) (chunk : Bytes)
    → IsSettled dec
    → Reads (held dec ++ chunk) [] (push dec chunk)
unfolding push
push-Reads dec chunk settled = elim (Bool-cases (length chunk == 0)) [
  | inl nothing ↦
      let e : held dec ++ chunk ≡ held dec =
        ap (◌++◌ (held dec)) (nil-of_length chunk nothing) ∙ append-nil (held dec) in
      rw nothing ([], refl, here (sym e), settled.waiting, settled.counted)
  | inr bytes ↦
      let buffered = dec.buffered_len + length chunk in
      let dec' : FrameDecoder = record {
        chunks = dec.chunks ++ chunk ∷ [];
        buffered_len = buffered;
      } in
      let snoc = concat-snoc dec.chunks chunk in
      let known = settled.counted in
      let loop =
        decode_loop-Reads (suc buffered) dec' []
          (omega (arith, ap length snoc, length-append (held dec) chunk)) (omega arith) in
      rw bytes (subst (λ bs. Reads bs [] (decode_loop (suc buffered) dec' [])) snoc loop)
]
