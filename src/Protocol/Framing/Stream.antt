-- ===== src/Protocol/Framing/Stream.antt =====
-- The frames of a byte stream, read with no regard to how the stream is cut into chunks.
use mathlib.Core.Path.{subst}
use tmuxcc_driver.Prelude.{
  ◌≤◌, ◌<◌, ◌≡◌, refl, ap, inl, inr, not, none, some, List, [], ◌∷◌, ◌++◌, arith, Bytes, length,
  take, drop, length-append, take-append_le, drop-append_le, ltb, ◌==◌, if◌then◌else◌, Option-cases,
}
use tmuxcc_driver.Protocol.Framing.{
  frame_magic, max_frame, DataFrame, FrameError, bad_magic, oversized, Header, header, frame_of,
  frame_length,
}

-- What a stream starts with: not yet a frame, none that is acceptable, or a frame and the rest.
pub data First : Type 0 where
  wait : First
  fails : FrameError → First
  got : DataFrame → Bytes → First

abbrev pub first_of : Header → Bytes → First
first_of h bs =
    if not (h.magic == frame_magic)
    then fails (bad_magic h.magic)
    else if ltb max_frame h.pay_len
    then fails (oversized h.pay_len)
    else if ltb (length bs) (frame_length h)
    then wait
    else got (frame_of h (take (frame_length h) bs)) (drop (frame_length h) bs)

unfoldable pub first_frame : Bytes → First
first_frame bs = elim (header bs) [ none ↦ wait | some h ↦ first_of h bs ]

-- Frame after frame, down to `left`.
pub data Run : Bytes → List DataFrame → Bytes → Type 0 where
  here : {bs left : Bytes} → left ≡ bs → Run bs [] left
  next :
      {bs rest left : Bytes} {f : DataFrame} {fs : List DataFrame}
      → first_frame bs ≡ got f rest
      → Run rest fs left
      → Run bs (f ∷ fs) left

pub header-append :
    (bs more : Bytes) {h : Header} → header bs ≡ some h → header (bs ++ more) ≡ some h
unfolding header
header-append (m ∷ s0 ∷ s1 ∷ s2 ∷ s3 ∷ p0 ∷ p1 ∷ p2 ∷ p3 ∷ i0 ∷ i1 ∷ rest) more e = e
header-append _ more e = cc

pub header-long : (bs : Bytes) → 11 ≤ length bs → (h : Header) × (header bs ≡ some h)
unfolding header
header-long (m ∷ s0 ∷ s1 ∷ s2 ∷ s3 ∷ p0 ∷ p1 ∷ p2 ∷ p3 ∷ i0 ∷ i1 ∷ rest) h = (_, refl)
header-long _ h = absurd (omega arith)

pub header-short : (bs : Bytes) → length bs < 11 → header bs ≡ none
unfolding header
header-short (m ∷ s0 ∷ s1 ∷ s2 ∷ s3 ∷ p0 ∷ p1 ∷ p2 ∷ p3 ∷ i0 ∷ i1 ∷ rest) h = absurd (omega arith)
header-short _ h = refl

-- More bytes behind a stream leave its first frame, or its failure, as it was.
first_of-append_got :
    (h : Header) (bs more rest : Bytes) {f : DataFrame}
    → first_of h bs ≡ got f rest
    → first_of h (bs ++ more) ≡ got f (rest ++ more)
first_of-append_got h bs more rest e = ground (
  arith,
  length-append bs more,
  take-append_le (frame_length h) bs more,
  drop-append_le (frame_length h) bs more,
)

pub first_frame-append_got :
    (bs more rest : Bytes) {f : DataFrame}
    → first_frame bs ≡ got f rest
    → first_frame (bs ++ more) ≡ got f (rest ++ more)
unfolding first_frame
first_frame-append_got bs more rest e = elim (Option-cases (header bs)) [
  | inl short ↦ cc (rw (short, first_frame) at e)
  | inr (h, whole) ↦
      rw (header-append bs more whole, first_frame)
        (first_of-append_got h bs more rest (rw (whole, first_frame) at e))
]

pub first_frame-append_fails :
    (bs more : Bytes) {e : FrameError}
    → first_frame bs ≡ fails e
    → first_frame (bs ++ more) ≡ fails e
unfolding first_frame
first_frame-append_fails bs more failed = elim (Option-cases (header bs)) [
  | inl short ↦ cc (rw (short, first_frame) at failed)
  | inr (h, whole) ↦
      rw (header-append bs more whole, first_frame)
        (ground (arith, rw (whole, first_frame) at failed))
]

pub Run-append :
    {bs left : Bytes} {fs : List DataFrame} (more : Bytes)
    → Run bs fs left
    → Run (bs ++ more) fs (left ++ more)
Run-append more (here e) = here (ap (λ b. b ++ more) e)
Run-append more (next {bs} {rest} first run) =
    next (first_frame-append_got bs more rest first) (Run-append more run)

-- A run that ends where no frame starts extends every other run over the same bytes.
pub Run-extends :
    {bs middle left : Bytes} {fs gs : List DataFrame}
    → Run bs fs middle
    → Run bs gs left
    → first_frame left ≡ wait
    → (hs : List DataFrame) × (gs ≡ fs ++ hs) × Run middle hs left
Run-extends (here e) run stop = (_, refl, rw e run)
Run-extends (next first run) (here e) stop = cc
Run-extends {left = l} (next {rest = r} first run) (next {rest = r'} {fs = gs} first' run') stop =
    let same : r' ≡ r = cc in
    let (hs, more, later) = Run-extends run (subst (λ b. Run b gs l) same run') stop in
    (hs, cc, later)
