-- ===== src/Protocol/Framing/Cuts.antt =====
-- A stream of frames that is pushed in chunks, cut anywhere.
use mathlib.Core.Path.{subst}
use tmuxcc_driver.Prelude.{
  ◌≡◌, refl, sym, ap, ◌∙◌, List, [], ◌∷◌, ◌++◌, append_assoc, append-nil, Bytes, All, concat,
}
use tmuxcc_driver.Protocol.Framing.{
  DataFrame, FrameError, header, FrameDecoder, new_decoder, Pushed, frames, threw, out_of_fuel,
  push,
}
use tmuxcc_driver.Protocol.Framing.Stream.{
  wait, fails, first_frame, Run, here, next, Run-append, Run-extends, first_frame-append_fails,
}
use tmuxcc_driver.Protocol.Framing.Chunks.{held}
use tmuxcc_driver.Protocol.Framing.Push.{IsSettled, Reads, push-Reads}
use tmuxcc_driver.Protocol.Framing.RoundTrip.{IsSendable, wires, wires-Run}

-- A client that pushes the chunks as they arrive, and collects the frames until an error.
abbrev pub after : List DataFrame → Pushed → Pushed
after fs (frames gs dec) = frames (fs ++ gs) dec
after fs (threw e dec) = threw e dec
after fs out_of_fuel = out_of_fuel

unfoldable pub push_all : FrameDecoder → List Bytes → Pushed
push_all dec [] = frames [] dec
push_all dec (chunk ∷ chunks) = elim (push dec chunk) [
  | frames fs dec' ↦ after fs (push_all dec' chunks)
  | threw e dec' ↦ threw e dec'
  | out_of_fuel ↦ out_of_fuel
]

Run-stuck :
    {bs left : Bytes} {fs : List DataFrame} {e : FrameError}
    → Run bs fs left
    → first_frame bs ≡ fails e
    → first_frame left ≡ wait
    → ⊥
Run-stuck (here same) failed stop = cc
Run-stuck (next first run) failed stop = cc

-- The frames to come after a push, out of those of all bytes.
push_all_step :
    (dec : FrameDecoder) (chunk : Bytes) (chunks : List Bytes) (fs : List DataFrame) (left : Bytes)
    (p : Pushed)
    → ((dec' : FrameDecoder) (gs : List DataFrame)
        → IsSettled dec'
        → Run (held dec' ++ concat chunks) gs left
        → (last : FrameDecoder) × (push_all dec' chunks ≡ frames gs last)
          × (held last ≡ left)
          × IsSettled last)
    → Run (held dec ++ concat (chunk ∷ chunks)) fs left
    → first_frame left ≡ wait
    → push dec chunk ≡ p
    → Reads (held dec ++ chunk) [] p
    → (last : FrameDecoder) × (push_all dec (chunk ∷ chunks) ≡ frames fs last)
      × (held last ≡ left)
      × IsSettled last
unfolding push_all
push_all_step dec chunk chunks fs left (frames out dec') ih run stop e
      (now, same, part, waiting, counted) =
    let whole = Run-append (concat chunks) part in
    let cut : held dec ++ concat (chunk ∷ chunks) ≡ (held dec ++ chunk) ++ concat chunks =
      sym (append_assoc (held dec) chunk (concat chunks)) in
    let (gs, split, later) = Run-extends whole (subst (λ bs. Run bs fs left) cut run) stop in
    let (last, rest, holds, settled) =
      ih dec' gs (record { counted = counted; waiting = waiting }) later in
    (
      last,
      rw (e, push_all, rest)
          (ap (λ hs. frames (hs ++ gs) last) same ∙ ap (λ hs. frames hs last) (sym split)),
      holds,
      settled,
    )
push_all_step dec chunk chunks fs left (threw why dec') ih run stop e (now, part, failed) =
    let whole = Run-append (concat chunks) part in
    let cut : held dec ++ concat (chunk ∷ chunks) ≡ (held dec ++ chunk) ++ concat chunks =
      sym (append_assoc (held dec) chunk (concat chunks)) in
    let (gs, split, later) = Run-extends whole (subst (λ bs. Run bs fs left) cut run) stop in
    absurd (Run-stuck later (first_frame-append_fails (held dec') (concat chunks) failed) stop)
push_all_step dec chunk chunks fs left out_of_fuel ih run stop e r = absurd r

push_none :
    (dec : FrameDecoder) (fs : List DataFrame) (left : Bytes)
    → IsSettled dec
    → Run (held dec) fs left
    → (last : FrameDecoder) × (frames [] dec ≡ frames fs last) × (held last ≡ left) × IsSettled last
push_none dec fs left settled (here e) = (dec, refl, sym e, settled)
push_none dec fs left settled (next first run) =
    let waiting = settled.waiting in absurd (cc waiting)

-- Whatever the chunks, their bytes determine the frames: a settled decoder that is pushed chunk by
-- chunk bytes which read as `fs` down to an incomplete `left` returns `fs` in all, buffers `left`,
-- and is settled again.
pub push_all-Run :
    (dec : FrameDecoder) (chunks : List Bytes) (fs : List DataFrame) (left : Bytes)
    → IsSettled dec
    → Run (held dec ++ concat chunks) fs left
    → first_frame left ≡ wait
    → (last : FrameDecoder) × (push_all dec chunks ≡ frames fs last)
      × (held last ≡ left)
      × IsSettled last
unfolding push_all
push_all-Run dec [] fs left settled run stop =
    let waiting = settled.waiting in
    push_none dec fs left settled (subst (λ bs. Run bs fs left) (append-nil (held dec)) run)
push_all-Run dec (chunk ∷ chunks) fs left settled run stop =
    push_all_step dec chunk chunks fs left (push dec chunk)
      (λ dec' gs settled' later. push_all-Run dec' chunks gs left settled' later stop) run stop refl
      (push-Reads dec chunk settled)

pub new_decoder-IsSettled : IsSettled new_decoder
unfolding first_frame header
new_decoder-IsSettled = record { counted = refl; waiting = refl }

-- Frames that can be sent, encoded one behind the other and delivered in any chunks, all come out
-- of a new decoder, equal and in order, and nothing stays buffered.
pub push_all-wires :
    (fs : List DataFrame) (chunks : List Bytes)
    → All IsSendable fs
    → concat chunks ≡ wires fs
    → (last : FrameDecoder) × (push_all new_decoder chunks ≡ frames fs last) × (held last ≡ [])
unfolding first_frame header
push_all-wires fs chunks h e =
    let (last, all, holds, settled) =
      push_all-Run new_decoder chunks fs [] new_decoder-IsSettled
        (subst (λ bs. Run bs fs []) (sym e) (wires-Run fs h)) refl in
    (last, all, holds)
