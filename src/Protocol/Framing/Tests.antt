-- ===== src/Protocol/Framing/Tests.antt =====
-- Runs of the decoder on small inputs.
use tmuxcc_driver.Prelude.{◌≡◌, refl, List, [], ◌∷◌, arith, Bytes}
use tmuxcc_driver.Protocol.Utf8.{encode_scalar, encode, decode_from, decode}
use tmuxcc_driver.Protocol.Framing.{
  DataFrame, FrameDecoder, new_decoder, header, peek_slow, peek_bytes, consume_slow, consume_bytes,
  decode_round, round, decode_loop, encode_frame, frame, frames, threw, bad_magic, push, decoded,
  decode_frame,
}
use tmuxcc_driver.Protocol.Framing.Stream.{first_frame, Run}
use tmuxcc_driver.Protocol.Framing.Chunks.{held}
use tmuxcc_driver.Protocol.Framing.Push.{IsSettled}
use tmuxcc_driver.Protocol.Framing.RoundTrip.{IsSendable, decode_frame-encode_frame}
use tmuxcc_driver.Protocol.Framing.Cuts.{
  push_all, push_all-wires, push_all-Run, new_decoder-IsSettled,
}

framing : Unit {0}
unfolding encode_scalar encode decode_from decode header peek_slow peek_bytes consume_slow
    consume_bytes decode_round round decode_loop push encode_frame decode_frame push_all
framing = tt

-- The frame of pane "p", number 258, with two bytes.
abbrev sample : DataFrame
sample = record { pane_id = b'p' ∷ []; seq = 258; payload = 0 ∷ 255 ∷ [] }

abbrev sample_bytes : Bytes
sample_bytes = 0xcc ∷ 0 ∷ 0 ∷ 1 ∷ 2 ∷ 0 ∷ 0 ∷ 0 ∷ 2 ∷ 0 ∷ 1 ∷ b'p' ∷ 0 ∷ 255 ∷ []

encoded : encode_frame (b'p' ∷ []) 258 (0 ∷ 255 ∷ []) ≡ frame sample_bytes
unfolding framing
encoded = refl

isolated : decode_frame sample_bytes ≡ decoded sample
unfolding framing
isolated = refl

garbage :
    push new_decoder (1 ∷ 2 ∷ 3 ∷ 4 ∷ 5 ∷ 6 ∷ 7 ∷ 8 ∷ 9 ∷ 10 ∷ 11 ∷ [])
    ≡ threw (bad_magic 1) (record {
      chunks = (1 ∷ 2 ∷ 3 ∷ 4 ∷ 5 ∷ 6 ∷ 7 ∷ 8 ∷ 9 ∷ 10 ∷ 11 ∷ []) ∷ [];
      buffered_len = 11;
    })
unfolding framing
garbage = refl

-- Two frames, cut in the header of the first and in the payload of the second.
abbrev pieces : List Bytes
pieces =
    (0xcc ∷ 0 ∷ 0 ∷ 1 ∷ 2 ∷ [])
    ∷ (0 ∷ 0 ∷ 0 ∷ 2 ∷ 0 ∷ 1 ∷ b'p' ∷ 0 ∷ 255 ∷ 0xcc ∷ 0 ∷ 0 ∷ 1 ∷ 2 ∷ 0 ∷ 0 ∷ 0 ∷ 2 ∷ [])
    ∷ (0 ∷ 1 ∷ b'p' ∷ 0 ∷ [])
    ∷ (255 ∷ [])
    ∷ []

cut_anywhere : push_all new_decoder pieces ≡ frames (sample ∷ sample ∷ []) new_decoder
unfolding framing
cut_anywhere = refl

sample-IsSendable : IsSendable sample
unfolding framing
sample-IsSendable = record {
  plain = (((omega arith, refl), tt), refl);
  id_fits = omega arith;
  payload_fits = omega arith;
  seq_fits = omega arith;
}

push_all-wires_example :
    (last : FrameDecoder) × (push_all new_decoder pieces ≡ frames (sample ∷ sample ∷ []) last)
    × (held last ≡ [])
unfolding framing
push_all-wires_example =
    push_all-wires (sample ∷ sample ∷ []) pieces (sample-IsSendable, (sample-IsSendable, tt)) refl

push_all-Run_example :
    (last : FrameDecoder) × (push_all new_decoder ((0xcc ∷ []) ∷ []) ≡ frames [] last)
    × (held last ≡ 0xcc ∷ [])
    × IsSettled last
unfolding framing first_frame
push_all-Run_example =
    push_all-Run new_decoder ((0xcc ∷ []) ∷ []) [] (0xcc ∷ []) new_decoder-IsSettled (Run.here refl)
      refl

decode_frame-encode_frame_example :
    (bytes : Bytes) × (encode_frame sample.pane_id sample.seq sample.payload ≡ frame bytes)
    × (decode_frame bytes ≡ decoded sample)
decode_frame-encode_frame_example = decode_frame-encode_frame sample sample-IsSendable
