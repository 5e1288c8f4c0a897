-- ===== src/Parser/OutputCodec/Tests.antt =====
-- Runs of the codec on small inputs.
use tmuxcc_driver.Prelude.{◌≡◌, refl, some, none, [], ◌∷◌, arith, Bytes}
use tmuxcc_driver.Prelude.Keyed.{matches_list, codes}
use tmuxcc_driver.Parser.Tokens.{NotificationToken}
use tmuxcc_driver.Parser.OutputCodec.{
  decode_output_payload, octal_value, encode_output_payload, skip_to_space, skip_byte, read_digits,
  read_decimal, skip_latency, parse_output_notification,
}
use tmuxcc_driver.Parser.OutputCodec.RoundTrip.{decode-encode}
use tmuxcc_driver.Parser.OutputCodec.Notification.{parse_output_notification_lem}

codec : Unit {0}
unfolding decode_output_payload octal_value encode_output_payload skip_to_space skip_byte
    read_digits read_decimal skip_latency parse_output_notification matches_list
codec = tt

-- ESC, a letter, a backslash and a high byte.
abbrev raw : Bytes
raw = 0x1b ∷ b'a' ∷ 0x5c ∷ 0xff ∷ []

abbrev escaped : Bytes
escaped = 0x5c ∷ b'0' ∷ b'3' ∷ b'3' ∷ b'a' ∷ 0x5c ∷ b'1' ∷ b'3' ∷ b'4' ∷ 0xff ∷ []

encoded : encode_output_payload raw ≡ escaped
unfolding codec
encoded = refl

-- A backslash with too few digits behind it stands for itself.
malformed : decode_output_payload (0x5c ∷ b'1' ∷ b'2' ∷ []) ≡ 0x5c ∷ b'1' ∷ b'2' ∷ []
unfolding codec
malformed = refl

-- `%output %7 a`
abbrev token : NotificationToken
token = record {
  keyword = codes "output";
  raw_line = b'%' ∷ b'o' ∷ b'u' ∷ b't' ∷ b'p' ∷ b'u' ∷ b't' ∷ b' ' ∷ b'%' ∷ b'7' ∷ b' ' ∷ b'a' ∷ [];
}

parsed : parse_output_notification token ≡ some (record { pane_id = 7; bytes = b'a' ∷ [] })
unfolding codec
parsed = refl

no_pane_id :
    parse_output_notification (record token { raw_line = b'%' ∷ b'o' ∷ b' ' ∷ b'7' ∷ [] }) ≡ none
unfolding codec
no_pane_id = refl

decode-encode_example : decode_output_payload (encode_output_payload raw) ≡ raw
decode-encode_example = decode-encode raw (omega arith)

parse_output_notification_lem_example :
    parse_output_notification (record {
      keyword = codes "extended-output";
      raw_line =
          b'%' ∷ b'e' ∷ b' ' ∷ b'%' ∷ b'4' ∷ b'2' ∷ b' ' ∷ b'9' ∷ b' ' ∷ b':' ∷ b' ' ∷ escaped;
    })
    ≡ some (record { pane_id = 42; bytes = raw })
unfolding encode_output_payload matches_list
parse_output_notification_lem_example =
    parse_output_notification_lem (codes "extended-output") (b'%' ∷ b'e' ∷ []) b'4' (b'2' ∷ [])
      (b'9' ∷ []) raw (omega arith) (refl, (refl, tt)) (refl, tt) (omega arith)
