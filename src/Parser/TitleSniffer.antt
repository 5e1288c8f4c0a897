-- ===== src/Parser/TitleSniffer.antt =====
-- packages/driver/src/parser/osc-title-sniffer.ts: the sniffer of pane titles.
-- `buf` is the list of the collected bytes: `_bufPush` makes its array longer before a byte would pass
-- the end. The array `out` of `feed` keeps its size; a write past its end is lost, and counted.
-- `TextDecoder` is a parameter, as for the notification scanner.
mod Seen
mod Fits
mod Lost
mod Tests
use tmuxcc_driver.Prelude.{
  ℕ, zero, suc, ◌+◌, Bool, true, false, Option, none, some, List, [], ◌∷◌, ◌++◌, leb, ltb, ◌==◌,
  if◌then◌else◌, ◌&&◌, ◌||◌, not, Bytes, length,
}
use tmuxcc_driver.Prelude.Decimal.{is_digit, decimal_from}

abbrev pub Title : Type 0
Title = List ℕ

abbrev pub esc : ℕ
esc = 0x1b

abbrev pub osc : ℕ
osc = 0x5d

abbrev pub st_bel : ℕ
st_bel = 0x07

abbrev pub st_bs : ℕ
st_bs = 0x5c

abbrev pub semi : ℕ
semi = 0x3b

abbrev pub max_osc_buffer : ℕ
max_osc_buffer = 4096

pub data State : Type 0 where
  idle esc_seen osc_param osc_text in_osc_esc : State

pub record OscTitleSniffer : Type 0 where
  pub state : State
  pub buf : Bytes
  pub is_title_osc : Bool
  pub param_digits : List ℕ

unfoldable pub new_sniffer : OscTitleSniffer
new_sniffer = record { state = idle; buf = []; is_title_osc = false; param_digits = [] }

-- The array that is written from its start: its size, the bytes written, and `outLen`.
pub record Out : Type 0 where
  pub size : ℕ
  pub written : Bytes
  pub out_len : ℕ

unfoldable pub put : ℕ → Out → Out
put b o = record o {
  written = if ltb o.out_len o.size then o.written ++ b ∷ [] else o.written;
  out_len = o.out_len + 1;
}

-- `for (...) out[outLen++] = this._buf[j]`.
unfoldable pub put_all : Bytes → Out → Out
unfolding put
put_all [] o = o
put_all (b ∷ bs) o = put_all bs (put b o)

unfoldable pub reset_osc : OscTitleSniffer → OscTitleSniffer
reset_osc s = record s { state = idle; buf = []; is_title_osc = false; param_digits = [] }

abbrev pub buf_push : ℕ → OscTitleSniffer → OscTitleSniffer
buf_push b s = record s { buf = s.buf ++ b ∷ [] }

-- `parseInt(digits, 10)` is 0 or 2.
abbrev pub is_title_param : List ℕ → Bool
is_title_param [] = false
is_title_param (d ∷ ds) = let ps = decimal_from 0 (d ∷ ds) in (ps == 0) || (ps == 2)

unfoldable pub contains_osc_opener : Bytes → Bool
contains_osc_opener [] = false
contains_osc_opener (b ∷ bs) = (b == esc) || contains_osc_opener bs

pub record Feed : Type 0 where
  pub sniffer : OscTitleSniffer
  pub out : Out
  pub updated_title : Option Title

pub record OscSniffResult : Type 0 where
  pub passthrough : Bytes
  pub updated_title : Option Title

-- The byte behind a sequence that is given up.
unfoldable pub restart : ℕ → Feed → Feed
restart b f =
    if b == esc
    then record f { sniffer = record (reset_osc f.sniffer) { state = esc_seen; buf = esc ∷ [] } }
    else record f { sniffer = reset_osc f.sniffer; out = put b f.out }

abbrev pub walk : Bytes → OscTitleSniffer → Feed
walk chunk s = record {
  sniffer = s;
  out = record { size = length chunk + length s.buf; written = []; out_len = 0 };
  updated_title = none;
}

abbrev pub is_idle : State → Bool
is_idle idle = true
is_idle _ = false

unfoldable pub guarded : OscTitleSniffer → OscTitleSniffer
unfolding reset_osc
guarded s = if leb max_osc_buffer (length s.buf) then reset_osc s else s

module _ (utf8 : Bytes → Option Title) (latin1 : Bytes → Title) where
  abbrev pub decoded : Bytes → Option Title → Title
  decoded bytes none = latin1 bytes
  decoded bytes (some title) = title

  unfoldable pub decode_title : Bytes → Title
  decode_title [] = []
  decode_title (b ∷ bs) = decoded (b ∷ bs) (utf8 (b ∷ bs))

  -- The text behind the first semicolon.
  unfoldable pub extract_title : Bytes → Option Title
  unfolding decode_title
  extract_title [] = none
  extract_title (b ∷ bs) =
      let later = extract_title bs in if b == semi then some (decode_title bs) else later

  abbrev pub or_title : Option Title → Option Title → Option Title
  or_title none old = old
  or_title (some title) old = some title

  unfoldable pub finish : Bytes → Feed → Feed
  finish terminator f =
      if f.sniffer.is_title_osc
      then record f {
        sniffer = reset_osc f.sniffer;
        updated_title = or_title (extract_title f.sniffer.buf) f.updated_title;
      }
      else record f {
        sniffer = reset_osc f.sniffer;
        out = put_all terminator (put_all f.sniffer.buf f.out);
      }

  unfoldable pub finish_bel : Feed → Feed
  unfolding finish
  finish_bel f = finish (st_bel ∷ []) f

  unfoldable pub finish_st : Feed → Feed
  unfolding finish
  finish_st f = finish (esc ∷ st_bs ∷ []) f

  -- The cases of the switch.
  unfoldable pub feed_byte : ℕ → State → Feed → Feed
  feed_byte b idle f =
      if b == esc
      then record f { sniffer = record (buf_push b f.sniffer) { state = esc_seen } }
      else record f { out = put b f.out }
  feed_byte b esc_seen f =
      if b == osc
      then record f {
        sniffer = record (buf_push b f.sniffer) {
          state = osc_param;
          param_digits = [];
          is_title_osc = false;
        };
      }
      else restart b (record f { out = put esc f.out })
  feed_byte b osc_param f =
      if is_digit b
      then record f {
        sniffer = record (buf_push b f.sniffer) { param_digits = f.sniffer.param_digits ++ b ∷ [] };
      }
      else if b == semi
      then record f {
        sniffer = record (buf_push b f.sniffer) {
          is_title_osc = is_title_param f.sniffer.param_digits;
          state = osc_text;
        };
      }
      else if b == st_bel
      then record f {
        sniffer = reset_osc f.sniffer;
        out =
            if is_title_param f.sniffer.param_digits
            then f.out
            else put st_bel (put_all f.sniffer.buf f.out);
      }
      else if b == esc
      then record f { sniffer = record f.sniffer { state = in_osc_esc } }
      else restart b (record f { out = put_all f.sniffer.buf f.out })
  feed_byte b osc_text f =
      if b == st_bel
      then finish_bel f
      else if b == esc
      then record f { sniffer = record f.sniffer { state = in_osc_esc } }
      else record f { sniffer = buf_push b f.sniffer }
  feed_byte b in_osc_esc f =
      if b == st_bs
      then finish_st f
      else (let pushed = record (buf_push esc f.sniffer) { state = osc_text } in
          if b == st_bel
          then finish_bel (record f { sniffer = pushed })
          else if b == esc
          then record f { sniffer = record pushed { state = in_osc_esc } }
          else record f { sniffer = buf_push b pushed })

  unfoldable pub feed_round : ℕ → Feed → Feed
  unfolding feed_byte guarded
  feed_round b f = feed_byte b (guarded f.sniffer).state (record f { sniffer = guarded f.sniffer })

  unfoldable pub feed_loop : Bytes → Feed → Feed
  unfolding feed_round
  feed_loop [] f = f
  feed_loop (b ∷ bs) f = feed_loop bs (feed_round b f)

  unfoldable pub feed : Bytes → OscTitleSniffer → OscTitleSniffer × OscSniffResult
  feed chunk s =
      if is_idle s.state && not (contains_osc_opener chunk)
      then (s, record { passthrough = chunk; updated_title = none })
      else (let f = feed_loop chunk (walk chunk s) in
          (
            f.sniffer,
            record {
              passthrough = if f.out.out_len == length chunk then chunk else f.out.written;
              updated_title = f.updated_title;
            },
          ))

  -- The sniffer behind consecutive chunks.
  unfoldable pub feed_all : List Bytes → OscTitleSniffer → OscTitleSniffer
  unfolding feed
  feed_all [] s = s
  feed_all (c ∷ cs) s = feed_all cs (feed c s).0
