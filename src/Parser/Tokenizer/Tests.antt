-- ===== src/Parser/Tokenizer/Tests.antt =====
-- Runs of the tokenizer.
use tmuxcc_driver.Prelude.{
  ◌≡◌, refl, true, some, List, [], ◌∷◌, ◌++◌, arith, Bytes, All, take, drop,
}
use tmuxcc_driver.Prelude.Keyed.{matches_list, codes}
use tmuxcc_driver.Parser.Tokens.{dcs_open, dcs_close}
use tmuxcc_driver.Parser.Tokenizer.{
  esc, backslash, dcs_intro, maybe_st, outside, ControlTokenizer, new_tokenizer, extract_word,
  skip_keyword, parse_guard_fields, try_parse_guard_line, strip_cr, after_space, read_field_loop,
}
use tmuxcc_driver.Parser.Tokenizer.Blocks.{ReplyText, IsReplyText, IsNotice}
use tmuxcc_driver.Parser.Tokenizer.Session.{
  Written, line, block, IsWritten, session, tokens, push_all, push_all-session,
  push_all-closed_session,
}

-- A notification, and a reply whose body holds an escape sequence and a line with `%`.
abbrev pub window_add : Bytes
window_add = codes "%window-add @1"

abbrev pub reply_text : ReplyText
reply_text = record {
  ok = true;
  guard = record { timestamp = codes "17"; command_number = codes "2"; flags = codes "1" };
  lines = (esc ∷ backslash ∷ codes "[0m") ∷ codes "%end of it" ∷ [];
}

abbrev pub written : List Written
written = line window_add ∷ block reply_text ∷ line window_add ∷ []

window_add-IsNotice : IsNotice window_add
unfolding extract_word strip_cr matches_list
window_add-IsNotice = record { plain = ground arith; sigil = refl; no_cr = refl; keyword = refl }

reply_text-IsReplyText : IsReplyText reply_text
unfolding extract_word skip_keyword strip_cr matches_list parse_guard_fields try_parse_guard_line
    after_space read_field_loop
reply_text-IsReplyText = record {
  numbers = record {
    timestamp = (refl, (refl, tt));
    command_number = (refl, tt);
    flags = (refl, tt);
  };
  body = ((ground arith, refl), ((ground arith, refl), tt));
}

pub written-IsWritten : All IsWritten written
written-IsWritten = (window_add-IsNotice, (reply_text-IsReplyText, (window_add-IsNotice, tt)))

-- Cut within the intro, within a line and within a block.
abbrev pub pieces : Bytes → List Bytes
pieces bytes =
    take 3 bytes ∷ take 20 (drop 3 bytes) ∷ [] ∷ take 30 (drop 23 bytes) ∷ drop 53 bytes ∷ []

push_all-session_example :
    (t : ControlTokenizer) × (push_all new_tokenizer (pieces (dcs_intro ++ session written []))
      ≡ some (t, dcs_open ∷ tokens written))
push_all-session_example =
    push_all-session written (pieces (dcs_intro ++ session written [])) written-IsWritten refl

push_all-closed_session_example :
    (t : ControlTokenizer) × (push_all new_tokenizer
        (pieces (dcs_intro ++ session written (esc ∷ backslash ∷ codes "%exit")))
      ≡ some (t, dcs_open ∷ (tokens written ++ dcs_close ∷ [])))
push_all-closed_session_example =
    push_all-closed_session written (codes "%exit")
      (pieces (dcs_intro ++ session written (esc ∷ backslash ∷ codes "%exit"))) written-IsWritten
      refl

-- In the middle of a line, behind an escape.
abbrev busy : ControlTokenizer
busy = record {
  line_buf = codes "%a" ∷ codes "b" ∷ [];
  line_buf_len = 3;
  dcs_state = maybe_st;
  dcs_intro_matched = 0;
  block_state = outside;
}
