-- ===== src/Parser/TitleSniffer/Tests.antt =====
-- Runs of the title sniffer, and its theorems at them.
use tmuxcc_driver.Prelude.{
  ◌≤◌, ◌≡◌, refl, arith, false, Option, some, List, [], ◌∷◌, ◌++◌, Bytes, length,
}
use tmuxcc_driver.Prelude.Keyed.{codes}
use tmuxcc_driver.Parser.TitleSniffer.{
  Title, esc, st_bs, in_osc_esc, new_sniffer, put, put_all, reset_osc, contains_osc_opener,
  decode_title, extract_title, finish, finish_bel, restart, feed_byte, guarded, feed_round,
  feed_loop, walk, feed, feed_all,
}
use tmuxcc_driver.Parser.TitleSniffer.Fits.{feed_loop_fits}
use tmuxcc_driver.Parser.TitleSniffer.Lost.{feed_split_st, feed_trailing_esc}

abbrev utf8 : Bytes → Option Title
utf8 bytes = some bytes

abbrev latin1 : Bytes → Title
latin1 bytes = bytes

-- A title is taken out of the bytes that are passed through.
title_of_a_shell :
    (feed utf8 latin1 (codes "a" ++ 27 ∷ codes "]2;vim" ++ 7 ∷ codes "b") new_sniffer).1
    ≡ record { passthrough = codes "ab"; updated_title = some (codes "vim") }
unfolding feed contains_osc_opener feed_loop feed_round guarded feed_byte finish_bel finish
    reset_osc put put_all extract_title decode_title restart new_sniffer
title_of_a_shell = refl

abbrev first_half : List Bytes
first_half = (27 ∷ codes "]2;v") ∷ []

feed_loop_fits_example :
    ((feed_loop utf8 latin1
        (codes "im" ++ 7 ∷ [])
        (walk (codes "im" ++ 7 ∷ []) (feed_all utf8 latin1 first_half new_sniffer))).out.out_len
      ≤ (feed_loop utf8 latin1
          (codes "im" ++ 7 ∷ [])
          (walk (codes "im" ++ 7 ∷ []) (feed_all utf8 latin1 first_half new_sniffer))).out.size)
    × (length
          (feed_loop utf8 latin1
            (codes "im" ++ 7 ∷ [])
            (walk (codes "im" ++ 7 ∷ []) (feed_all utf8 latin1 first_half new_sniffer))).out.written
        ≡ (feed_loop utf8 latin1 (codes "im" ++ 7 ∷ []) (
            walk (codes "im" ++ 7 ∷ []) (feed_all utf8 latin1 first_half new_sniffer))).out.out_len)
unfolding feed_all feed contains_osc_opener feed_loop feed_round guarded feed_byte new_sniffer
feed_loop_fits_example = feed_loop_fits utf8 latin1 first_half (codes "im" ++ 7 ∷ []) (λ e. cc e)

-- A hyperlink's OSC 8.
feed_split_st_example :
    (feed utf8 latin1 (st_bs ∷ []) (record {
      state = in_osc_esc;
      buf = 27 ∷ codes "]8;";
      is_title_osc = false;
      param_digits = codes "8";
    })).1.passthrough
    ≡ 27 ∷ codes "]8;" ++ esc ∷ []
feed_split_st_example = feed_split_st utf8 latin1 (27 ∷ codes "]8;") (codes "8") (omega arith)

feed_trailing_esc_example :
    let one = feed utf8 latin1 (esc ∷ []) new_sniffer in
    let two = feed utf8 latin1 (99 ∷ ([] ++ esc ∷ [])) one.0 in
    let three = feed utf8 latin1 (100 ∷ 101 ∷ []) two.0 in
    (one.1.passthrough ≡ [])
    × (two.1.passthrough ≡ 99 ∷ ([] ++ esc ∷ []))
    × (three.1.passthrough ≡ esc ∷ 100 ∷ 101 ∷ [])
feed_trailing_esc_example =
    feed_trailing_esc utf8 latin1 99 [] 100 (101 ∷ []) (omega arith) (omega arith) tt (omega arith)
      (omega arith) (omega arith, tt)
