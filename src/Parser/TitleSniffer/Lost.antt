-- ===== src/Parser/TitleSniffer/Lost.antt =====
-- Where bytes of the pane are lost between two chunks.
use tmuxcc_driver.Prelude.{
  ℕ, ◌+◌, ◌≤◌, ◌<◌, ◌≡◌, ◌≢◌, refl, sym, ◌∙◌, true, false, Option, none, [], ◌∷◌, ◌++◌,
  append_assoc, append-nil, arith, leb, ltb, ◌==◌, Bytes, length, All, length-append, ap,
}
use tmuxcc_driver.Parser.TitleSniffer.{
  Title, esc, osc, st_bs, max_osc_buffer, esc_seen, in_osc_esc, Out, put, put_all, reset_osc,
  finish, finish_st, restart, feed_byte, guarded, feed_round, feed_loop, feed, Feed, idle,
  OscTitleSniffer, new_sniffer, contains_osc_opener, walk,
}

put_all-written :
    (bs : Bytes) (o : Out)
    → o.out_len + length bs ≤ o.size
    → ((put_all bs o).written ≡ o.written ++ bs)
      × ((put_all bs o).size ≡ o.size)
      × ((put_all bs o).out_len ≡ o.out_len + length bs)
unfolding put_all put
put_all-written [] o room = (sym (append-nil o.written), refl, omega arith)
put_all-written (b ∷ bs) o room =
    let fits : ltb o.out_len o.size ≡ true = ground (arith, room) in
    let rest = put_all-written bs (put b o) (omega (arith, room)) in
    (rest.0 ∙ rw fits (append_assoc o.written (b ∷ []) bs), rest.1, omega (arith, rest.2))

module _ (utf8 : Bytes → Option Title) (latin1 : Bytes → Title) where
  -- A sequence that is no title, ended by ST whose ESC came with one chunk and whose backslash comes
  -- alone with the next: what is passed through is the sequence and the ESC, without the backslash.
  pub feed_split_st :
      (buf digits : Bytes)
      → length buf < max_osc_buffer
      → (feed utf8 latin1 (st_bs ∷ []) (record {
        state = in_osc_esc;
        buf = buf;
        is_title_osc = false;
        param_digits = digits;
      })).1.passthrough
        ≡ buf ++ esc ∷ []
  unfolding feed feed_loop feed_round guarded feed_byte finish_st finish put_all put
  feed_split_st buf digits short =
      let low : leb max_osc_buffer (length buf) ≡ false = ground (arith, short) in
      let o : Out = record { size = 1 + length buf; written = []; out_len = 0 } in
      let w = put_all-written buf o (omega arith) in
      let long : ((put st_bs (put esc (put_all buf o))).out_len == 1) ≡ false =
        ground (arith, w.2) in
      let text : (put st_bs (put esc (put_all buf o))).written ≡ buf ++ esc ∷ [] =
        let fits : ltb (put_all buf o).out_len (put_all buf o).size ≡ true =
          ground (arith, w.1, w.2) in
        let full : ltb ((put_all buf o).out_len + 1) (put_all buf o).size ≡ false =
          ground (arith, w.1, w.2) in
        rw (full, fits, w.0) refl in
      rw low (rw long text)

  abbrev resting : Out → Option Title → Feed
  resting o title = record {
    sniffer = record { state = idle; buf = []; is_title_osc = false; param_digits = [] };
    out = o;
    updated_title = title;
  }

  -- An idle sniffer copies the bytes that are no ESC.
  plain_loop :
      (bs : Bytes) (o : Out) (title : Option Title)
      → All (λ b. b ≢ esc) bs
      → feed_loop utf8 latin1 bs (resting o title) ≡ resting (put_all bs o) title
  unfolding feed_loop feed_round feed_byte guarded put_all
  plain_loop [] o title plain = refl
  plain_loop (b ∷ bs) o title plain =
      let other : (b == esc) ≡ false = ground (arith, plain.0) in
      rw other (plain_loop bs (put b o) title plain.1)

  feed_loop-append :
      (xs ys : Bytes) (f : Feed)
      → feed_loop utf8 latin1 (xs ++ ys) f ≡ feed_loop utf8 latin1 ys (feed_loop utf8 latin1 xs f)
  unfolding feed_loop
  feed_loop-append [] ys f = refl
  feed_loop-append (x ∷ xs) ys f = feed_loop-append xs ys (feed_round utf8 latin1 x f)

  -- A sniffer that has collected an ESC.
  abbrev carrying : OscTitleSniffer
  carrying = record { state = esc_seen; buf = esc ∷ []; is_title_osc = false; param_digits = [] }

  -- The walk over bytes that do not go on with the ESC.
  carried_loop :
      (b : ℕ) (bs : Bytes) (o : Out)
      → b ≢ esc
      → b ≢ osc
      → All (λ x. x ≢ esc) bs
      → feed_loop utf8 latin1
          (b ∷ bs)
          (record { sniffer = carrying; out = o; updated_title = none })
        ≡ resting (put_all (esc ∷ b ∷ bs) o) none
  unfolding feed_loop feed_round feed_byte guarded restart reset_osc put_all
  carried_loop b bs o no_esc no_osc plain =
      let other : (b == esc) ≡ false = ground (arith, no_esc) in
      let no_intro : (b == osc) ≡ false = ground (arith, no_osc) in
      rw (no_intro, other) (plain_loop bs (put b (put esc o)) none plain)

  trailing :
      (o : Out)
      → feed_loop utf8 latin1 (esc ∷ []) (resting o none)
        ≡ record { sniffer = carrying; out = o; updated_title = none }
  unfolding feed_loop feed_round feed_byte guarded
  trailing o = refl

  first_chunk :
      (b : ℕ) (bs : Bytes)
      → b ≢ esc
      → b ≢ osc
      → All (λ x. x ≢ esc) bs
      → feed utf8 latin1 (b ∷ (bs ++ esc ∷ [])) carrying
        ≡ (carrying, record { passthrough = b ∷ (bs ++ esc ∷ []); updated_title = none })
  unfolding feed
  first_chunk b bs no_esc no_osc plain =
      let chunk = b ∷ (bs ++ esc ∷ []) in
      let o : Out = record { size = length chunk + 1; written = []; out_len = 0 } in
      let count = length-append bs (esc ∷ []) in
      let p = put_all-written (esc ∷ b ∷ bs) o (omega (arith, count)) in
      let walked : feed_loop utf8 latin1 chunk (walk chunk carrying)
          ≡ record { sniffer = carrying; out = put_all (esc ∷ b ∷ bs) o; updated_title = none } =
        feed_loop-append (b ∷ bs) (esc ∷ []) (walk chunk carrying)
        ∙ ap (λ (f : Feed). feed_loop utf8 latin1 (esc ∷ []) f)
            (carried_loop b bs o no_esc no_osc plain)
        ∙ trailing (put_all (esc ∷ b ∷ bs) o) in
      let all : ((put_all (esc ∷ b ∷ bs) o).out_len == length chunk) ≡ true =
        ground (arith, p.2, count) in
      rw walked (rw all refl)

  next_chunk :
      (c : ℕ) (cs : Bytes)
      → c ≢ esc
      → c ≢ osc
      → All (λ x. x ≢ esc) cs
      → (feed utf8 latin1 (c ∷ cs) carrying).1.passthrough ≡ esc ∷ c ∷ cs
  unfolding feed
  next_chunk c cs no_esc no_osc plain =
      let chunk = c ∷ cs in
      let o : Out = record { size = length chunk + 1; written = []; out_len = 0 } in
      let p = put_all-written (esc ∷ c ∷ cs) o (omega arith) in
      let more : ((put_all (esc ∷ c ∷ cs) o).out_len == length chunk) ≡ false =
        ground (arith, p.2) in
      rw (carried_loop c cs o no_esc no_osc plain) (rw more p.0)

  -- A new sniffer is fed an ESC alone, then a chunk of bytes that are no ESC, the first one no bracket,
  -- with an ESC behind them, and then another chunk of such bytes. It passes through nothing, the
  -- second chunk as it is, and the third with an ESC before it: the first ESC is lost, and the second
  -- is passed through twice.
  pub feed_trailing_esc :
      (b : ℕ) (bs : Bytes) (c : ℕ) (cs : Bytes)
      → b ≢ esc
      → b ≢ osc
      → All (λ x. x ≢ esc) bs
      → c ≢ esc
      → c ≢ osc
      → All (λ x. x ≢ esc) cs
      → let one = feed utf8 latin1 (esc ∷ []) new_sniffer in
        let two = feed utf8 latin1 (b ∷ (bs ++ esc ∷ [])) one.0 in
        let three = feed utf8 latin1 (c ∷ cs) two.0 in
        (one.1.passthrough ≡ [])
        × (two.1.passthrough ≡ b ∷ (bs ++ esc ∷ []))
        × (three.1.passthrough ≡ esc ∷ c ∷ cs)
  feed_trailing_esc b bs c cs no_esc no_osc plain no_esc' no_osc' plain' =
      let one : feed utf8 latin1 (esc ∷ []) new_sniffer
          ≡ (carrying, record { passthrough = []; updated_title = none }) =
        unfold feed contains_osc_opener feed_loop feed_round feed_byte guarded new_sniffer in
        refl in
      let two = first_chunk b bs no_esc no_osc plain in
      rw (one, two) (refl, refl, next_chunk c cs no_esc' no_osc' plain')
