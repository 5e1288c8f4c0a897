-- ===== src/Parser/TitleSniffer/Fits.antt =====
-- Where the writes of `feed` stay within its array.
use tmuxcc_driver.Prelude.{
  ℕ, suc, ◌+◌, ◌≤◌, ◌≡◌, ◌≢◌, refl, ◌∙◌, true, false, Option, List, [], ◌∷◌, ◌++◌, arith, leb, ltb,
  ◌==◌, Bytes, length, length-append, Bool-cases, inl, inr,
}
use tmuxcc_driver.Prelude.Decimal.{is_digit}
use tmuxcc_driver.Parser.TitleSniffer.{
  Title, esc, osc, st_bel, st_bs, semi, max_osc_buffer, State, idle, esc_seen, osc_param, osc_text,
  in_osc_esc, OscTitleSniffer, Out, put, put_all, reset_osc, is_title_param, Feed, finish,
  finish_bel, finish_st, restart, feed_byte, guarded, feed_round, feed_loop, walk, feed_all,
  new_sniffer,
}
use tmuxcc_driver.Parser.TitleSniffer.Seen.{HasEsc, feed_all-HasEsc}

-- The ESC that is remembered by the state alone.
abbrev pend : State → ℕ
pend in_osc_esc = 1
pend _ = 0

-- There is room for what is collected and for `left` more bytes, and every write so far was kept.
record Fits (left : ℕ) (f : Feed) : Type 0 where
  room : f.out.out_len + length f.sniffer.buf + pend f.sniffer.state + left ≤ f.out.size
  kept : length f.out.written ≡ f.out.out_len
  seen : HasEsc f.sniffer.state f.sniffer.buf

record Puts (n : ℕ) (o o' : Out) : Type 0 where
  size : o'.size ≡ o.size
  out_len : o'.out_len ≡ o.out_len + n
  kept : length o'.written ≡ o'.out_len

put_lem :
    (b : ℕ) (o : Out) → o.out_len + 1 ≤ o.size → length o.written ≡ o.out_len → Puts 1 o (put b o)
unfolding put
put_lem b o room kept =
    let fits : ltb o.out_len o.size ≡ true = ground (arith, room) in
    record {
      size = refl;
      out_len = refl;
      kept = rw (fits, length-append o.written (b ∷ []), kept) refl;
    }

put_all_lem :
    (bs : Bytes) (o : Out)
    → o.out_len + length bs ≤ o.size
    → length o.written ≡ o.out_len
    → Puts (length bs) o (put_all bs o)
unfolding put_all
put_all_lem [] o room kept = record { size = refl; out_len = omega arith; kept = kept }
put_all_lem (b ∷ bs) o room kept =
    let p = put_lem b o (omega (arith, room)) kept in
    let q = put_all_lem bs (put b o) (omega (arith, room, p.size, p.out_len)) p.kept in
    record { size = q.size ∙ p.size; out_len = omega (arith, q.out_len, p.out_len); kept = q.kept }

restart_lem :
    (b left : ℕ) (f : Feed)
    → f.out.out_len + 1 + left ≤ f.out.size
    → length f.out.written ≡ f.out.out_len
    → Fits left (restart b f)
unfolding restart reset_osc
restart_lem b left f room kept =
    let p = put_lem b f.out (omega (arith, room)) kept in
    elim (Bool-cases (b == esc)) [
      | inl t ↦ rw t (record { room = omega (arith, room); kept = kept; seen = omega arith })
      | inr g ↦
          rw g (record { room = omega (arith, room, p.size, p.out_len); kept = p.kept; seen = tt })
    ]

pend_lem : (x : State) → x ≢ in_osc_esc → pend x ≡ 0
pend_lem idle free = refl
pend_lem esc_seen free = refl
pend_lem osc_param free = refl
pend_lem osc_text free = refl
pend_lem in_osc_esc free = absurd (free refl)

module _ (utf8 : Bytes → Option Title) (latin1 : Bytes → Title) where
  finish_lem :
      (terminator : Bytes) (left : ℕ) (f : Feed)
      → f.out.out_len + length f.sniffer.buf + length terminator + left ≤ f.out.size
      → length f.out.written ≡ f.out.out_len
      → Fits left (finish utf8 latin1 terminator f)
  unfolding finish reset_osc
  finish_lem terminator left f room kept =
      let p = put_all_lem f.sniffer.buf f.out (omega (arith, room)) kept in
      let q =
        put_all_lem terminator (put_all f.sniffer.buf f.out)
          (omega (arith, room, p.size, p.out_len)) p.kept in
      elim (Bool-cases f.sniffer.is_title_osc) [
        | inl t ↦ simp t (record { room = omega (arith, room); kept = kept; seen = tt })
        | inr g ↦ simp g (record {
          room = omega (arith, room, p.size, p.out_len, q.size, q.out_len);
          kept = q.kept;
          seen = tt;
        })
      ]

  feed_byte_lem :
      (b left : ℕ) (x : State) (f : Feed)
      → f.sniffer.state ≡ x
      → f.out.out_len + length f.sniffer.buf + pend x + suc left ≤ f.out.size
      → length f.out.written ≡ f.out.out_len
      → HasEsc x f.sniffer.buf
      → Fits left (feed_byte utf8 latin1 b x f)
  unfolding feed_byte finish_bel finish_st reset_osc
  feed_byte_lem b left idle f e room kept seen =
      let longer = length-append f.sniffer.buf (b ∷ []) in
      let p = put_lem b f.out (omega (arith, room)) kept in
      elim (Bool-cases (b == esc)) [
        | inl t ↦ rw t (record {
          room = omega (arith, room, longer);
          kept = kept;
          seen = omega (arith, longer);
        })
        | inr g ↦ rw g (record {
          room = rw e (omega (arith, room, p.size, p.out_len));
          kept = p.kept;
          seen = rw e tt;
        })
      ]
  feed_byte_lem b left esc_seen f e room kept seen =
      let longer = length-append f.sniffer.buf (b ∷ []) in
      let p = put_lem esc f.out (omega (arith, room)) kept in
      elim (Bool-cases (b == osc)) [
        | inl t ↦ rw t (record { room = omega (arith, room, longer); kept = kept; seen = tt })
        | inr g ↦ rw g (
            restart_lem b left (record f { out = put esc f.out })
              (omega (arith, room, seen, p.size, p.out_len)) p.kept)
      ]
  feed_byte_lem b left osc_param f e room kept seen =
      let longer = length-append f.sniffer.buf (b ∷ []) in
      let p = put_all_lem f.sniffer.buf f.out (omega (arith, room)) kept in
      let q =
        put_lem st_bel (put_all f.sniffer.buf f.out) (omega (arith, room, p.size, p.out_len))
          p.kept in
      elim (Bool-cases (is_digit b)) [
        | inl t ↦
            rw t (record { room = rw e (omega (arith, room, longer)); kept = kept; seen = rw e tt })
        | inr g ↦ rw g (elim (Bool-cases (b == semi)) [
          | inl t ↦ rw t (record { room = omega (arith, room, longer); kept = kept; seen = tt })
          | inr k ↦ rw k (elim (Bool-cases (b == st_bel)) [
            | inl t ↦ rw t (elim (Bool-cases (is_title_param f.sniffer.param_digits)) [
              | inl y ↦ rw y (record { room = omega (arith, room); kept = kept; seen = tt })
              | inr n ↦ rw n (record {
                room = omega (arith, room, p.size, p.out_len, q.size, q.out_len);
                kept = q.kept;
                seen = tt;
              })
            ])
            | inr l ↦ rw l (elim (Bool-cases (b == esc)) [
              | inl t ↦ rw t (record { room = omega (arith, room); kept = kept; seen = tt })
              | inr m ↦ rw m (
                  restart_lem b left (record f { out = put_all f.sniffer.buf f.out })
                    (omega (arith, room, p.size, p.out_len)) p.kept)
            ])
          ])
        ])
      ]
  feed_byte_lem b left osc_text f e room kept seen =
      let longer = length-append f.sniffer.buf (b ∷ []) in
      elim (Bool-cases (b == st_bel)) [
        | inl t ↦ rw t (finish_lem (st_bel ∷ []) left f (omega (arith, room)) kept)
        | inr g ↦ rw g (elim (Bool-cases (b == esc)) [
          | inl t ↦ rw t (record { room = omega (arith, room); kept = kept; seen = tt })
          | inr k ↦
              rw k
                (record { room = rw e (omega (arith, room, longer)); kept = kept; seen = rw e tt })
        ])
      ]
  feed_byte_lem b left in_osc_esc f e room kept seen =
      let pushed = record f.sniffer { buf = f.sniffer.buf ++ esc ∷ []; state = osc_text } in
      let longer = length-append f.sniffer.buf (esc ∷ []) in
      let longest = length-append (f.sniffer.buf ++ esc ∷ []) (b ∷ []) in
      elim (Bool-cases (b == st_bs)) [
        | inl t ↦ rw t (finish_lem (esc ∷ st_bs ∷ []) left f (omega (arith, room)) kept)
        | inr g ↦ rw g (elim (Bool-cases (b == st_bel)) [
          | inl t ↦ rw t (
              finish_lem (st_bel ∷ []) left (record f { sniffer = pushed })
                (omega (arith, room, longer)) kept)
          | inr k ↦ rw k (elim (Bool-cases (b == esc)) [
            | inl t ↦ rw t (record { room = omega (arith, room, longer); kept = kept; seen = tt })
            | inr m ↦
                rw m
                  (record { room = omega (arith, room, longer, longest); kept = kept; seen = tt })
          ])
        ])
      ]

  feed_round_lem :
      (b left : ℕ) (f : Feed) → Fits (suc left) f → Fits left (feed_round utf8 latin1 b f)
  unfolding feed_round guarded reset_osc
  feed_round_lem b left f h = elim (Bool-cases (leb max_osc_buffer (length f.sniffer.buf))) [
    | inl full ↦ rw full (
        feed_byte_lem b left idle
          (record f {
            sniffer = record f.sniffer {
              state = idle;
              buf = [];
              is_title_osc = false;
              param_digits = [];
            };
          })
          refl (omega (arith, h.room)) h.kept tt)
    | inr low ↦ rw low (feed_byte_lem b left f.sniffer.state f refl h.room h.kept h.seen)
  ]

  feed_loop_lem : (bs : Bytes) (f : Feed) → Fits (length bs) f → Fits 0 (feed_loop utf8 latin1 bs f)
  unfolding feed_loop
  feed_loop_lem [] f h = h
  feed_loop_lem (b ∷ bs) f h =
      feed_loop_lem bs (feed_round utf8 latin1 b f) (feed_round_lem b (length bs) f h)

  fresh :
      (chunk : Bytes) (s : OscTitleSniffer)
      → s.state ≢ in_osc_esc
      → HasEsc s.state s.buf
      → Fits (length chunk) (walk chunk s)
  fresh chunk s free seen =
      let none_pends : pend s.state ≡ 0 = pend_lem s.state free in
      record { room = omega (arith, none_pends); kept = refl; seen = seen }

  -- After any chunks on a new sniffer, where the last one did not end in an ESC inside an OSC
  -- sequence, the walk over the next chunk writes all its bytes inside the array that `feed`
  -- allots for them.
  pub feed_loop_fits :
      (chunks : List Bytes) (chunk : Bytes)
      → (feed_all utf8 latin1 chunks new_sniffer).state ≢ in_osc_esc
      → ((feed_loop utf8 latin1 chunk
            (walk chunk (feed_all utf8 latin1 chunks new_sniffer))).out.out_len
          ≤ (feed_loop utf8 latin1 chunk
              (walk chunk (feed_all utf8 latin1 chunks new_sniffer))).out.size)
        × (length
              (feed_loop utf8 latin1 chunk
                (walk chunk (feed_all utf8 latin1 chunks new_sniffer))).out.written
            ≡ (feed_loop utf8 latin1 chunk
                (walk chunk (feed_all utf8 latin1 chunks new_sniffer))).out.out_len)
  feed_loop_fits chunks chunk free =
      let s = feed_all utf8 latin1 chunks new_sniffer in
      let h = feed_loop_lem chunk (walk chunk s) (
        fresh chunk s free
          (feed_all-HasEsc utf8 latin1 chunks new_sniffer (unfold new_sniffer in tt))) in
      (omega (arith, h.room), h.kept)
