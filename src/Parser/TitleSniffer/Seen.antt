-- ===== src/Parser/TitleSniffer/Seen.antt =====
-- A sniffer that has seen an ESC has collected it, whatever it is fed.
use tmuxcc_driver.Prelude.{
  ℕ, ◌≤◌, ◌≡◌, refl, Option, List, [], ◌∷◌, ◌++◌, arith, ◌==◌, ◌&&◌, not, Bytes, length,
  length-append, Bool-cases, inl, inr,
}
use tmuxcc_driver.Prelude.Decimal.{is_digit}
use tmuxcc_driver.Parser.TitleSniffer.{
  Title, esc, osc, st_bel, st_bs, semi, State, idle, esc_seen, osc_param, osc_text, in_osc_esc,
  OscTitleSniffer, put, put_all, reset_osc, Feed, finish, finish_bel, finish_st, restart, feed_byte,
  guarded, feed_round, feed_loop, walk, is_idle, contains_osc_opener, feed, feed_all,
}

abbrev pub HasEsc : State → Bytes → Type 0
HasEsc esc_seen buf = 1 ≤ length buf
HasEsc _ buf = Unit

module _ (utf8 : Bytes → Option Title) (latin1 : Bytes → Title) where
  finish_seen :
      (terminator : Bytes) (f : Feed)
      → HasEsc
          (finish utf8 latin1 terminator f).sniffer.state
          (finish utf8 latin1 terminator f).sniffer.buf
  unfolding finish reset_osc
  finish_seen terminator f = elim (Bool-cases f.sniffer.is_title_osc) [
    | inl t ↦ simp t tt
    | inr g ↦ simp g tt
  ]

  restart_seen : (b : ℕ) (f : Feed) → HasEsc (restart b f).sniffer.state (restart b f).sniffer.buf
  unfolding restart reset_osc
  restart_seen b f = elim (Bool-cases (b == esc)) [ inl t ↦ rw t (omega arith) | inr g ↦ rw g tt ]

  byte_seen :
      (b : ℕ) (x : State) (f : Feed)
      → f.sniffer.state ≡ x
      → HasEsc (feed_byte utf8 latin1 b x f).sniffer.state (feed_byte utf8 latin1 b x f).sniffer.buf
  unfolding feed_byte finish_bel finish_st reset_osc
  byte_seen b idle f e = elim (Bool-cases (b == esc)) [
    | inl t ↦ rw t (omega (arith, length-append f.sniffer.buf (b ∷ [])))
    | inr g ↦ rw (g, e) tt
  ]
  byte_seen b esc_seen f e = elim (Bool-cases (b == osc)) [
    | inl t ↦ rw t tt
    | inr g ↦ rw g (restart_seen b (record f { out = put esc f.out }))
  ]
  byte_seen b osc_param f e = elim (Bool-cases (is_digit b)) [
    | inl t ↦ rw (t, e) tt
    | inr g ↦ rw g (elim (Bool-cases (b == semi)) [
      | inl t ↦ rw t tt
      | inr k ↦ rw k (elim (Bool-cases (b == st_bel)) [
        | inl t ↦ rw t tt
        | inr l ↦ rw l (elim (Bool-cases (b == esc)) [
          | inl t ↦ rw t tt
          | inr m ↦ rw m (restart_seen b (record f { out = put_all f.sniffer.buf f.out }))
        ])
      ])
    ])
  ]
  byte_seen b osc_text f e = elim (Bool-cases (b == st_bel)) [
    | inl t ↦ rw t (finish_seen (st_bel ∷ []) f)
    | inr g ↦ rw g (elim (Bool-cases (b == esc)) [ inl t ↦ rw t tt | inr k ↦ rw (k, e) tt ])
  ]
  byte_seen b in_osc_esc f e = elim (Bool-cases (b == st_bs)) [
    | inl t ↦ rw t (finish_seen (esc ∷ st_bs ∷ []) f)
    | inr g ↦ rw g (elim (Bool-cases (b == st_bel)) [
      | inl t ↦ rw t (
          finish_seen (st_bel ∷ []) (record f {
            sniffer = record f.sniffer { buf = f.sniffer.buf ++ esc ∷ []; state = osc_text };
          }))
      | inr k ↦ rw k (elim (Bool-cases (b == esc)) [ inl t ↦ rw t tt | inr m ↦ rw m tt ])
    ])
  ]

  round_seen :
      (b : ℕ) (f : Feed)
      → HasEsc (feed_round utf8 latin1 b f).sniffer.state (feed_round utf8 latin1 b f).sniffer.buf
  unfolding feed_round
  round_seen b f =
      byte_seen b (guarded f.sniffer).state (record f { sniffer = guarded f.sniffer }) refl

  -- The same for a whole chunk.
  walk_HasEsc :
      (bs : Bytes) (f : Feed)
      → HasEsc f.sniffer.state f.sniffer.buf
      → HasEsc (feed_loop utf8 latin1 bs f).sniffer.state (feed_loop utf8 latin1 bs f).sniffer.buf
  unfolding feed_loop
  walk_HasEsc [] f seen = seen
  walk_HasEsc (b ∷ bs) f seen = walk_HasEsc bs (feed_round utf8 latin1 b f) (round_seen b f)

  feed-HasEsc :
      (chunk : Bytes) (s : OscTitleSniffer)
      → HasEsc s.state s.buf
      → HasEsc (feed utf8 latin1 chunk s).0.state (feed utf8 latin1 chunk s).0.buf
  unfolding feed
  feed-HasEsc chunk s seen =
      elim (Bool-cases (is_idle s.state && not (contains_osc_opener chunk))) [
        | inl fast ↦ rw fast seen
        | inr slow ↦ rw slow (walk_HasEsc chunk (walk chunk s) seen)
      ]

  pub feed_all-HasEsc :
      (chunks : List Bytes) (s : OscTitleSniffer)
      → HasEsc s.state s.buf
      → HasEsc (feed_all utf8 latin1 chunks s).state (feed_all utf8 latin1 chunks s).buf
  unfolding feed_all
  feed_all-HasEsc [] s seen = seen
  feed_all-HasEsc (c ∷ cs) s seen =
      feed_all-HasEsc cs (feed utf8 latin1 c s).0 (feed-HasEsc c s seen)
