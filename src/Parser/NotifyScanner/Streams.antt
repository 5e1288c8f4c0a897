-- ===== src/Parser/NotifyScanner/Streams.antt =====
-- Whole streams: chunks of any size, and what is heard in them.
use tmuxcc_driver.Prelude.{
  ℕ, suc, ◌+◌, ◌≤◌, ◌≡◌, ◌≢◌, refl, ap, ◌∙◌, true, false, Option, some, List, [], ◌∷◌, ◌++◌,
  append_assoc, append-nil, arith, leb, ltb, ◌==◌, Bytes, length, concat, length-append, All,
}
use tmuxcc_driver.Parser.OscContent.{Chars, PaneNotifyDetection, parse_osc_content}
use tmuxcc_driver.Parser.NotifyScanner.{
  bel, esc_code, osc_intro, st_bs, is_string_intro, max_osc_bytes, idle, osc, str,
  PaneNotifyScanner, new_scanner, bell_detection, emitted, scan_all,
}
use tmuxcc_driver.Parser.NotifyScanner.Machine.{
  Machine, start, Step, text_of, finish, at_idle, take_byte, take_all, take_all-append,
}
use tmuxcc_driver.Parser.NotifyScanner.Array.{new_scanner-Holds}
use tmuxcc_driver.Parser.NotifyScanner.Loop.{scan_all_lem}

-- The pieces of a pane's output.
pub data Terminator : Type 0 where
  by_bel by_st : Terminator

pub data Segment : Type 0 where
  plain : Bytes → Segment
  ring : Segment
  escaped_bel : Segment
  escape : ℕ → Segment
  osc_sequence : Bytes → Terminator → Segment
  string_sequence : ℕ → Bytes → Terminator → Segment

abbrev pub terminator : Terminator → Bytes
terminator by_bel = bel ∷ []
terminator by_st = esc_code ∷ st_bs ∷ []

unfoldable pub render : Segment → Bytes
render (plain bytes) = bytes
render ring = bel ∷ []
render escaped_bel = esc_code ∷ bel ∷ []
render (escape b) = esc_code ∷ b ∷ []
render (osc_sequence body t) = esc_code ∷ osc_intro ∷ (body ++ terminator t)
render (string_sequence intro body t) = esc_code ∷ intro ∷ (body ++ terminator t)

unfoldable pub render_all : List Segment → Bytes
unfolding render
render_all [] = []
render_all (g ∷ gs) = render g ++ render_all gs

abbrev pub IsPlain : ℕ → Type 0
IsPlain b = (b ≢ bel) × (b ≢ esc_code)

abbrev pub IsSegment : Segment → Type 0
IsSegment (plain bytes) = All IsPlain bytes
IsSegment ring = Unit
IsSegment escaped_bel = Unit
IsSegment (escape b) = (b ≢ bel) × (b ≢ osc_intro) × (is_string_intro b ≡ false) × (b ≢ esc_code)
IsSegment (osc_sequence body t) = All IsPlain body × (length body ≤ max_osc_bytes)
IsSegment (string_sequence intro body t) =
    (is_string_intro intro ≡ true) × All IsPlain body × (length body ≤ max_osc_bytes)

module _ (utf8 : Bytes → Option Chars) (latin1 : Bytes → Chars) where
  unfoldable pub heard : Segment → List PaneNotifyDetection
  heard ring = bell_detection ∷ []
  heard (osc_sequence body t) = emitted (parse_osc_content (text_of utf8 latin1 body))
  heard _ = []

  unfoldable pub heard_all : List Segment → List PaneNotifyDetection
  unfolding heard
  heard_all [] = []
  heard_all (g ∷ gs) = heard g ++ heard_all gs

  plain_lem :
      (bs content : Bytes) (n : ℕ)
      → All IsPlain bs
      → take_all utf8 latin1 bs (record { state = idle; content = content; str_len = n })
        ≡ (record { state = idle; content = content; str_len = n }, [])
  unfolding take_all take_byte at_idle
  plain_lem [] content n free = refl
  plain_lem (b ∷ bs) content n free =
      let no_bel : (b == bel) ≡ false = ground (arith, free.0.0) in
      let no_esc : (b == esc_code) ≡ false = ground (arith, free.0.1) in
      rw (no_bel, no_esc) (rw (plain_lem bs content n free.1) refl)

  osc_body :
      (bs content : Bytes) (n : ℕ)
      → All IsPlain bs
      → length content + length bs ≤ max_osc_bytes
      → take_all utf8 latin1 bs (record { state = osc; content = content; str_len = n })
        ≡ (record { state = osc; content = content ++ bs; str_len = n }, [])
  unfolding take_all take_byte
  osc_body [] content n free short = rw (append-nil content) refl
  osc_body (b ∷ bs) content n free short =
      let no_bel : (b == bel) ≡ false = ground (arith, free.0.0) in
      let no_esc : (b == esc_code) ≡ false = ground (arith, free.0.1) in
      let room : leb max_osc_bytes (length content) ≡ false = ground (arith, short) in
      let later =
        osc_body bs (content ++ b ∷ []) n free.1
          (rw (length-append content (b ∷ [])) (omega (arith, short))) in
      rw (no_bel, no_esc, room) (rw (later, append_assoc content (b ∷ []) bs) refl)

  string_body :
      (bs content : Bytes) (n : ℕ)
      → All IsPlain bs
      → n + length bs ≤ max_osc_bytes
      → take_all utf8 latin1 bs (record { state = str; content = content; str_len = n })
        ≡ (record { state = str; content = content; str_len = n + length bs }, [])
  unfolding take_all take_byte
  string_body [] content n free short = rw (let e : n + 0 ≡ n = omega arith in e) refl
  string_body (b ∷ bs) content n free short =
      let no_bel : (b == bel) ≡ false = ground (arith, free.0.0) in
      let no_esc : (b == esc_code) ≡ false = ground (arith, free.0.1) in
      let room : ltb max_osc_bytes (n + 1) ≡ false = ground (arith, short) in
      let later = string_body bs content (n + 1) free.1 (omega (arith, short)) in
      let e : n + suc (length bs) ≡ n + 1 + length bs = omega arith in
      rw (no_bel, no_esc, room, e) (rw later refl)

  -- What stands between two segments.
  abbrev Ends : List PaneNotifyDetection → Step → Type 0
  Ends out t =
      (content : Bytes) × (n : ℕ) × (t
        ≡ (record { state = idle; content = content; str_len = n }, out))

  close_osc :
      (t : Terminator) (body : Bytes) (n : ℕ)
      → Ends (emitted (parse_osc_content (text_of utf8 latin1 body))) (
          take_all utf8 latin1 (terminator t) (record { state = osc; content = body; str_len = n }))
  unfolding take_all take_byte finish
  close_osc by_bel body n =
      ([], n, rw (append-nil (emitted (parse_osc_content (text_of utf8 latin1 body)))) refl)
  close_osc by_st body n =
      ([], n, rw (append-nil (emitted (parse_osc_content (text_of utf8 latin1 body)))) refl)

  close_string :
      (t : Terminator) (content : Bytes) (n : ℕ)
      → Ends [] (
          take_all utf8 latin1
            (terminator t)
            (record { state = str; content = content; str_len = n }))
  unfolding take_all take_byte
  close_string by_bel content n = (content, n, refl)
  close_string by_st content n = (content, n, refl)

  behind_body :
      (body tail : Bytes) (m m' : Machine) (out : List PaneNotifyDetection)
      → take_all utf8 latin1 body m ≡ (m', [])
      → Ends out (take_all utf8 latin1 tail m')
      → Ends out (take_all utf8 latin1 (body ++ tail) m)
  behind_body body tail m m' out e ends =
      (ends.0, ends.1, rw (take_all-append utf8 latin1 body tail m, e) ends.2)

  -- A segment that starts on an idle machine leaves it idle.
  segment_lem :
      (g : Segment) (content : Bytes) (n : ℕ)
      → IsSegment g
      → Ends (heard g) (
          take_all utf8 latin1 (render g) (record { state = idle; content = content; str_len = n }))
  unfolding render heard take_all take_byte at_idle
  segment_lem (plain bytes) content n w = (content, n, plain_lem bytes content n w)
  segment_lem ring content n w = (content, n, refl)
  segment_lem escaped_bel content n w = (content, n, refl)
  segment_lem (escape b) content n w =
      let no_osc : (b == osc_intro) ≡ false = ground (arith, w.1) in
      let no_esc : (b == esc_code) ≡ false = ground (arith, w.3) in
      (content, n, rw (no_osc, w.2, no_esc) refl)
  segment_lem (osc_sequence body t) content n w =
      behind_body body (terminator t) (record { state = osc; content = []; str_len = n })
        (record { state = osc; content = body; str_len = n })
        (emitted (parse_osc_content (text_of utf8 latin1 body)))
        (osc_body body [] n w.0 (omega (arith, w.1))) (close_osc t body n)
  segment_lem (string_sequence intro body t) content n w =
      let no_osc : (intro == osc_intro) ≡ false = ground (arith, w.0) in
      let ends : Ends [] (
          take_all utf8 latin1 (body ++ terminator t)
            (record { state = str; content = content; str_len = 0 })) =
        behind_body body (terminator t) (record { state = str; content = content; str_len = 0 })
          (record { state = str; content = content; str_len = 0 + length body }) []
          (string_body body content 0 w.1 (omega (arith, w.2)))
          (close_string t content (0 + length body)) in
      rw (no_osc, w.0) ends

  segments_lem :
      (gs : List Segment) (content : Bytes) (n : ℕ)
      → All IsSegment gs
      → Ends (heard_all gs) (
          take_all utf8 latin1
            (render_all gs)
            (record { state = idle; content = content; str_len = n }))
  unfolding render_all heard_all take_all
  segments_lem [] content n w = (content, n, refl)
  segments_lem (g ∷ gs) content n w =
      let first = segment_lem g content n w.0 in
      let rest = segments_lem gs first.0 first.1 w.1 in
      (
        rest.0,
        rest.1,
        rw
            (
              take_all-append utf8 latin1 (render g) (render_all gs)
                  (record { state = idle; content = content; str_len = n }),
              first.2,
              rest.2,
            )
            refl,
      )

  -- For all chunks of a pane's output, of any sizes, on a new scanner: the scanner ends without an
  -- exception, within two rounds of the loop for each byte, it finds what the machine that reads the
  -- joined bytes one by one finds, and its array keeps at most 4096 bytes with the collected ones
  -- inside it.
  pub scan_all_ends :
      (chunks : List Bytes)
      → (s : PaneNotifyScanner) × (scan_all utf8 latin1 chunks new_scanner
          ≡ some (s, (take_all utf8 latin1 (concat chunks) start).1))
        × (s.buf_len ≤ length s.buf)
        × (length s.buf ≤ max_osc_bytes)
  scan_all_ends chunks =
      let r = scan_all_lem utf8 latin1 chunks new_scanner start new_scanner-Holds in
      (
        r.0,
        r.1,
        rw
            (
              r.2.buf_len,
              r.2.buf,
              length-append (take_all utf8 latin1 (concat chunks) start).0.content r.2.spare,
            )
            (omega arith),
        r.2.bounded,
      )

  -- For all chunks, of any sizes, that carry a sequence of segments (bytes without BEL and ESC, bells,
  -- escapes that open no string, OSC sequences and DCS, SOS, PM and APC strings with a body of at most
  -- 4096 bytes without BEL and ESC, ended by BEL or ST, and BELs with an ESC before them): a new
  -- scanner finds a bell at each bell, for each OSC sequence what its decoded content says, in their
  -- order, and nothing else. So it finds no bell at a BEL that ends a sequence, and none at a BEL
  -- directly behind an ESC, which is outside every string and is lost.
  pub scan_all-render_all :
      (chunks : List Bytes) (segments : List Segment)
      → All IsSegment segments
      → concat chunks ≡ render_all segments
      → (s : PaneNotifyScanner) × (scan_all utf8 latin1 chunks new_scanner
          ≡ some (s, heard_all segments))
  scan_all-render_all chunks segments w e =
      let r = scan_all_ends chunks in
      (
        r.0,
        r.1
            ∙ ap (λ (out : List PaneNotifyDetection). some (r.0, out))
                (ap (λ (bs : Bytes). (take_all utf8 latin1 bs start).1) e
                  ∙ ap (λ (t : Step). t.1) (segments_lem segments [] 0 w).2),
      )
