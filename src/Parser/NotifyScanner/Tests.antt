-- ===== src/Parser/NotifyScanner/Tests.antt =====
-- Runs of the scanner, and its theorems at them.
use tmuxcc_driver.Prelude.{
  ◌≤◌, ◌≡◌, refl, false, Option, some, List, [], ◌∷◌, ◌++◌, Bytes, length, concat, arith, All,
}
use tmuxcc_driver.Prelude.Keyed.{codes, matches_list}
use tmuxcc_driver.Runtime.NotifyKind.{osc9}
use tmuxcc_driver.Parser.OscContent.{
  Chars, PaneNotifyDetection, bare, from_osc9, cut_at_semi, parse_osc9, desktop_notification,
  parse_osc_content,
}
use tmuxcc_driver.Parser.NotifyScanner.{
  max_osc_bytes, PaneNotifyScanner, new_scanner, bell_detection, has_esc_or_bel, scan_all,
}
use tmuxcc_driver.Parser.NotifyScanner.Machine.{
  start, text_of, finish, at_idle, take_byte, take_all,
}
use tmuxcc_driver.Parser.NotifyScanner.Streams.{
  by_bel, by_st, IsPlain, Segment, plain, ring, escape, osc_sequence, string_sequence, render,
  render_all, heard, heard_all, scan_all_ends, scan_all-render_all,
}

-- Decoders that give each byte its own code unit.
abbrev utf8 : Bytes → Option Chars
utf8 bytes = some bytes

abbrev latin1 : Bytes → Chars
latin1 bytes = bytes

abbrev segments : List Segment
segments =
    plain (codes "ls")
    ∷ ring
    ∷ escape 99
    ∷ osc_sequence (codes "9;done") by_bel
    ∷ string_sequence 80 (codes "q") by_bel
    ∷ osc_sequence (codes "0;title") by_st
    ∷ []

-- The same bytes, cut inside the sequences.
abbrev cut : List Bytes
cut =
    codes "ls"
    ∷ (7 ∷ 27 ∷ [])
    ∷ (99 ∷ 27 ∷ codes "]9;do")
    ∷ (codes "ne" ++ 7 ∷ 27 ∷ codes "Pq")
    ∷ (7 ∷ 27 ∷ codes "]0;title")
    ∷ (27 ∷ [])
    ∷ (0x5c ∷ [])
    ∷ []

abbrev done : PaneNotifyDetection
done = record {
  kind = osc9;
  payload = some (record bare { message = some (codes "done"); source = some from_osc9 });
}

bytes-IsPlain : (bytes : Bytes) → has_esc_or_bel bytes ≡ false → All IsPlain bytes
unfolding has_esc_or_bel
bytes-IsPlain [] free = tt
bytes-IsPlain (b ∷ bs) free =
    ((ground (arith, free), ground (arith, free)), bytes-IsPlain bs (ground (arith, free)))

scan_all-render_all_example :
    (s : PaneNotifyScanner) × (scan_all utf8 latin1 cut new_scanner
      ≡ some (s, bell_detection ∷ done ∷ []))
unfolding has_esc_or_bel heard_all heard render_all render text_of parse_osc_content cut_at_semi
    matches_list parse_osc9 desktop_notification
scan_all-render_all_example =
    scan_all-render_all utf8 latin1 cut segments
      (
        bytes-IsPlain (codes "ls") refl,
        (
          tt,
          (
            (omega arith, omega arith, refl, omega arith),
            (
              (bytes-IsPlain (codes "9;done") refl, omega arith),
              (
                (refl, bytes-IsPlain (codes "q") refl, omega arith),
                ((bytes-IsPlain (codes "0;title") refl, omega arith), tt),
              ),
            ),
          ),
        ),
      )
      refl

scan_all_ends_example :
    (s : PaneNotifyScanner) × (scan_all utf8 latin1 cut new_scanner
      ≡ some (s, (take_all utf8 latin1 (concat cut) start).1))
    × (s.buf_len ≤ length s.buf)
    × (length s.buf ≤ max_osc_bytes)
scan_all_ends_example = scan_all_ends utf8 latin1 cut

-- A BEL behind an ESC is outside every string, and is not reported.
lost_bell : (take_all utf8 latin1 (27 ∷ 7 ∷ []) start).1 ≡ []
unfolding take_all take_byte at_idle
lost_bell = refl

-- An ESC that breaks off an OSC sequence is not the start of the next: the second sequence is lost,
-- and its terminator counts as a bell.
lost_introducer :
    (take_all utf8 latin1 (27 ∷ codes "]0;x" ++ 27 ∷ codes "]9;done" ++ 7 ∷ []) start).1
    ≡ bell_detection ∷ []
unfolding take_all take_byte at_idle finish
lost_introducer = refl
