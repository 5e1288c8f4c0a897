-- ===== src/Parser/NotifyScanner/Array.antt =====
-- The scanner's array and counters against the machine's content.
use tmuxcc_driver.Prelude.{
  ℕ, ◌+◌, ◌*◌, ◌≤◌, ◌<◌, min, ◌≡◌, refl, ap, ◌∙◌, true, false, some, [], ◌∷◌, ◌++◌, append-nil,
  arith, leb, Bytes, length, drop, length-append, length-drop,
}
use tmuxcc_driver.Prelude.Buffers.{zeros, length-zeros, blit_lem}
use tmuxcc_driver.Parser.NotifyScanner.{
  max_osc_bytes, State, PaneNotifyScanner, new_scanner, grown, put_byte, push_osc_byte,
}
use tmuxcc_driver.Parser.NotifyScanner.Machine.{Machine, start}

-- The array holds the machine's content, within its bounds.
pub record Holds (s : PaneNotifyScanner) (m : Machine) : Type 0 where
  pub spare : Bytes
  pub state : s.state ≡ m.state
  pub str_len : s.str_len ≡ m.str_len
  pub buf : s.buf ≡ m.content ++ spare
  pub buf_len : s.buf_len ≡ length m.content
  pub wide : 1 ≤ length s.buf
  pub bounded : length s.buf ≤ max_osc_bytes

-- Room for one more byte behind the content.
record Room (out : Bytes) (content : Bytes) : Type 0 where
  spare : Bytes
  layout : out ≡ content ++ spare
  room : 1 ≤ length spare
  bounded : length out ≤ max_osc_bytes

grown_lem :
    (s : PaneNotifyScanner) (m : Machine)
    → Holds s m
    → length m.content < max_osc_bytes
    → (out : Bytes) × (grown s ≡ some out) × Room out m.content
unfolding grown
grown_lem s m h low = by_spare h.spare h.buf
  where
    by_spare :
        (spare : Bytes)
        → s.buf ≡ m.content ++ spare
        → (out : Bytes) × (grown s ≡ some out) × Room out m.content
    by_spare (x ∷ xs) e =
        let larger : leb (length s.buf) s.buf_len ≡ false =
          ground (arith, ap length e, h.buf_len, length-append m.content (x ∷ xs)) in
        (
          s.buf,
          rw larger refl,
          record { spare = x ∷ xs; layout = e; room = omega arith; bounded = h.bounded },
        )
    by_spare [] e =
        let same : s.buf ≡ m.content = e ∙ append-nil m.content in
        let full : leb (length s.buf) s.buf_len ≡ true =
          ground (arith, ap length same, h.buf_len) in
        let n = min (length s.buf * 2) max_osc_bytes in
        let more : length s.buf + 1 ≤ n = omega (arith, ap length same, low, h.wide) in
        let fits : length s.buf ≤ length (zeros n) = rw (length-zeros n) (omega (arith, more)) in
        let rest = drop (length s.buf) (zeros n) in
        (
          s.buf ++ rest,
          rw full (blit_lem [] (zeros n) s.buf fits),
          record {
            spare = rest;
            layout = ap (λ (t : Bytes). t ++ rest) same;
            room = rw (length-drop (length s.buf) (zeros n), length-zeros n) (omega (arith, more));
            bounded =
                rw (length-append s.buf rest, length-drop (length s.buf) (zeros n), length-zeros n)
                  (omega (arith, more));
          },
        )

put_byte_lem :
    (b : ℕ) (content spare : Bytes)
    → 1 ≤ length spare
    → put_byte (content ++ spare) (length content) b ≡ (content ++ b ∷ []) ++ drop 1 spare
unfolding put_byte
put_byte_lem b content spare room = rw (blit_lem content spare (b ∷ []) room, put_byte) refl

-- A push that does not overflow appends to the content.
pub push_lem :
    (b : ℕ) (s : PaneNotifyScanner) (m : Machine)
    → Holds s m
    → length m.content < max_osc_bytes
    → (s' : PaneNotifyScanner) × (push_osc_byte b s ≡ some (true, s'))
      × Holds s' (record m { content = m.content ++ b ∷ [] })
unfolding push_osc_byte
push_lem b s m h low =
    let g = grown_lem s m h low in
    let r = g.2 in
    let low_len : leb max_osc_bytes s.buf_len ≡ false = ground (arith, h.buf_len, low) in
    let put : put_byte g.0 s.buf_len b ≡ (m.content ++ b ∷ []) ++ drop 1 r.spare =
      rw (h.buf_len, r.layout) (put_byte_lem b m.content r.spare r.room) in
    let long : length (put_byte g.0 s.buf_len b) ≡ length g.0 =
      rw
        (
          put,
          r.layout,
          length-append (m.content ++ b ∷ []) (drop 1 r.spare),
          length-append m.content (b ∷ []),
          length-drop 1 r.spare,
          length-append m.content r.spare,
        )
        (omega (arith, r.room)) in
    (
      record s { buf = put_byte g.0 s.buf_len b; buf_len = s.buf_len + 1 },
      rw (low_len, g.1) refl,
      record {
        spare = drop 1 r.spare;
        state = h.state;
        str_len = h.str_len;
        buf = put;
        buf_len = rw (length-append m.content (b ∷ []), h.buf_len) refl;
        wide = rw (long, r.layout, length-append m.content r.spare) (omega (arith, r.room));
        bounded = rw long r.bounded;
      },
    )

pub overflow_lem :
    (b : ℕ) (s : PaneNotifyScanner) (m : Machine)
    → Holds s m
    → leb max_osc_bytes (length m.content) ≡ true
    → push_osc_byte b s ≡ some (false, s)
unfolding push_osc_byte
overflow_lem b s m h full =
    let full' : leb max_osc_bytes s.buf_len ≡ true = ground (arith, h.buf_len, full) in
    rw full' refl

pub moved :
    (x : State) (s : PaneNotifyScanner) (m : Machine)
    → Holds s m
    → Holds (record s { state = x }) (record m { state = x })
moved x s m h = record {
  spare = h.spare;
  state = refl;
  str_len = h.str_len;
  buf = h.buf;
  buf_len = h.buf_len;
  wide = h.wide;
  bounded = h.bounded;
}

pub stayed :
    (x : State) (s : PaneNotifyScanner) (m : Machine)
    → s.state ≡ x
    → Holds s m
    → Holds s (record m { state = x })
stayed x s m e h = record {
  spare = h.spare;
  state = e;
  str_len = h.str_len;
  buf = h.buf;
  buf_len = h.buf_len;
  wide = h.wide;
  bounded = h.bounded;
}

pub restarted :
    (x : State) (s : PaneNotifyScanner) (m : Machine)
    → Holds s m
    → Holds (record s { state = x; str_len = 0 }) (record m { state = x; str_len = 0 })
restarted x s m h = record {
  spare = h.spare;
  state = refl;
  str_len = refl;
  buf = h.buf;
  buf_len = h.buf_len;
  wide = h.wide;
  bounded = h.bounded;
}

pub counted :
    (x : State) (s : PaneNotifyScanner) (m : Machine)
    → Holds s m
    → Holds
        (record s { state = x; str_len = s.str_len + 1 })
        (record m { state = x; str_len = m.str_len + 1 })
counted x s m h = record {
  spare = h.spare;
  state = refl;
  str_len = ap (λ (n : ℕ). n + 1) h.str_len;
  buf = h.buf;
  buf_len = h.buf_len;
  wide = h.wide;
  bounded = h.bounded;
}

pub longer :
    (x : State) (s : PaneNotifyScanner) (m : Machine)
    → s.state ≡ x
    → Holds s m
    → Holds (record s { str_len = s.str_len + 1 }) (record m { state = x; str_len = m.str_len + 1 })
longer x s m e h = record {
  spare = h.spare;
  state = e;
  str_len = ap (λ (n : ℕ). n + 1) h.str_len;
  buf = h.buf;
  buf_len = h.buf_len;
  wide = h.wide;
  bounded = h.bounded;
}

pub emptied :
    (x : State) (s : PaneNotifyScanner) (m : Machine)
    → Holds s m
    → Holds (record s { state = x; buf_len = 0 }) (record m { state = x; content = [] })
emptied x s m h = record {
  spare = s.buf;
  state = refl;
  str_len = h.str_len;
  buf = refl;
  buf_len = refl;
  wide = h.wide;
  bounded = h.bounded;
}

pub new_scanner-Holds : Holds new_scanner start
unfolding new_scanner
new_scanner-Holds = record {
  spare = zeros 128;
  state = refl;
  str_len = refl;
  buf = refl;
  buf_len = refl;
  wide = rw (length-zeros 128) (omega arith);
  bounded = rw (length-zeros 128) (omega arith);
}
