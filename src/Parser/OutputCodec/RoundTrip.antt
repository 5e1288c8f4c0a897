-- ===== src/Parser/OutputCodec/RoundTrip.antt =====
-- Encoding and decoding a payload.
use tmuxcc_driver.Prelude.{
  ℕ, zero, suc, Bool, true, if◌then◌else◌, ==_iff, ◌+◌, ◌*◌, ◌/◌, ◌%◌, ◌≤◌, ◌<◌, ◌≡◌, ◌⊎◌, refl, ap,
  ◌∙◌, inl, inr, false, ◌&&◌, ◌||◌, [], ◌∷◌, ◌++◌, arith, Bytes, AreBytes, All, All-append, length,
  length-append, ltb, ◌==◌, Bool-cases,
}
use tmuxcc_driver.Parser.OutputCodec.{
  backslash, is_octal_digit, octal_value, decode_output_payload, encode_byte, encode_output_payload,
}

-- A test that passes on all numbers below a bound, as it is evaluated.
passes : (test : ℕ → Bool) (bound : ℕ) → Bool
passes test zero = true
passes test (suc bound) = let below = passes test bound in if test bound then below else false

passes-test : (test : ℕ → Bool) (bound b : ℕ) → b < bound → passes test bound ≡ true → test b ≡ true
unfolding passes
passes-test test zero b low all = absurd (omega arith)
passes-test test (suc bound) b low all = ground (arith, passes-test test bound b)

bytes_pass :
    passes (λ c. octal_value (0x30 + c / 64 % 8) (0x30 + c / 8 % 8) (0x30 + c % 8) == c) 256 ≡ true
unfolding passes octal_value
bytes_pass = refl

octal_value_digits :
    (b : ℕ) → b < 256 → octal_value (0x30 + b / 64 % 8) (0x30 + b / 8 % 8) (0x30 + b % 8) ≡ b
octal_value_digits b h = (==_iff _ b).0 (
    passes-test (λ c. octal_value (0x30 + c / 64 % 8) (0x30 + c / 8 % 8) (0x30 + c % 8) == c) 256 b
      h bytes_pass)

-- What a literal byte decodes to does not depend on what follows.
decode_literal :
    (b : ℕ) (rest : Bytes)
    → (b == backslash) ≡ false
    → decode_output_payload (b ∷ rest) ≡ b ∷ decode_output_payload rest
unfolding decode_output_payload
decode_literal b [] h = ground arith
decode_literal b (c ∷ []) h = ground arith
decode_literal b (c ∷ d ∷ []) h = ground arith
decode_literal b (c ∷ d ∷ e ∷ rest) h = ground arith

decode_escape :
    (d1 d2 d3 : ℕ) (rest : Bytes)
    → d1 < 8
    → d2 < 8
    → d3 < 8
    → decode_output_payload (backslash ∷ (0x30 + d1) ∷ (0x30 + d2) ∷ (0x30 + d3) ∷ rest)
      ≡ octal_value (0x30 + d1) (0x30 + d2) (0x30 + d3) ∷ decode_output_payload rest
unfolding decode_output_payload
decode_escape d1 d2 d3 rest h1 h2 h3 = ground arith

decode-encode_byte :
    (b : ℕ) (rest : Bytes)
    → b < 256
    → decode_output_payload (encode_byte b ++ rest) ≡ b ∷ decode_output_payload rest
decode-encode_byte b rest h = elim (Bool-cases (ltb b 0x20 || b == backslash)) [
  | inl escaped ↦ rw escaped (
      decode_escape (b / 64 % 8) (b / 8 % 8) (b % 8) rest (omega arith) (omega arith) (omega arith)
      ∙ ap (λ v. v ∷ decode_output_payload rest) (octal_value_digits b h))
  | inr literal ↦ rw literal (decode_literal b rest (ground arith))
]

-- Decoding an encoded payload gives back its bytes.
pub decode-encode :
    (raw : Bytes) → AreBytes raw → decode_output_payload (encode_output_payload raw) ≡ raw
unfolding encode_output_payload decode_output_payload
decode-encode [] h = refl
decode-encode (b ∷ raw) (byte, h) =
    decode-encode_byte b (encode_output_payload raw) byte ∙ ap (◌∷◌ b) (decode-encode raw h)

-- A byte that tmux puts on a control-mode line: no control byte, so no newline.
abbrev pub IsLineByte : ℕ → Type 0
IsLineByte b = (0x20 ≤ b) × (b < 256)

encode_byte-IsLineByte : (b : ℕ) → b < 256 → All IsLineByte (encode_byte b)
encode_byte-IsLineByte b h = ground arith

-- An encoded payload holds bytes from 0x20 on only, so it cannot end the line it stands on, and it
-- is at most four times as long as the bytes: the encoder stays within its array.
pub encode_fits_line :
    (raw : Bytes)
    → AreBytes raw
    → All IsLineByte (encode_output_payload raw)
      × (length (encode_output_payload raw) ≤ length raw * 4)
unfolding encode_output_payload
encode_fits_line [] h = (tt, omega arith)
encode_fits_line (b ∷ raw) (byte, h) =
    let (lines, short) = encode_fits_line raw h in
    (
      All-append IsLineByte (encode_byte b) _ (encode_byte-IsLineByte b byte) lines,
      ground (arith, length-append (encode_byte b) (encode_output_payload raw)),
    )

octal_value-lt : (d1 d2 d3 : ℕ) → octal_value d1 d2 d3 < 256
unfolding octal_value
octal_value-lt d1 d2 d3 = omega arith

decode_cases :
    (b d1 d2 d3 : ℕ) (rest : Bytes)
    → let payload = b ∷ d1 ∷ d2 ∷ d3 ∷ rest in
      (decode_output_payload payload ≡ b ∷ decode_output_payload (d1 ∷ d2 ∷ d3 ∷ rest))
      ⊎ (decode_output_payload payload ≡ octal_value d1 d2 d3 ∷ decode_output_payload rest)
unfolding decode_output_payload
decode_cases b d1 d2 d3 rest = elim (Bool-cases (b == backslash)) [
  | inl mark ↦ elim (Bool-cases (is_octal_digit d1 && is_octal_digit d2 && is_octal_digit d3)) [
    | inl octal ↦ inr (rw (mark, octal) refl)
    | inr other ↦ inl (
        rw (mark, other) (ap (λ v. v ∷ decode_output_payload (d1 ∷ d2 ∷ d3 ∷ rest)) (ground arith)))
  ]
  | inr literal ↦ inl (rw literal refl)
]

-- Near the end of the payload no escape fits.
decode_short :
    (b : ℕ) (rest : Bytes)
    → length rest < 3
    → decode_output_payload (b ∷ rest) ≡ b ∷ decode_output_payload rest
unfolding decode_output_payload
decode_short b [] h = ground arith
decode_short b (c ∷ []) h = ground arith
decode_short b (c ∷ d ∷ []) h = ground arith
decode_short b (c ∷ d ∷ e ∷ rest) h = absurd (omega arith)

-- What the decoder may write for a payload.
abbrev pub Fits : Bytes → Bytes → Type 0
Fits payload out = AreBytes out × (length out ≤ length payload)

Fits-cons :
    (b v : ℕ) (rest payload : Bytes) (out : Bytes)
    → v < 256
    → length payload ≤ length rest
    → Fits payload out
    → Fits (b ∷ rest) (v ∷ out)
Fits-cons b v rest payload out h shorter (are_bytes, short) = ((h, are_bytes), omega arith)

-- Whatever the payload, valid escapes or not, the decoder writes no more bytes than it was given,
-- so it stays within its array, and each is a byte.
pub decode-Fits :
    (payload : Bytes) → AreBytes payload → Fits payload (decode_output_payload payload)
unfolding decode_output_payload
decode-Fits [] h = (tt, omega arith)
decode-Fits (b ∷ []) (byte, h) =
    rw (decode_short b [] (omega arith))
      (Fits-cons b b [] [] [] byte (omega arith) (decode-Fits [] h))
decode-Fits (b ∷ c ∷ []) (byte, h) =
    rw (decode_short b (c ∷ []) (omega arith))
      (Fits-cons b b (c ∷ []) (c ∷ []) _ byte (omega arith) (decode-Fits (c ∷ []) h))
decode-Fits (b ∷ c ∷ d ∷ []) (byte, h) =
    rw (decode_short b (c ∷ d ∷ []) (omega arith))
      (Fits-cons b b (c ∷ d ∷ []) (c ∷ d ∷ []) _ byte (omega arith) (decode-Fits (c ∷ d ∷ []) h))
decode-Fits (b ∷ d1 ∷ d2 ∷ d3 ∷ rest) (byte, h) =
    let shifted = decode-Fits (d1 ∷ d2 ∷ d3 ∷ rest) h in
    let skipped = decode-Fits rest h.1.1.1 in
    elim (decode_cases b d1 d2 d3 rest) [
      | inl literal ↦
          rw literal
            (Fits-cons b b (d1 ∷ d2 ∷ d3 ∷ rest) (d1 ∷ d2 ∷ d3 ∷ rest) _ byte (omega arith) shifted)
      | inr octal ↦ rw octal (
          Fits-cons b _ (d1 ∷ d2 ∷ d3 ∷ rest) rest _ (octal_value-lt d1 d2 d3) (omega arith)
            skipped)
    ]
