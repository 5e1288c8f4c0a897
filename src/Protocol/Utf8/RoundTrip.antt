-- ===== src/Protocol/Utf8/RoundTrip.antt =====
-- Decoding what was encoded.
use tmuxcc_driver.Prelude.{
  ℕ, ◌+◌, ◌-◌, ◌*◌, ◌/◌, ◌%◌, ◌≤◌, ◌<◌, ◌≡◌, suc, refl, ap, ◌∙◌, inl, inr, false, [], ◌∷◌, ◌++◌,
  arith, Bytes, All, ltb, ◌==◌, if◌then◌else◌, Bool-cases,
}
use tmuxcc_driver.Protocol.Utf8.{
  Text, encode_scalar, is_surrogate, encode, ready, await, decode_from, without_mark, decode,
}

-- A code point that is no surrogate.
abbrev pub IsScalar : ℕ → Type 0
IsScalar c = (c < 0x11_0000) × (is_surrogate c ≡ false)

decode_one :
    (c : ℕ) (rest : Bytes) → c < 0x80 → decode_from ready (c ∷ rest) ≡ c ∷ decode_from ready rest
unfolding decode_from
decode_one c rest h = ground arith

-- The last continuation byte of a sequence, and one before it.
decode_last :
    (point lower upper b : ℕ) (rest : Bytes)
    → lower ≤ b
    → b ≤ upper
    → decode_from (await point 1 lower upper) (b ∷ rest)
      ≡ (point * 64 + (b - 0x80)) ∷ decode_from ready rest
unfolding decode_from
decode_last point lower upper b rest h k = ground arith

decode_next :
    (point n lower upper b : ℕ) (rest : Bytes)
    → lower ≤ b
    → b ≤ upper
    → decode_from (await point (suc (suc n)) lower upper) (b ∷ rest)
      ≡ decode_from (await (point * 64 + (b - 0x80)) (suc n) 0x80 0xbf) rest
unfolding decode_from
decode_next point n lower upper b rest h k = ground arith

lead_two :
    (a : ℕ) (rest : Bytes)
    → 2 ≤ a
    → a < 32
    → decode_from ready ((0xc0 + a) ∷ rest) ≡ decode_from (await a 1 0x80 0xbf) rest
unfolding decode_from
lead_two a rest h k = ground arith

lead_three :
    (a : ℕ) (rest : Bytes)
    → a < 16
    → decode_from ready ((0xe0 + a) ∷ rest)
      ≡ decode_from
          (await a 2 (if a == 0 then 0xa0 else 0x80) (if a == 13 then 0x9f else 0xbf))
          rest
unfolding decode_from
lead_three a rest h = ground arith

lead_four :
    (a : ℕ) (rest : Bytes)
    → a < 5
    → decode_from ready ((0xf0 + a) ∷ rest)
      ≡ decode_from (await a 3 (if a == 0 then 0x90 else 0x80) (if a == 4 then 0x8f else 0xbf)) rest
unfolding decode_from
lead_four a rest h = ground arith

decode_two :
    (c : ℕ) (rest : Bytes)
    → 0x80 ≤ c
    → c < 0x800
    → decode_from ready ((0xc0 + c / 64) ∷ (0x80 + c % 64) ∷ rest) ≡ c ∷ decode_from ready rest
decode_two c rest h k =
    lead_two (c / 64) ((0x80 + c % 64) ∷ rest) (omega arith) (omega arith)
    ∙ decode_last (c / 64) 0x80 0xbf (0x80 + c % 64) rest (omega arith) (omega arith)
    ∙ ap (λ v. v ∷ decode_from ready rest) (omega arith)

decode_three :
    (c : ℕ) (rest : Bytes)
    → 0x800 ≤ c
    → c < 0x1_0000
    → is_surrogate c ≡ false
    → decode_from ready ((0xe0 + c / 4096) ∷ (0x80 + c / 64 % 64) ∷ (0x80 + c % 64) ∷ rest)
      ≡ c ∷ decode_from ready rest
decode_three c rest h k scalar =
    lead_three (c / 4096) _ (omega arith)
    ∙ decode_next (c / 4096) 0 (if c / 4096 == 0 then 0xa0 else 0x80)
        (if c / 4096 == 13 then 0x9f else 0xbf) (0x80 + c / 64 % 64) ((0x80 + c % 64) ∷ rest)
        (ground arith) (ground arith)
    ∙ decode_last (c / 4096 * 64 + (0x80 + c / 64 % 64 - 0x80)) 0x80 0xbf (0x80 + c % 64) rest
        (omega arith) (omega arith)
    ∙ ap (λ v. v ∷ decode_from ready rest) (omega arith)

decode_four :
    (c : ℕ) (rest : Bytes)
    → 0x1_0000 ≤ c
    → c < 0x11_0000
    → decode_from ready (
        (0xf0 + c / 262144)
        ∷ (0x80 + c / 4096 % 64)
        ∷ (0x80 + c / 64 % 64)
        ∷ (0x80 + c % 64)
        ∷ rest)
      ≡ c ∷ decode_from ready rest
decode_four c rest h k =
    let top = c / 262144 in
    let second = top * 64 + (0x80 + c / 4096 % 64 - 0x80) in
    lead_four top _ (omega arith)
    ∙ decode_next top 1 (if top == 0 then 0x90 else 0x80) (if top == 4 then 0x8f else 0xbf)
        (0x80 + c / 4096 % 64) ((0x80 + c / 64 % 64) ∷ (0x80 + c % 64) ∷ rest) (ground arith)
        (ground arith)
    ∙ decode_next second 0 0x80 0xbf (0x80 + c / 64 % 64) ((0x80 + c % 64) ∷ rest) (omega arith)
        (omega arith)
    ∙ decode_last (second * 64 + (0x80 + c / 64 % 64 - 0x80)) 0x80 0xbf (0x80 + c % 64) rest
        (omega arith) (omega arith)
    ∙ ap (λ v. v ∷ decode_from ready rest) (omega arith)

decode_scalar :
    (c : ℕ) (rest : Bytes)
    → IsScalar c
    → decode_from ready (encode_scalar c ++ rest) ≡ c ∷ decode_from ready rest
unfolding encode_scalar
decode_scalar c rest (below, scalar) = elim (Bool-cases (ltb c 0x80)) [
  | inl one ↦ rw one (decode_one c rest (ground arith))
  | inr more ↦ elim (Bool-cases (ltb c 0x800)) [
    | inl two ↦ rw (more, two) (decode_two c rest (ground arith) (ground arith))
    | inr longer ↦ elim (Bool-cases (ltb c 0x1_0000)) [
      | inl three ↦
          rw (more, longer, three) (decode_three c rest (ground arith) (ground arith) scalar)
      | inr four ↦ rw (more, longer, four) (decode_four c rest (ground arith) below)
    ]
  ]
]

decode_from-encode : (text : Text) → All IsScalar text → decode_from ready (encode text) ≡ text
unfolding encode decode_from
decode_from-encode [] h = refl
decode_from-encode (c ∷ text) (scalar, h) =
    rw scalar.1 (decode_scalar c (encode text) scalar ∙ ap (◌∷◌ c) (decode_from-encode text h))

-- A text of scalar values that does not start with a byte-order mark.
abbrev pub IsPlainText : Text → Type 0
IsPlainText text = All IsScalar text × (without_mark text ≡ text)

pub decode-encode_text : (text : Text) → IsPlainText text → decode (encode text) ≡ text
unfolding decode
decode-encode_text text (scalars, plain) = rw (decode_from-encode text scalars) plain
