-- ===== src/Protocol/Framing/Chunks.antt =====
-- The chunked buffer of `FrameDecoder` against the plain stream that it stands for.
use tmuxcc_driver.Prelude.{
  ℕ, ◌-◌, ◌≤◌, ◌≡◌, refl, sym, ap, ◌∙◌, inl, inr, List, [], ◌∷◌, ◌++◌, arith, Bytes, length, take,
  drop, concat, length-append, take-append_le, drop-append_le, take-append_ge, drop-append_ge,
  take-length, drop-length, ltb, leb, ◌==◌, Bool-cases,
}
use tmuxcc_driver.Protocol.Framing.{
  FrameDecoder, peek_slow, peek_bytes, consume_slow, consume_bytes,
}

-- The bytes that a decoder holds.
abbrev pub held : FrameDecoder → Bytes
held dec = concat dec.chunks

-- The byte counter agrees with the chunks.
abbrev pub IsCounted : FrameDecoder → Type 0
IsCounted dec = dec.buffered_len ≡ length (held dec)

take-zero_of : (n : ℕ) (xs : Bytes) → n ≡ 0 → take n xs ≡ []
take-zero_of n xs h = ap (λ k. take k xs) h

drop-zero_of : (n : ℕ) (xs : Bytes) → n ≡ 0 → drop n xs ≡ xs
drop-zero_of n xs h = ap (λ k. drop k xs) h

peek_slow_lem :
    (needed : ℕ) (chunks : List Bytes)
    → needed ≤ length (concat chunks)
    → peek_slow needed chunks ≡ take needed (concat chunks)
unfolding peek_slow
peek_slow_lem needed [] h = let e : needed ≡ 0 = omega arith in rw e
peek_slow_lem needed (chunk ∷ chunks) h =
    let sizes = length-append chunk (concat chunks) in
    elim (Bool-cases (needed == 0)) [
      | inl stop ↦ rw stop (sym (take-zero_of needed _ (ground arith)))
      | inr more ↦ elim (Bool-cases (leb (length chunk) needed)) [
        | inl whole ↦
            rw (more, whole)
              (ap (◌++◌ chunk) (peek_slow_lem (needed - length chunk) chunks (omega arith))
                ∙ sym (take-append_ge needed chunk (concat chunks) (ground arith)))
        | inr part ↦ rw (more, part) (sym (take-append_le needed chunk _ (ground arith)))
      ]
    ]

pub peek_bytes_lem :
    (n : ℕ) (chunks : List Bytes)
    → n ≤ length (concat chunks)
    → peek_bytes n chunks ≡ take n (concat chunks)
unfolding peek_bytes
peek_bytes_lem n [] h = peek_slow_lem n [] h
peek_bytes_lem n (first ∷ rest) h = elim (Bool-cases (leb n (length first))) [
  | inl fits ↦ rw fits (sym (take-append_le n first (concat rest) (ground arith)))
  | inr over ↦ rw over (peek_slow_lem n (first ∷ rest) h)
]

-- What taking `n` bytes off the front of the chunks has to yield.
abbrev pub Takes : ℕ → List Bytes → Bytes × List Bytes → Type 0
Takes n chunks r = (r.0 ≡ take n (concat chunks)) × (concat r.1 ≡ drop n (concat chunks))

Takes-part :
    (n : ℕ) (first : Bytes) (rest : List Bytes)
    → n ≤ length first
    → Takes n (first ∷ rest) (take n first, drop n first ∷ rest)
Takes-part n first rest h =
    (sym (take-append_le n first (concat rest) h), sym (drop-append_le n first (concat rest) h))

consume_slow-Takes :
    (needed : ℕ) (chunks : List Bytes)
    → needed ≤ length (concat chunks)
    → Takes needed chunks (consume_slow needed chunks)
unfolding consume_slow
consume_slow-Takes needed [] h = let e : needed ≡ 0 = omega arith in rw e (refl, refl)
consume_slow-Takes needed (chunk ∷ chunks) h =
    let sizes = length-append chunk (concat chunks) in
    elim (Bool-cases (needed == 0)) [
      | inl stop ↦
          let none_left : needed ≡ 0 = ground arith in
          rw stop (
            sym (take-zero_of needed (chunk ++ concat chunks) none_left),
            sym (drop-zero_of needed (chunk ++ concat chunks) none_left),
          )
      | inr more ↦ elim (Bool-cases (leb (length chunk) needed)) [
        | inl whole ↦
            let short : length chunk ≤ needed = ground arith in
            let (front, back) = consume_slow-Takes (needed - length chunk) chunks (omega arith) in
            rw (more, whole)
              (
                ap (◌++◌ chunk) front ∙ sym (take-append_ge needed chunk (concat chunks) short),
                back ∙ sym (drop-append_ge needed chunk (concat chunks) short),
              )
        | inr part ↦ rw (more, part) (Takes-part needed chunk chunks (ground arith))
      ]
    ]

pub consume_bytes-Takes :
    (n : ℕ) (chunks : List Bytes)
    → n ≤ length (concat chunks)
    → Takes n chunks (consume_bytes n chunks)
unfolding consume_bytes
consume_bytes-Takes n [] h = consume_slow-Takes n [] h
consume_bytes-Takes n (first ∷ rest) h = elim (Bool-cases (length first == n)) [
  | inl exact ↦
      let e : n ≡ length first = ground arith in
      rw (exact, e) (sym (take-length first (concat rest)), sym (drop-length first (concat rest)))
  | inr other ↦ elim (Bool-cases (ltb n (length first))) [
    | inl less ↦ rw (other, less) (Takes-part n first rest (ground arith))
    | inr slow ↦ rw (other, slow) (consume_slow-Takes n (first ∷ rest) h)
  ]
]
