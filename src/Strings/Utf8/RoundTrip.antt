-- ===== src/Strings/Utf8/RoundTrip.antt =====
-- Decoding what `as_bytes` wrote gives the text back.
use mathlib.Core.List.{append_assoc, append-nil}
use headless_db_mcp.Prelude.{
  ℕ, ◌+◌, ◌-◌, ◌*◌, ◌/◌, ◌%◌, ◌≤◌, ◌<◌, true, ltb, nat_eq, text_eq, List, [], ◌∷◌, ◌++◌, ◌≡◌, refl,
  sym, ap, ◌∙◌, ◌⊎◌, inl, inr, arith, All, Text, Bool-cases,
}
use headless_db_mcp.Strings.{utf8_char, as_bytes}
use headless_db_mcp.Strings.Utf8.{
  between_characters, width, is_continuation, second_of_three, second_of_four, start,
  advance_second, advance_further, decode, from_utf8_lossy,
}

-- A Unicode scalar value, which is what a `char` is.
abbrev pub IsScalar : ℕ → Type 0
IsScalar c = (c < 0xd800) ⊎ ((0xe000 ≤ c) × (c < 0x110000))

tail_continues : (n : ℕ) → is_continuation (0x80 + n % 0x40) ≡ true
unfolding is_continuation
tail_continues n = ground arith

module _ (bs : List ℕ) where
  -- The characters of each width, by the values of their bytes.
  decode_one :
      (c : ℕ) → width c ≡ 1 → decode between_characters (c ∷ bs) ≡ c ∷ decode between_characters bs
  unfolding decode start
  decode_one c one = rw one refl

  decode_two :
      (first b : ℕ)
      → width first ≡ 2
      → is_continuation b ≡ true
      → decode between_characters (first ∷ b ∷ bs)
        ≡ ((first - 0xc0) * 0x40 + (b - 0x80)) ∷ decode between_characters bs
  unfolding decode start advance_second
  decode_two first b two second = rw two (rw two (rw second refl))

  decode_three :
      (first b c : ℕ)
      → width first ≡ 3
      → second_of_three first b ≡ true
      → is_continuation c ≡ true
      → decode between_characters (first ∷ b ∷ c ∷ bs)
        ≡ (((first - 0xe0) * 0x40 + (b - 0x80)) * 0x40 + (c - 0x80)) ∷ decode between_characters bs
  unfolding decode start advance_second advance_further
  decode_three first b c three second third = rw three (rw three (rw second (rw third refl)))

  decode_four :
      (first b c d : ℕ)
      → width first ≡ 4
      → second_of_four first b ≡ true
      → is_continuation c ≡ true
      → is_continuation d ≡ true
      → decode between_characters (first ∷ b ∷ c ∷ d ∷ bs)
        ≡ ((((first - 0xf0) * 0x40 + (b - 0x80)) * 0x40 + (c - 0x80)) * 0x40 + (d - 0x80))
          ∷ decode between_characters bs
  unfolding decode start advance_second advance_further
  decode_four first b c d four second third fourth =
      rw four (rw four (rw second (rw third (rw fourth refl))))

  width_of_one : (c : ℕ) → c < 0x80 → width c ≡ 1
  unfolding width
  width_of_one c h = ground arith

  decode-utf8_two :
      (c : ℕ)
      → 0x80 ≤ c
      → c < 0x800
      → decode between_characters ((0xc0 + c / 0x40) ∷ (0x80 + c % 0x40) ∷ bs)
        ≡ c ∷ decode between_characters bs
  unfolding width
  decode-utf8_two c lo hi =
      decode_two _ _ (ground arith) (tail_continues c)
      ∙ ap (λ n. n ∷ decode between_characters bs) (omega arith)

  decode-utf8_three :
      (c : ℕ)
      → 0x800 ≤ c
      → c < 0x10000
      → IsScalar c
      → decode between_characters
          ((0xe0 + c / 0x1000) ∷ (0x80 + c / 0x40 % 0x40) ∷ (0x80 + c % 0x40) ∷ bs)
        ≡ c ∷ decode between_characters bs
  unfolding width second_of_three
  decode-utf8_three c lo hi s =
      decode_three _ _ _ (ground arith) (ground arith) (tail_continues c)
      ∙ ap (λ n. n ∷ decode between_characters bs) (omega arith)

  decode-utf8_four :
      (c : ℕ)
      → 0x10000 ≤ c
      → c < 0x110000
      → decode between_characters (
          (0xf0 + c / 0x40000)
          ∷ (0x80 + c / 0x1000 % 0x40)
          ∷ (0x80 + c / 0x40 % 0x40)
          ∷ (0x80 + c % 0x40)
          ∷ bs)
        ≡ c ∷ decode between_characters bs
  unfolding width second_of_four
  decode-utf8_four c lo hi =
      decode_four _ _ _ _ (ground arith) (ground arith) (tail_continues (c / 0x40))
        (tail_continues c)
      ∙ ap (λ n. n ∷ decode between_characters bs) (omega arith)

  decode-utf8_char :
      (c : ℕ)
      → IsScalar c
      → decode between_characters (utf8_char c ++ bs) ≡ c ∷ decode between_characters bs
  unfolding utf8_char
  decode-utf8_char c s = elim (Bool-cases (ltb c 0x80)) [
    | inl a ↦ rw a (decode_one c (width_of_one c (ground arith)))
    | inr a ↦ elim (Bool-cases (ltb c 0x800)) [
      | inl b ↦ rw (a, b) (decode-utf8_two c (ground arith) (ground arith))
      | inr b ↦ elim (Bool-cases (ltb c 0x10000)) [
        | inl d ↦ rw (a, b, d) (decode-utf8_three c (ground arith) (ground arith) s)
        | inr d ↦ rw (a, b, d) (decode-utf8_four c (ground arith) (ground arith))
      ]
    ]
  ]

-- Before any further bytes.
pub decode-as_bytes :
    (s : Text) (bs : List ℕ)
    → All IsScalar s
    → decode between_characters (as_bytes s ++ bs) ≡ s ++ decode between_characters bs
unfolding as_bytes
decode-as_bytes [] bs h = refl
decode-as_bytes (c ∷ s) bs h =
    rw (append_assoc (utf8_char c) (as_bytes s) bs, decode-utf8_char (as_bytes s ++ bs) c h.0)
      (ap (◌∷◌ c) (decode-as_bytes s bs h.1))

pub from_utf8_lossy-as_bytes : (s : Text) → All IsScalar s → from_utf8_lossy (as_bytes s) ≡ s
unfolding from_utf8_lossy decode
from_utf8_lossy-as_bytes s h =
    sym (ap (decode between_characters) (append-nil (as_bytes s)))
    ∙ decode-as_bytes s [] h
    ∙ append-nil s
