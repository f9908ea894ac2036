-- ===== src/Strings/Numerals/RoundTrip.antt =====
-- A printed integer is parsed back, within the bounds of its type and nowhere else.
use mathlib.Core.Option
use headless_db_mcp.Prelude.{
  ℕ, suc, ◌+◌, ◌-◌, ◌/◌, ◌%◌, ◌^◌, ◌<◌, true, false, ltb, leb, ◌==◌, nat_eq, text_eq, none, some,
  [], ◌∷◌, ◌++◌, ◌≡◌, refl, ap, ◌∙◌, inl, inr, arith, All, Text, length, length-append,
  if◌then◌else◌, Bool-cases, ℤ, pos, negsuc,
}
use headless_db_mcp.Strings.{is_ascii_digit, decimal, decimal_within}
use headless_db_mcp.Strings.Decimal.{value_from, decimal-digits, decimal-value}
use headless_db_mcp.Strings.Numerals.{
  all_digits, parse_digits, at_most, parse_unsigned, parse_i64, print_int,
}

all_digits_of : (s : Text) → All (λ c. is_ascii_digit c ≡ true) s → all_digits s ≡ true
all_digits_of [] h = refl
all_digits_of (c ∷ s) h = rw (h.0, all_digits_of s h.1) refl

-- A list of digits with something in it.
abbrev IsNumeral : Text → Type 0
IsNumeral [] = ⊥
IsNumeral (c ∷ s) = All (λ d. is_ascii_digit d ≡ true) (c ∷ s)

parse_digits-IsNumeral : (s : Text) → IsNumeral s → parse_digits s ≡ some (value_from 0 s)
unfolding parse_digits
parse_digits-IsNumeral [] h = elim h [ ]
parse_digits-IsNumeral (c ∷ s) h = rw (h.0, all_digits_of s h.1) refl

within_ne_nil : (fuel n : ℕ) → decimal_within (suc fuel) n ≡ [] → ⊥
unfolding decimal_within
within_ne_nil fuel n e = elim (Bool-cases (ltb n 10)) [
  | inl h ↦ let one : ◌≡◌ {A = Text} ((b'0' + n) ∷ []) [] = rw h at e in cc
  | inr h ↦
      let front = decimal_within fuel (n / 10) in
      let last : Text = (b'0' + n % 10) ∷ [] in
      let more : front ++ last ≡ [] = rw h at e in
      absurd (omega (arith, ap length more, length-append front last))
]

digits-IsNumeral : (s : Text) → (s ≡ [] → ⊥) → All (λ c. is_ascii_digit c ≡ true) s → IsNumeral s
digits-IsNumeral [] ne h = ne refl
digits-IsNumeral (c ∷ s) ne h = h

decimal-IsNumeral : (n : ℕ) → IsNumeral (decimal n)
decimal-IsNumeral n =
    digits-IsNumeral (decimal n) (unfold decimal in within_ne_nil n n) (decimal-digits n)

pub parse_digits-decimal : (n : ℕ) → parse_digits (decimal n) ≡ some n
parse_digits-decimal n =
    parse_digits-IsNumeral (decimal n) (decimal-IsNumeral n) ∙ ap some (decimal-value n)

-- A digit is no sign.
unsigned-IsNumeral :
    (limit : ℕ) (s : Text) → IsNumeral s → parse_unsigned limit s ≡ at_most limit (parse_digits s)
unfolding parse_unsigned
unsigned-IsNumeral limit [] h = elim h [ ]
unsigned-IsNumeral limit (c ∷ s) h =
    let unsigned : (c == b'+') ≡ false = ground (arith, h.0) in rw unsigned refl

i64-IsNumeral :
    (s : Text) → IsNumeral s → parse_i64 s ≡ Option.map pos (at_most (2 ^ 63 - 1) (parse_digits s))
unfolding parse_i64
i64-IsNumeral [] h = elim h [ ]
i64-IsNumeral (c ∷ s) h =
    let unsigned : (c == b'-') ≡ false = ground (arith, h.0) in
    rw unsigned (ap (Option.map pos) (unsigned-IsNumeral (2 ^ 63 - 1) (c ∷ s) h))

pub parse_unsigned-decimal :
    (limit n : ℕ) → parse_unsigned limit (decimal n) ≡ (if leb n limit then some n else none)
parse_unsigned-decimal limit n =
    unsigned-IsNumeral limit (decimal n) (decimal-IsNumeral n)
    ∙ ap (at_most limit) (parse_digits-decimal n)

-- The integers of 64 bits.
abbrev pub IsI64 : ℤ → Type 0
IsI64 (pos n) = n < 2 ^ 63
IsI64 (negsuc n) = n < 2 ^ 63

pub parse_i64-decimal :
    (n : ℕ) → parse_i64 (decimal n) ≡ (if leb n (2 ^ 63 - 1) then some (pos n) else none)
parse_i64-decimal n =
    i64-IsNumeral (decimal n) (decimal-IsNumeral n)
    ∙ rw (parse_digits-decimal n)
        (elim (Bool-cases (leb n (2 ^ 63 - 1))) [ inl e ↦ rw e refl | inr e ↦ rw e refl ])

leb_of : (n : ℕ) → n < 2 ^ 63 → leb n (2 ^ 63 - 1) ≡ true
leb_of n h = ground arith

pub parse_i64-print_int : (i : ℤ) → IsI64 i → parse_i64 (print_int i) ≡ some i
unfolding print_int
parse_i64-print_int (pos n) h = parse_i64-decimal n ∙ rw (leb_of n h) refl
parse_i64-print_int (negsuc n) h =
    unfold parse_i64 in rw (parse_digits-decimal (suc n)) (rw (leb_of n h) refl)
