-- ===== src/Strings/Decimal.antt =====
-- Decimal numerals: digits only, and read back as the number they were printed from.
use headless_db_mcp.Prelude.{
  ℕ, zero, suc, ◌+◌, ◌-◌, ◌*◌, ◌/◌, ◌%◌, ◌<◌, true, [], ◌∷◌, ◌++◌, ◌≡◌, refl, arith, All,
  All-append, Text, Bool-cases, inl, inr, ltb, ap,
}
use headless_db_mcp.Strings.{is_ascii_digit, decimal_within, decimal}

digit : (n : ℕ) → n < 10 → is_ascii_digit (b'0' + n) ≡ true
digit n h = ground arith

decimal_within-digits : (fuel n : ℕ) → All (λ c. is_ascii_digit c ≡ true) (decimal_within fuel n)
unfolding decimal_within
decimal_within-digits zero n = tt
decimal_within-digits (suc fuel) n = elim (Bool-cases (ltb n 10)) [
  | inl h ↦ rw h (digit n (ground arith), tt)
  | inr h ↦ rw h (
      All-append _ (decimal_within fuel (n / 10)) _ (decimal_within-digits fuel (n / 10))
        (digit (n % 10) (omega arith), tt))
]

pub decimal-digits : (n : ℕ) → All (λ c. is_ascii_digit c ≡ true) (decimal n)
unfolding decimal
decimal-digits n = decimal_within-digits (suc n) n

-- The value of a numeral.
abbrev pub value_from : ℕ → Text → ℕ
value_from acc [] = acc
value_from acc (c ∷ s) = value_from (acc * 10 + (c - b'0')) s

value_from-append :
    (acc : ℕ) (s t : Text) → value_from acc (s ++ t) ≡ value_from (value_from acc s) t
value_from-append acc [] t = refl
value_from-append acc (c ∷ s) t = value_from-append (acc * 10 + (c - b'0')) s t

decimal_within-value : (fuel n : ℕ) → n < fuel → value_from 0 (decimal_within fuel n) ≡ n
unfolding decimal_within
decimal_within-value zero n h = elim h [ ]
decimal_within-value (suc fuel) n h = elim (Bool-cases (ltb n 10)) [
  | inl e ↦ rw e (omega arith)
  | inr e ↦
      rw
        (
          e,
          value_from-append 0 (decimal_within fuel (n / 10)),
          decimal_within-value fuel (n / 10) (ground arith),
        )
        (omega arith)
]

pub decimal-value : (n : ℕ) → value_from 0 (decimal n) ≡ n
unfolding decimal
decimal-value n = decimal_within-value (suc n) n (omega arith)

pub decimal-injective : (m n : ℕ) → decimal m ≡ decimal n → m ≡ n
decimal-injective m n e = ground (arith, decimal-value m, decimal-value n, ap (value_from 0) e)
