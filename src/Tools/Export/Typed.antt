-- ===== src/Tools/Export/Typed.antt =====
-- Integers survive the export as JSON numbers wherever JSON numbers of 64 bits can hold them.
use headless_db_mcp.Prelude.{
  ℕ, suc, ◌-◌, ◌^◌, Bool, true, leb, nat_eq, text_eq, Option, none, some, ◌∷◌, ◌≡◌, refl, inl, inr,
  arith, Text, if◌then◌else◌, Bool-cases, ℤ, pos, negsuc,
}
use headless_db_mcp.Strings.{decimal}
use headless_db_mcp.Strings.Numerals.{parse_digits, parse_unsigned, u64_max, parse_i64, print_int}
use headless_db_mcp.Strings.Numerals.RoundTrip.{
  parse_digits-decimal, parse_unsigned-decimal, parse_i64-decimal,
}
use headless_db_mcp.Tools.Export.{integer, classify, parse_integer, coerce_text}
use headless_db_mcp.Wire.Json.{from_i64}
use headless_db_mcp.Wire.JsonRpc.{pos_int, neg_int, number, string}

-- An integer of `i64` or of `u64`.
abbrev pub fits : ℤ → Bool
fits (pos n) = leb n u64_max
fits (negsuc n) = leb n (2 ^ 63 - 1)

parse_integer-decimal :
    (n : ℕ) → parse_integer (decimal n) ≡ (if leb n u64_max then some (pos_int n) else none)
unfolding parse_integer
parse_integer-decimal n =
    rw (parse_i64-decimal n, parse_unsigned-decimal u64_max n)
      (elim (Bool-cases (leb n (2 ^ 63 - 1))) [
        | inl e ↦ let wide : leb n u64_max ≡ true = ground arith in rw (e, wide) refl
        | inr e ↦ elim (Bool-cases (leb n u64_max)) [
          | inl f ↦ rw (e, f) refl
          | inr f ↦ rw (e, f) refl
        ]
      ])

no_digit : (s : Text) → parse_digits (b'-' ∷ s) ≡ none
unfolding parse_digits
no_digit s = refl

parse_integer-negative :
    (n : ℕ)
    → parse_integer (b'-' ∷ decimal (suc n))
      ≡ (if leb n (2 ^ 63 - 1) then some (neg_int n) else none)
unfolding parse_integer parse_i64 parse_unsigned
parse_integer-negative n =
    rw (parse_digits-decimal (suc n), no_digit (decimal (suc n)))
      (elim (Bool-cases (leb n (2 ^ 63 - 1))) [ inl e ↦ rw e refl | inr e ↦ rw e refl ])

-- In a column of an integer type, the text of an integer of any size becomes the JSON number of that
-- integer if it is one of 64 bits, signed or unsigned, and else stays the text.
pub coerce_text-print_int :
    (parse_f64 : Text → Option ℕ) (type_name : Text) (i : ℤ)
    → classify type_name ≡ integer
    → coerce_text parse_f64 (print_int i) type_name
      ≡ (if fits i then number (from_i64 i) else string (print_int i))
unfolding coerce_text print_int
coerce_text-print_int parse_f64 type_name (pos n) c =
    rw (c, parse_integer-decimal n)
      (elim (Bool-cases (leb n u64_max)) [ inl f ↦ rw f refl | inr f ↦ rw f refl ])
coerce_text-print_int parse_f64 type_name (negsuc n) c =
    rw (c, parse_integer-negative n)
      (elim (Bool-cases (leb n (2 ^ 63 - 1))) [ inl f ↦ rw f refl | inr f ↦ rw f refl ])
