-- ===== src/Strings/Numerals.antt =====
-- `str::parse` at the integer types, and how an integer is printed.
pub mod RoundTrip
use mathlib.Core.Option
use headless_db_mcp.Prelude.{
  ℕ, zero, suc, ◌-◌, ◌^◌, Bool, true, ◌&&◌, leb, ◌==◌, nat_eq, text_eq, Option, none, some, [], ◌∷◌,
  map, arith, Text, if◌then◌else◌, ℤ, pos, negsuc,
}
use headless_db_mcp.Strings.{is_ascii_digit, decimal}
use headless_db_mcp.Strings.Decimal.{value_from}

abbrev all_digits : Text → Bool
all_digits [] = true
all_digits (c ∷ s) = is_ascii_digit c && all_digits s

-- One digit at least, and nothing but digits: the number that they write.
unfoldable pub parse_digits : Text → Option ℕ
parse_digits [] = none
parse_digits (c ∷ s) =
    if is_ascii_digit c && all_digits s then some (value_from 0 (c ∷ s)) else none

abbrev pub at_most : ℕ → Option ℕ → Option ℕ
at_most limit none = none
at_most limit (some n) = if leb n limit then some n else none

-- `s.parse()` at an unsigned type whose largest value is `limit`: a plus sign may stand in front.
unfoldable pub parse_unsigned : ℕ → Text → Option ℕ
parse_unsigned limit [] = none
parse_unsigned limit (c ∷ s) =
    at_most limit (if c == b'+' then parse_digits s else parse_digits (c ∷ s))

abbrev pub u64_max : ℕ
u64_max = 2 ^ 64 - 1

-- The number `-n`, where there is one below the bound of the type.
abbrev pub negated : ℕ → Option ℕ → Option ℤ
negated limit none = none
negated limit (some zero) = some (pos 0)
negated limit (some (suc n)) = if leb n limit then some (negsuc n) else none

-- `s.parse::<i64>()`
unfoldable pub parse_i64 : Text → Option ℤ
parse_i64 [] = none
parse_i64 (c ∷ s) =
    if c == b'-'
    then negated (2 ^ 63 - 1) (parse_digits s)
    else Option.map pos (parse_unsigned (2 ^ 63 - 1) (c ∷ s))

-- `i.to_string()`
unfoldable pub print_int : ℤ → Text
print_int (pos n) = decimal n
print_int (negsuc n) = b'-' ∷ decimal (suc n)
