-- ===== src/ClickHouse/Params/Hex.antt =====
-- The hex text of a bound value and its decoding.
use headless_db_mcp.Prelude.{
  ℕ, ◌<◌, ◌/◌, ◌%◌, ◌+◌, ◌*◌, ◌-◌, List, [], ◌∷◌, ◌≡◌, refl, arith, All, All-append, Text, Option,
  none, some, leb, if◌then◌else◌, ◌&&◌,
}
use headless_db_mcp.ClickHouse.Params.{hex_digit, to_hex}
use headless_db_mcp.Strings.{utf8_char, as_bytes}

abbrev pub nibble : ℕ → Option ℕ
nibble c =
    if leb b'0' c && leb c b'9'
    then some (c - b'0')
    else if leb b'a' c && leb c b'f'
    then some (c - b'a' + 10)
    else none

abbrev pub push_byte : Option ℕ → Option ℕ → Option (List ℕ) → Option (List ℕ)
push_byte (some h) (some l) (some bs) = some ((h * 16 + l) ∷ bs)
push_byte _ _ _ = none

-- What ClickHouse's `unhex` makes of lower-case hex text.
unfoldable pub unhex : Text → Option (List ℕ)
unhex [] = some []
unhex (c ∷ []) = none
unhex (c ∷ d ∷ s) = push_byte (nibble c) (nibble d) (unhex s)

abbrev pub IsByte : ℕ → Type 0
IsByte b = b < 256

nibble-hex_digit : (d : ℕ) → d < 16 → nibble (hex_digit d) ≡ some d
nibble-hex_digit d h = ground arith

-- Decoding the hex text of a list of bytes gives the bytes back.
pub unhex-to_hex : (bs : List ℕ) → All IsByte bs → unhex (to_hex bs) ≡ some bs
unfolding unhex to_hex
unhex-to_hex [] h = refl
unhex-to_hex (b ∷ bs) h =
    rw
      (
        nibble-hex_digit (b / 16) (omega arith),
        nibble-hex_digit (b % 16) (omega arith),
        unhex-to_hex bs h.1,
      )
      (ground arith)

-- Below the end of Unicode.
abbrev pub IsChar : ℕ → Type 0
IsChar c = c < 0x110000

utf8_char-bytes : (c : ℕ) → IsChar c → All IsByte (utf8_char c)
unfolding utf8_char
utf8_char-bytes c h = ground arith

pub as_bytes-bytes : (s : Text) → All IsChar s → All IsByte (as_bytes s)
unfolding as_bytes
as_bytes-bytes [] h = tt
as_bytes-bytes (c ∷ s) h =
    All-append IsByte (utf8_char c) (as_bytes s) (utf8_char-bytes c h.0) (as_bytes-bytes s h.1)
