-- ===== src/Strings/Utf8.antt =====
-- `String::from_utf8_lossy`: each maximal part of the bytes that begins no character becomes one
-- U+FFFD. It undoes `as_bytes`.
pub mod RoundTrip
use headless_db_mcp.Prelude.{
  ℕ, ◌+◌, ◌-◌, ◌*◌, Bool, ◌&&◌, ltb, leb, ◌==◌, nat_eq, text_eq, List, [], ◌∷◌, ◌++◌, Text,
  if◌then◌else◌,
}

abbrev pub replacement : ℕ
replacement = 0xfffd

abbrev between : ℕ → ℕ → ℕ → Bool
between lo hi b = leb lo b && leb b hi

is_continuation : ℕ → Bool
is_continuation b = between 0x80 0xbf b

-- Whether `b` may follow `first` in a character of three bytes, or of four.
second_of_three : ℕ → ℕ → Bool
unfolding is_continuation
second_of_three first b =
    if first == 0xe0
    then between 0xa0 0xbf b
    else if first == 0xed
    then between 0x80 0x9f b
    else is_continuation b

second_of_four : ℕ → ℕ → Bool
unfolding is_continuation
second_of_four first b =
    if first == 0xf0
    then between 0x90 0xbf b
    else if first == 0xf4
    then between 0x80 0x8f b
    else is_continuation b

-- The length that the first byte announces.
width : ℕ → ℕ
width first =
    if ltb first 0x80
    then 1
    else if between 0xc2 0xdf first
    then 2
    else if between 0xe0 0xef first
    then 3
    else if between 0xf0 0xf4 first
    then 4
    else 0

-- Where the decoder stands: between characters, or with the code point of the bytes so far and the
-- number of continuation bytes that are missing; the next byte of a long character is checked
-- against its first byte if it is the second.
pub data Decoder : Type 0 where
  between_characters : Decoder
  second_byte : ℕ → Decoder
  further_bytes : ℕ → ℕ → Decoder

-- What a first byte does: the characters that it completes, and the state behind it.
start : ℕ → Text × Decoder
start b =
    if width b == 1
    then (b ∷ [], between_characters)
    else if width b == 0
    then (replacement ∷ [], between_characters)
    else ([], second_byte b)

-- The byte does not continue the character: the bytes before it are replaced, and it is read as a
-- first byte.
restart : ℕ → Text × Decoder
unfolding start
restart b = let (out, d) = start b in (replacement ∷ out, d)

advance_second : ℕ → ℕ → Text × Decoder
unfolding restart
advance_second first b =
    if width first == 2
    then (if is_continuation b
        then ((((first - 0xc0) * 0x40) + (b - 0x80)) ∷ [], between_characters)
        else restart b)
    else if width first == 3
    then (if second_of_three first b
        then ([], further_bytes 1 ((first - 0xe0) * 0x40 + (b - 0x80)))
        else restart b)
    else (if second_of_four first b
        then ([], further_bytes 2 ((first - 0xf0) * 0x40 + (b - 0x80)))
        else restart b)

advance_further : ℕ → ℕ → ℕ → Text × Decoder
unfolding restart
advance_further missing point b =
    if is_continuation b
    then (let point' = point * 0x40 + (b - 0x80) in
        if missing == 1
        then (point' ∷ [], between_characters)
        else ([], further_bytes (missing - 1) point'))
    else restart b

advance : Decoder → ℕ → Text × Decoder
unfolding start advance_second advance_further
advance between_characters b = start b
advance (second_byte first) b = advance_second first b
advance (further_bytes missing point) b = advance_further missing point b

unfoldable decode : Decoder → List ℕ → Text
unfolding advance
decode between_characters [] = []
decode (second_byte first) [] = replacement ∷ []
decode (further_bytes missing point) [] = replacement ∷ []
decode d (b ∷ bs) = let (out, d') = advance d b in out ++ decode d' bs

unfoldable pub from_utf8_lossy : List ℕ → Text
unfolding decode width is_continuation second_of_three second_of_four
from_utf8_lossy bytes = decode between_characters bytes
