-- ===== src/Strings/Edges.antt =====
-- More of `str`: trimming at both ends, suffixes, and ASCII lower case.
use mathlib.Core.Option
pub mod Trimming
use headless_db_mcp.Prelude.{
  ℕ, ◌+◌, Bool, true, false, ◌&&◌, ◌||◌, leb, ◌==◌, nat_eq, text_eq, Option, none, some, [], ◌∷◌,
  map, Text, if◌then◌else◌,
}
use headless_db_mcp.Strings.{is_whitespace, trim_start, strip_prefix}

-- In front of blanks only: the blanks go too.
abbrev keep : ℕ → Text → Text
keep c [] = if is_whitespace c then [] else c ∷ []
keep c (d ∷ s) = c ∷ d ∷ s

-- `s.trim_end()`
unfoldable pub trim_end : Text → Text
trim_end [] = []
trim_end (c ∷ s) = keep c (trim_end s)

-- `s.trim()`
unfoldable pub trim : Text → Text
trim s = trim_end (trim_start s)

-- `s.strip_suffix(c)` for one character.
unfoldable pub strip_suffix_char : ℕ → Text → Option Text
strip_suffix_char c [] = none
strip_suffix_char c (d ∷ []) = if d == c then some [] else none
strip_suffix_char c (d ∷ e ∷ s) = Option.map (◌∷◌ d) (strip_suffix_char c (e ∷ s))

abbrev pub to_ascii_lower : ℕ → ℕ
to_ascii_lower c = if leb b'A' c && leb c b'Z' then c + 32 else c

-- `s.to_ascii_lowercase()`
unfoldable pub to_ascii_lowercase : Text → Text
to_ascii_lowercase s = map to_ascii_lower s

unfoldable pub starts_with : Text → Text → Bool
starts_with prefix s = elim (strip_prefix prefix s) [ none ↦ false | some rest ↦ true ]

-- `s.contains(needle)`
unfoldable pub contains_text : Text → Text → Bool
contains_text needle [] = starts_with needle []
contains_text needle (c ∷ s) = starts_with needle (c ∷ s) || contains_text needle s
