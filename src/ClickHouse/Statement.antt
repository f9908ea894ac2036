-- ===== src/ClickHouse/Statement.antt =====
-- crates/driver-clickhouse/src/statement.rs: does a statement return rows? `is_alphanumeric` is
-- `char::is_alphanumeric`, whose Unicode tables are not written out here.
pub mod Skipping
pub mod Leading
pub mod Stripped
use headless_db_mcp.Prelude.{
  ℕ, zero, suc, Bool, true, false, not, ◌||◌, ◌==◌, nat_eq, Option, none, some, List, [], ◌∷◌, Text,
  codes, length, if◌then◌else◌,
}
use headless_db_mcp.Strings.{strip_prefix, trim_start, to_ascii_upper}

-- What stands behind the first newline, or nothing.
unfoldable pub after_newline : Text → Text
after_newline [] = []
after_newline (c ∷ s) = if c == b'\n' then s else after_newline s

-- What stands behind the first `*/`, or nothing.
unfoldable pub after_close : Text → Text
after_close [] = []
after_close (c ∷ []) = []
after_close (c ∷ d ∷ s) =
    let later = after_close (d ∷ s) in if c == b'*' then (if d == b'/' then s else later) else later

-- One round of the loop on the trimmed text: the rest behind a comment, if it begins with one.
abbrev pub line_comment : Text → Option Text
line_comment trimmed = strip_prefix (codes "--") trimmed

abbrev pub block_comment : Text → Option Text
block_comment trimmed = strip_prefix (codes "/*") trimmed

unfoldable pub after_comment : Text → Option Text
after_comment trimmed = elim (line_comment trimmed) [
  | some after_marker ↦ some (after_newline after_marker)
  | none ↦ elim (block_comment trimmed) [
    | some after_marker ↦ some (after_close after_marker)
    | none ↦ none
  ]
]

-- Every comment that is skipped shortens the text, so that its length bounds the rounds.
unfoldable pub skip_within : ℕ → Text → Text
skip_within zero sql = sql
skip_within (suc fuel) sql = elim (after_comment (trim_start sql)) [
  | some rest ↦ skip_within fuel rest
  | none ↦ trim_start sql
]

unfoldable pub skip_whitespace_and_comments : Text → Text
skip_whitespace_and_comments sql = skip_within (suc (length sql)) sql

-- What follows the keyword, if the text begins with it in any case of letters.
unfoldable pub strip_keyword : Text → Text → Option Text
strip_keyword [] text = some text
strip_keyword (k ∷ keyword) [] = none
strip_keyword (k ∷ keyword) (c ∷ text) =
    if to_ascii_upper c == to_ascii_upper k then strip_keyword keyword text else none

abbrev pub row_returning_keywords : List Text
row_returning_keywords =
    codes "SELECT"
    ∷ codes "WITH"
    ∷ codes "SHOW"
    ∷ codes "DESCRIBE"
    ∷ codes "DESC"
    ∷ codes "EXPLAIN"
    ∷ []

module _ (is_alphanumeric : ℕ → Bool) where
  unfoldable pub ends_word : Option Text → Bool
  ends_word none = false
  ends_word (some []) = true
  ends_word (some (next ∷ text)) = not (is_alphanumeric next || next == b'_')

  unfoldable pub starts_with_keyword : Text → Text → Bool
  unfolding ends_word
  starts_with_keyword text keyword = ends_word (strip_keyword keyword text)

  unfoldable pub any_keyword : Text → List Text → Bool
  any_keyword text [] = false
  any_keyword text (keyword ∷ keywords) =
      starts_with_keyword text keyword || any_keyword text keywords

  unfoldable pub is_row_returning_statement : Text → Bool
  is_row_returning_statement sql =
      any_keyword (skip_whitespace_and_comments sql) row_returning_keywords
