-- ===== src/ClickHouse/Tsv.antt =====
-- crates/driver-clickhouse/src/tsv.rs: bodies of the format TabSeparatedWithNamesAndTypes.
pub mod Unescaping
pub mod Parsing
use headless_db_mcp.Core.{CellValue, null, text, DriverError, driver_error, protocol}
use headless_db_mcp.Prelude.{
  ℕ, ◌==◌, not, nat_eq, text_eq, List, [], ◌∷◌, map, Text, codes, lit, length, Result, ok, err,
  if◌then◌else◌,
}
use headless_db_mcp.Strings.{split}

abbrev pub unescaped : ℕ → ℕ
unescaped d =
    if d == b't'
    then b'\t'
    else if d == b'n'
    then b'\n'
    else if d == b'r'
    then b'\r'
    else if d == b'0'
    then 0x00
    else if d == b'b'
    then 0x08
    else if d == b'f'
    then 0x0c
    else if d == b'a'
    then 0x07
    else if d == b'v'
    then 0x0b
    else if d == b'\\'
    then b'\\'
    else if d == b'\''
    then b'\''
    else d

unfoldable pub unescape_text : Text → Text
unescape_text [] = []
unescape_text (c ∷ []) = if not (c == b'\\') then c ∷ [] else b'\\' ∷ []
unescape_text (c ∷ d ∷ s) =
    let copied = c ∷ unescape_text (d ∷ s) in
    let escape = unescaped d ∷ unescape_text s in if not (c == b'\\') then copied else escape

unfoldable pub parse_data_cell : Text → CellValue
parse_data_cell raw = if raw == codes "\\N" then null else text (unescape_text raw)

-- `if lines.last() == Some(&"") { lines.pop(); }`
unfoldable pub pop_empty_last : List Text → List Text
pop_empty_last [] = []
pop_empty_last (line ∷ []) = if line == [] then [] else line ∷ []
pop_empty_last (line ∷ next ∷ lines) = line ∷ pop_empty_last (next ∷ lines)

unfoldable pub split_lines : Text → List Text
unfolding pop_empty_last
split_lines body = pop_empty_last (split b'\n' body)

abbrev pub texts : Text → List Text
texts line = map unescape_text (split b'\t' line)

unfoldable pub header_mismatch : DriverError
header_mismatch =
    driver_error protocol
      (lit "TabSeparatedWithNamesAndTypes header had a mismatched number of names and types")

unfoldable pub missing_header : DriverError
missing_header =
    driver_error protocol
      (lit "TabSeparatedWithNamesAndTypes response was missing its header lines")

unfoldable pub header_of : Text → Text → Result (List Text × List Text) DriverError
header_of names_line types_line =
    let columns = texts names_line in
    let column_type_names = texts types_line in
    if not (length columns == length column_type_names)
    then err header_mismatch
    else ok (columns, column_type_names)

-- A line that is not there is the empty text.
unfoldable pub parse_header_lines : List Text → Result (List Text × List Text) DriverError
parse_header_lines [] = header_of [] []
parse_header_lines (names ∷ []) = header_of names []
parse_header_lines (names ∷ types ∷ lines) = header_of names types

unfoldable pub parse_header : Text → Result (List Text × List Text) DriverError
unfolding parse_header_lines
parse_header body = parse_header_lines (split_lines body)

pub record ParsedTsv : Type 0 where
  pub columns : List Text
  pub column_type_names : List Text
  pub rows : List (List CellValue)

unfoldable pub parse_row : Text → List CellValue
parse_row line = map parse_data_cell (split b'\t' line)

unfoldable pub parse_lines : List Text → Result ParsedTsv DriverError
parse_lines [] = err missing_header
parse_lines (names ∷ []) = err missing_header
parse_lines (names ∷ types ∷ lines) =
    let columns = texts names in
    let column_type_names = texts types in
    if not (length columns == length column_type_names)
    then err header_mismatch
    else ok (record {
      columns = columns;
      column_type_names = column_type_names;
      rows = map parse_row lines;
    })

unfoldable pub parse_full : Text → Result ParsedTsv DriverError
unfolding parse_lines
parse_full [] = ok (record { columns = []; column_type_names = []; rows = [] })
parse_full (c ∷ body) = parse_lines (split_lines (c ∷ body))
