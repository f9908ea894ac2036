-- ===== src/Tools/Export.antt =====
-- crates/connections/src/tools/export_query_jsonl.rs: a result as JSON Lines, each cell with the
-- type that its column's type name and its text allow.
pub mod Classify
pub mod Typed
pub mod Lines
use mathlib.Core.Option
use headless_db_mcp.ClickHouse.Params.{to_hex}
use headless_db_mcp.Core.{CellValue, null, text, bytes}
use headless_db_mcp.Core.Results.{QueryResult}
use headless_db_mcp.Prelude.{
  ℕ, zero, suc, Bool, true, false, ◌&&◌, ◌||◌, ◌==◌, nat_eq, text_eq, Option, none, some, List, [],
  ◌∷◌, ◌++◌, map, arith, Text, codes, length, if◌then◌else◌,
}
use headless_db_mcp.Strings.{strip_prefix, is_ascii_digit}
use headless_db_mcp.Strings.Edges.{
  trim, to_ascii_lowercase, starts_with, contains_text, strip_suffix_char,
}
use headless_db_mcp.Strings.Numerals.{parse_i64, parse_unsigned, u64_max}
use headless_db_mcp.Wire.Json.{from_i64, from_f64}
use headless_db_mcp.Wire.JsonRpc.{Value, Number, pos_int, bool, number, string}
use headless_db_mcp.Wire.JsonRpc

pub data TypeClass : Type 0 where
  boolean integer real other : TypeClass

abbrev pub one_of : List Text → Text → Bool
one_of [] t = false
one_of (word ∷ words) t = t == word || one_of words t

unfoldable pub is_float : Text → Bool
is_float t =
    one_of (codes "real" ∷ codes "double" ∷ codes "double precision" ∷ []) t
    || starts_with (codes "float") t

abbrev pub all_ascii_digits : Text → Bool
all_ascii_digits [] = true
all_ascii_digits (c ∷ s) = is_ascii_digit c && all_ascii_digits s

-- Something is left, and it is all digits.
abbrev pub is_width : Option Text → Bool
is_width none = false
is_width (some []) = false
is_width (some (c ∷ s)) = all_ascii_digits (c ∷ s)

abbrev pub integer_names : List Text
integer_names =
    codes "int2"
    ∷ codes "int4"
    ∷ codes "int8"
    ∷ codes "smallint"
    ∷ codes "integer"
    ∷ codes "int"
    ∷ codes "bigint"
    ∷ codes "serial"
    ∷ codes "serial2"
    ∷ codes "serial4"
    ∷ codes "serial8"
    ∷ codes "smallserial"
    ∷ codes "bigserial"
    ∷ codes "oid"
    ∷ []

unfoldable pub is_integer : Text → Bool
is_integer t =
    one_of integer_names t
    || is_width (strip_prefix (codes "int") t)
    || is_width (strip_prefix (codes "uint") t)

abbrev pub or_else {ℓ} : {A : Type ℓ} → Option A → Option A → Option A
or_else none o = o
or_else (some a) o = some a

abbrev pub and_then {ℓ κ} : {A : Type ℓ} {B : Type κ} → Option A → (A → Option B) → Option B
and_then none f = none
and_then (some a) f = f a

-- What stands between the parentheses of a wrapper.
unfoldable pub unwrapped : Text → Option Text
unwrapped t =
    and_then
      (or_else (strip_prefix (codes "nullable(") t) (strip_prefix (codes "lowcardinality(") t))
      (strip_suffix_char b')')

-- The loop of `unwrap_wrappers`. Each round makes the name shorter.
unfoldable pub unwrap_within : ℕ → Text → Text
unwrap_within zero t = t
unwrap_within (suc fuel) t = elim (unwrapped t) [
  | none ↦ t
  | some inner ↦ unwrap_within fuel (trim inner)
]

unfoldable pub unwrap_wrappers : Text → Text
unwrap_wrappers t = unwrap_within (suc (length t)) t

unfoldable pub class_of : Text → TypeClass
class_of t =
    if t == codes "bool" || t == codes "boolean"
    then boolean
    else if contains_text (codes "decimal") t || contains_text (codes "numeric") t
    then other
    else if is_float t
    then real
    else if is_integer t
    then integer
    else other

unfoldable pub classify : Text → TypeClass
classify type_name = class_of (unwrap_wrappers (to_ascii_lowercase (trim type_name)))

abbrev pub true_words : List Text
true_words = codes "t" ∷ codes "true" ∷ codes "1" ∷ codes "yes" ∷ codes "y" ∷ []

abbrev pub false_words : List Text
false_words = codes "f" ∷ codes "false" ∷ codes "0" ∷ codes "no" ∷ codes "n" ∷ []

unfoldable pub parse_bool : Text → Option Bool
parse_bool t =
    let word = to_ascii_lowercase (trim t) in
    if one_of true_words word
    then some true
    else if one_of false_words word
    then some false
    else none

abbrev pub number_or_string : Text → Option Number → Value
number_or_string t none = string t
number_or_string t (some n) = number n

abbrev pub bool_or_string : Text → Option Bool → Value
bool_or_string t none = string t
bool_or_string t (some b) = bool b

unfoldable pub parse_integer : Text → Option Number
parse_integer t =
    or_else (Option.map from_i64 (parse_i64 t)) (Option.map pos_int (parse_unsigned u64_max t))

unfoldable pub hex_encode : List ℕ → Text
hex_encode bs = codes "\\x" ++ to_hex bs

-- `names.get(i).unwrap_or("")`, and the names behind it.
abbrev pub head_or_empty : List Text → Text
head_or_empty [] = []
head_or_empty (name ∷ names) = name

abbrev pub tail : List Text → List Text
tail [] = []
tail (name ∷ names) = names

-- `parse_f64` is `str::parse::<f64>`, with a float as its bits; `print` is `Value::to_string`.
module _ (parse_f64 : Text → Option ℕ) where
  abbrev pub coerce_as : TypeClass → Text → Value
  coerce_as boolean t = bool_or_string t (parse_bool t)
  coerce_as integer t = number_or_string t (parse_integer t)
  coerce_as real t = number_or_string t (and_then (parse_f64 t) from_f64)
  coerce_as other t = string t

  unfoldable pub coerce_text : Text → Text → Value
  coerce_text t type_name = coerce_as (classify type_name) t

  unfoldable pub cell_to_json : CellValue → Text → Value
  cell_to_json null type_name = JsonRpc.null
  cell_to_json (bytes bs) type_name = string (hex_encode bs)
  cell_to_json (text t) type_name = coerce_text t type_name

  module _ (print : Value → Text) where
    -- The cells of a row from the `i`-th on, with the names that are left for them.
    unfoldable pub render_cells : Bool → List CellValue → List Text → List Text → Text
    render_cells first [] columns type_names = []
    render_cells first (cell ∷ cells) columns type_names =
        (if first then [] else b',' ∷ [])
        ++ (print (string (head_or_empty columns))
            ++ (b':'
                ∷ (print (cell_to_json cell (head_or_empty type_names))
                    ++ render_cells false cells (tail columns) (tail type_names))))

    unfoldable pub render_row : QueryResult → List CellValue → Text
    render_row result row =
        b'{' ∷ (render_cells true row result.columns result.column_type_names ++ (b'}' ∷ []))

    abbrev pub render_rows : QueryResult → List (List CellValue) → Text
    render_rows result [] = []
    render_rows result (row ∷ rows) = render_row result row ++ (b'\n' ∷ render_rows result rows)

    unfoldable pub render_jsonl : QueryResult → Text
    render_jsonl result = render_rows result result.rows
