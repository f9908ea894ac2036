-- ===== src/Postgres/Cells.antt =====
-- crates/driver-postgres/src/convert.rs and params.rs: values of a row as cells, and cells as the
-- parameters of a query.
use headless_db_mcp.Core.{
  CellValue, null, text, bytes, DriverError, driver_error, internal, DriverResult,
}
use headless_db_mcp.Prelude.{
  ℕ, Bool, true, false, nat_eq, text_eq, Option, none, some, List, [], ◌∷◌, ◌++◌, map, Text, codes,
  lit, Result, ok, err, ◌>>=◌, map_err,
}
use headless_db_mcp.Strings.{as_bytes, decimal}

-- The types of `postgres-types` that the code names.
pub data PgType : Type 0 where
  bool int2 int4 oid int8 float4 float8 plain_text varchar bpchar name unknown bytea : PgType
  uuid json jsonb numeric date time timestamp timestamptz other_type : PgType

pub record Column : Type 0 where
  pub name : Text
  pub column_type : PgType
  pub type_name : Text
  pub type_oid : ℕ

-- The Rust type that a value is read as, with the format that it is printed in.
pub data Target : Type 0 where
  i16 i32 u32 i64 f32 f64 rust_uuid json_value rust_decimal naive_date naive_time : Target
  naive_date_time_seconds date_time_rfc3339 : Target

-- What the code takes from `tokio_postgres` and the crates behind its types: `try_get` at each type,
-- which answers with a value, with NULL, or with an error's text. Behind a `Target`, the value is
-- printed.
pub record Reader (Raw : Type 0) : Type 0 where
  pub try_get_bool : Raw → Result (Option Bool) Text
  pub try_get_string : Raw → Result (Option Text) Text
  pub try_get_bytes : Raw → Result (Option (List ℕ)) Text
  pub try_get_printed : Target → Raw → Result (Option Text) Text

pub record Row (Raw : Type 0) : Type 0 where
  pub columns : List Column
  pub values : List Raw

unfoldable pub unsupported_type_error : Column → DriverError
unsupported_type_error c = driver_error internal (
    lit "column \""
    ++ (c.name
        ++ (lit "\" has Postgres type \""
            ++ (c.type_name
                ++ (lit "\" (oid "
                    ++ (decimal c.type_oid
                        ++ lit
                            "), which this driver build does not yet support converting to a text cell value"))))))

unfoldable pub conversion_error : Column → Text → DriverError
conversion_error c source = driver_error internal (
    lit "failed to decode column \""
    ++ (c.name ++ (lit "\" (type \"" ++ (c.type_name ++ (lit "\"): " ++ source)))))

abbrev pub cell_or_null : {A : Type 0} → (A → CellValue) → Option A → CellValue
cell_or_null render none = null
cell_or_null render (some a) = render a

abbrev pub text_from :
    {A : Type 0} → Column → (A → Text) → Result (Option A) Text → DriverResult CellValue
text_from c render r = do
  value ← map_err (conversion_error c) r
  ok (cell_or_null (λ a. text (render a)) value)

abbrev pub bytes_from : Column → Result (Option (List ℕ)) Text → DriverResult CellValue
bytes_from c r = do value ← map_err (conversion_error c) r; ok (cell_or_null bytes value)

abbrev pub print_bool : Bool → Text
print_bool true = codes "true"
print_bool false = codes "false"

module _ {Raw : Type 0} (reader : Reader Raw) where
  abbrev pub printed : Column → Target → Raw → DriverResult CellValue
  printed c target raw = text_from c (λ t. t) (reader.try_get_printed target raw)

  abbrev pub string_value : Column → Raw → DriverResult CellValue
  string_value c raw = text_from c (λ t. t) (reader.try_get_string raw)

  abbrev pub value_of : PgType → Column → Raw → DriverResult CellValue
  value_of bool c raw = text_from c print_bool (reader.try_get_bool raw)
  value_of int2 c raw = printed c i16 raw
  value_of int4 c raw = printed c i32 raw
  value_of oid c raw = printed c u32 raw
  value_of int8 c raw = printed c i64 raw
  value_of float4 c raw = printed c f32 raw
  value_of float8 c raw = printed c f64 raw
  value_of plain_text c raw = string_value c raw
  value_of varchar c raw = string_value c raw
  value_of bpchar c raw = string_value c raw
  value_of name c raw = string_value c raw
  value_of unknown c raw = string_value c raw
  value_of bytea c raw = bytes_from c (reader.try_get_bytes raw)
  value_of uuid c raw = printed c rust_uuid raw
  value_of json c raw = printed c json_value raw
  value_of jsonb c raw = printed c json_value raw
  value_of numeric c raw = printed c rust_decimal raw
  value_of date c raw = printed c naive_date raw
  value_of time c raw = printed c naive_time raw
  value_of timestamp c raw = printed c naive_date_time_seconds raw
  value_of timestamptz c raw = printed c date_time_rfc3339 raw
  value_of other_type c raw = err (unsupported_type_error c)

  unfoldable pub row_value : Column → Raw → DriverResult CellValue
  row_value c raw = value_of c.column_type c raw

  -- The values of a row, one for each column.
  unfoldable pub row_values : List Column → List Raw → DriverResult (List CellValue)
  row_values [] raws = ok []
  row_values (c ∷ cs) [] = ok []
  row_values (c ∷ cs) (raw ∷ raws) = do
    value ← row_value c raw
    values ← row_values cs raws
    ok (value ∷ values)

  unfoldable pub convert_rows : List (Row Raw) → DriverResult (List (List CellValue))
  convert_rows [] = ok []
  convert_rows (row ∷ rows) = do
    values ← row_values row.columns row.values
    others ← convert_rows rows
    ok (values ∷ others)

unfoldable pub column_names_and_types : List Column → List Text × List Text
column_names_and_types cs = (map (λ c. c.name) cs, map (λ c. c.type_name) cs)

pub data Format : Type 0 where
  text_format binary_format : Format

-- `SqlParam`: nothing for NULL, or the bytes that are sent, and their format.
unfoldable pub to_sql : CellValue → Option (List ℕ)
to_sql null = none
to_sql (text t) = some (as_bytes t)
to_sql (bytes bs) = some bs

unfoldable pub encode_format : CellValue → Format
encode_format (bytes bs) = binary_format
encode_format null = text_format
encode_format (text t) = text_format

abbrev pub to_params : List CellValue → List (Option (List ℕ) × Format)
to_params values = map (λ v. (to_sql v, encode_format v)) values
