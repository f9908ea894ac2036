-- ===== src/Redis/Schema.antt =====
-- crates/driver-redis/src/schema.rs: the pseudo-tables, one for each type of value, and the
-- databases.
use headless_db_mcp.Core.{DriverError, driver_error, query}
use headless_db_mcp.Core.Results.{ColumnInfo}
use headless_db_mcp.Prelude.{
  ℕ, zero, suc, false, ◌==◌, nat_eq, text_eq, Option, none, some, List, [], ◌∷◌, ◌++◌, map, Text,
  codes, lit, Result, ok, err, ◌>>=◌, if◌then◌else◌, ℤ, pos, negsuc,
}
use headless_db_mcp.Redis.Command.{contains}
use headless_db_mcp.Redis.Reply.{
  Reply, RedisError, int, bulk_string, simple_string, array, set, pairs, items_of, list_of_pairs,
}
use headless_db_mcp.Strings.{decimal}
use headless_db_mcp.Strings.Edges.{trim}
use headless_db_mcp.Strings.Numerals.{parse_i64}

abbrev pub pseudo_tables : List Text
pseudo_tables =
    codes "string" ∷ codes "hash" ∷ codes "list" ∷ codes "set" ∷ codes "zset" ∷ codes "stream" ∷ []

-- `quoted` is the `Debug` form of a text.
module _ (quoted : Text → Text) where
  unfoldable pub unknown_pseudo_table : Text → DriverError
  unknown_pseudo_table name = driver_error query (
      lit "unknown Redis pseudo-table "
      ++ (quoted name ++ lit "; expected one of string, hash, list, set, zset, stream"))

  unfoldable pub validate_pseudo_table : Text → Result (Unit {0}) DriverError
  validate_pseudo_table name =
      if contains pseudo_tables name then ok tt else err (unknown_pseudo_table name)

  abbrev pub column : Text → ColumnInfo
  column name = record {
    name = name;
    data_type = codes "text";
    is_nullable = false;
    is_primary_key = false;
    default_value = none;
    extra = none;
    charset = none;
    collation = none;
    comment = none;
    identity_kind = none;
    is_generated = false;
    allowed_values = none;
  }

  unfoldable pub column_names : Text → Result (List Text) DriverError
  column_names table =
      if table == codes "string"
      then ok (codes "key" ∷ codes "value" ∷ [])
      else if table == codes "hash"
      then ok (codes "key" ∷ codes "field" ∷ codes "value" ∷ [])
      else if table == codes "list"
      then ok (codes "key" ∷ codes "index" ∷ codes "value" ∷ [])
      else if table == codes "set"
      then ok (codes "key" ∷ codes "member" ∷ [])
      else if table == codes "zset"
      then ok (codes "key" ∷ codes "member" ∷ codes "score" ∷ [])
      else if table == codes "stream"
      then ok (codes "key" ∷ codes "id" ∷ codes "fields" ∷ [])
      else err (unknown_pseudo_table table)

  unfoldable pub columns_for : Text → Result (List ColumnInfo) DriverError
  columns_for table = do names ← column_names table; ok (map column names)

abbrev pub default_database_count : ℤ
default_database_count = pos 16

abbrev pub parse_count : Option Text → Option ℤ
parse_count none = none
parse_count (some s) = parse_i64 (trim s)

-- `from_utf8` is `std::str::from_utf8`.
module _ (from_utf8 : List ℕ → Option Text) where
  unfoldable pub database_count_from_value : Reply → Option ℤ
  database_count_from_value (bulk_string bytes) = parse_count (from_utf8 bytes)
  database_count_from_value (simple_string s) = parse_count (some s)
  database_count_from_value (int i) = some i
  database_count_from_value _ = none

  abbrev pub first_count : List (Reply × Reply) → Option ℤ
  first_count [] = none
  first_count ((k, v) ∷ ps) =
      let later = first_count ps in
      elim (database_count_from_value v) [ none ↦ later | some n ↦ some n ]

  abbrev pub second_count : List Reply → Option ℤ
  second_count (name ∷ count ∷ rest) = database_count_from_value count
  second_count _ = none

  -- `fetch_configured_database_count`, at what the server answers to `CONFIG GET databases`.
  unfoldable pub configured_database_count : Result Reply RedisError → Option ℤ
  configured_database_count (err e) = none
  configured_database_count (ok (array items)) = second_count (items_of items)
  configured_database_count (ok (set items)) = second_count (items_of items)
  configured_database_count (ok (pairs ps)) = first_count (list_of_pairs ps)
  configured_database_count (ok _) = none

  abbrev pub or_default : Option ℤ → ℤ
  or_default none = default_database_count
  or_default (some n) = n

  -- The numerals from `start` on, `count` of them.
  abbrev pub numerals : ℕ → ℕ → List Text
  numerals start zero = []
  numerals start (suc count) = decimal start ∷ numerals (suc start) count

  -- `(0..count).map(|n| n.to_string())`: a range up to a negative number is empty.
  abbrev pub numerals_below : ℤ → List Text
  numerals_below (pos n) = numerals 0 n
  numerals_below (negsuc n) = []

  unfoldable pub fetch_databases : Result Reply RedisError → List Text
  fetch_databases answer = numerals_below (or_default (configured_database_count answer))
