-- ===== src/Redis/Keys.antt =====
-- crates/driver-redis/src/stream.rs: the rows of the keys of a pseudo-table, with one command for each
-- key.
pub mod Widths
use headless_db_mcp.Core.{CellValue, null, text, DriverError, query}
use headless_db_mcp.Prelude.{
  ℕ, zero, suc, ◌==◌, nat_eq, text_eq, List, [], ◌∷◌, ◌++◌, map, arith, Text, codes, Result, ok,
  err, ◌>>=◌, map_err, if◌then◌else◌,
}
use headless_db_mcp.Redis.Query.{Client}
use headless_db_mcp.Redis.Reply.{
  Reply, bulk_string, simple_string, flat_pairs, array_items, value_to_cell, value_to_json,
  map_error,
}
use headless_db_mcp.Redis.Schema.{unknown_pseudo_table}
use headless_db_mcp.Strings.{as_bytes, decimal}
use headless_db_mcp.Strings.Utf8.{from_utf8_lossy}
use headless_db_mcp.Wire.Json.{insert_member}
use headless_db_mcp.Wire.JsonRpc.{Members, object, end}

-- `to_lowercase` is that of `str`, and `quoted` the `Debug` form of a text.
module _ {Cmd S : Type 0} (client : Client Cmd S) (to_lowercase quoted : Text → Text) where
  abbrev pub cell : Reply → CellValue
  cell r = value_to_cell client.print client.print_f64 r

  abbrev pub with_args : Cmd → List (List ℕ) → Cmd
  with_args c [] = c
  with_args c (a ∷ arguments) = with_args (client.arg c a) arguments

  abbrev pub command : Text → List (List ℕ) → Cmd
  command name arguments = with_args (client.cmd (as_bytes name)) arguments

  abbrev pub pair_row : Text → Reply × Reply → List CellValue
  pair_row key (k, v) = text key ∷ cell k ∷ cell v ∷ []

  -- `enumerate`, from `i` on.
  abbrev pub indexed_rows : Text → ℕ → List Reply → List (List CellValue)
  indexed_rows key i [] = []
  indexed_rows key i (item ∷ items) =
      (text key ∷ text (decimal i) ∷ cell item ∷ []) ∷ indexed_rows key (suc i) items

  unfoldable pub field_json_key : Reply → Text
  field_json_key (bulk_string bytes) = from_utf8_lossy bytes
  field_json_key (simple_string s) = s
  field_json_key other = client.print (value_to_json client.print client.print_f64 other)

  abbrev pub fields_of : List (Reply × Reply) → Members → Members
  fields_of [] ms = ms
  fields_of ((field, val) ∷ ps) ms =
      fields_of ps
        (insert_member (field_json_key field) (value_to_json client.print client.print_f64 val) ms)

  -- The id and the fields of one entry of a stream.
  abbrev pub entry_row : Text → List Reply → List CellValue
  entry_row key [] = text key ∷ null ∷ text (client.print (object end)) ∷ []
  entry_row key (id ∷ []) = text key ∷ cell id ∷ text (client.print (object end)) ∷ []
  entry_row key (id ∷ fields ∷ rest) =
      text key ∷ cell id ∷ text (client.print (object (fields_of (flat_pairs fields) end))) ∷ []

  -- Each pseudo-table's command for a key, and the rows of its reply.
  unfoldable pub rows_of :
      Text → List ℕ → Text → Result (Cmd × (Reply → List (List CellValue))) DriverError
  rows_of table key key_text =
      if table == codes "string"
      then ok (command (codes "GET") (key ∷ []), λ v. (text key_text ∷ cell v ∷ []) ∷ [])
      else if table == codes "hash"
      then ok (command (codes "HGETALL") (key ∷ []), λ v. map (pair_row key_text) (flat_pairs v))
      else if table == codes "list"
      then ok (
        command (codes "LRANGE") (key ∷ as_bytes (codes "0") ∷ as_bytes (codes "-1") ∷ []),
        λ v. indexed_rows key_text 0 (array_items v),
      )
      else if table == codes "set"
      then ok (
        command (codes "SMEMBERS") (key ∷ []),
        λ v. map (λ member. text key_text ∷ cell member ∷ []) (array_items v),
      )
      else if table == codes "zset"
      then ok (
        command (codes "ZRANGE") (
            key
            ∷ as_bytes (codes "0")
            ∷ as_bytes (codes "-1")
            ∷ as_bytes (codes "WITHSCORES")
            ∷ []),
        λ v. map (pair_row key_text) (flat_pairs v),
      )
      else if table == codes "stream"
      then ok (
        command (codes "XRANGE") (key ∷ as_bytes (codes "-") ∷ as_bytes (codes "+") ∷ []),
        λ v. map (λ entry. entry_row key_text (array_items entry)) (array_items v),
      )
      else err (unknown_pseudo_table quoted table)

  abbrev pub fetch_with :
      Result (Cmd × (Reply → List (List CellValue))) DriverError
      → S
      → Result (List (List CellValue)) DriverError × S
  fetch_with (err e) s = (err e, s)
  fetch_with (ok (c, shape)) s =
      let (r, s') = client.query_async c s in
      (map_err (map_error query) r >>= λ value. ok (shape value), s')

  unfoldable pub fetch_rows_for_key :
      Text → List ℕ → S → Result (List (List CellValue)) DriverError × S
  fetch_rows_for_key table key s = fetch_with (rows_of table key (from_utf8_lossy key)) s

  abbrev pub append_rows :
      Result (List (List CellValue)) DriverError
      → Result (List (List CellValue)) DriverError × S
      → S
      → Result (List (List CellValue)) DriverError × S
  append_rows (err e) later s = (err e, s)
  append_rows (ok some_rows) (r, s') s = (r >>= λ more. ok (some_rows ++ more), s')

  -- The keys of one scan; the first that fails ends the stream.
  unfoldable pub fetch_batch :
      Text → List (List ℕ) → S → Result (List (List CellValue)) DriverError × S
  fetch_batch table [] s = (ok [], s)
  fetch_batch table (key ∷ keys) s =
      let (r, s') = fetch_rows_for_key table key s in
      let later = fetch_batch table keys s' in append_rows r later s'
