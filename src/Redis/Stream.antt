-- ===== src/Redis/Stream.antt =====
-- crates/driver-redis/src/stream.rs: a pseudo-table is streamed by one SCAN after another.
pub mod Bounded
use headless_db_mcp.Redis.Keys.{command, fetch_batch}
use headless_db_mcp.Core.{CellValue, DriverError, driver_error, query, connection}
use headless_db_mcp.Core.Results.{ColumnInfo, StreamElement, header, rows, emergency_max, take}
use headless_db_mcp.Prelude.{
  String, ℕ, zero, suc, ◌+◌, ◌-◌, Bool, true, false, ◌||◌, ltb, leb, ◌==◌, nat_eq, text_eq, List,
  [], ◌∷◌, ◌++◌, map, arith, Text, codes, lit, length, Result, ok, err, ◌>>=◌, ◌>>◌, ok_or,
  if◌then◌else◌,
}
use headless_db_mcp.Redis.Command.{tokenize}
use headless_db_mcp.Redis.Query.{Client}
use headless_db_mcp.Redis.Reply.{RedisError, map_error}
use headless_db_mcp.Redis.Schema.{validate_pseudo_table, columns_for}
use headless_db_mcp.Strings.{as_bytes, decimal}
use headless_db_mcp.Strings.Numerals.{parse_unsigned, u64_max}

abbrev pub default_scan_count : ℕ
default_scan_count = 500

pub record ScanSpec : Type 0 where
  pub table : Text
  pub pattern : Text
  pub count : ℕ

unfoldable pub query_error : String → DriverError
query_error message = driver_error query (lit message)

unfoldable pub not_connected_error : DriverError
not_connected_error = driver_error connection (lit "not connected")

abbrev pub first_token : List Text → Result (Text × List Text) DriverError
first_token [] = err (
    query_error
      "stream_rows requires a pseudo-table name (string, hash, list, set, zset, or stream)")
first_token (token ∷ rest) = ok (token, rest)

-- `to_lowercase` is that of `str`, and `quoted` the `Debug` form of a text.
module _ {Cmd S : Type 0} (client : Client Cmd S) (to_lowercase quoted : Text → Text) where
  abbrev pub count_of : Text → Result ℕ DriverError
  count_of value =
      ok_or (parse_unsigned u64_max value)
        (driver_error query (lit "COUNT must be a positive integer, got " ++ quoted value))

  -- The loop over the clauses, two tokens at a time.
  unfoldable pub parse_clauses : ScanSpec → List Text → Result ScanSpec DriverError
  parse_clauses spec [] = ok spec
  parse_clauses spec (clause ∷ []) =
      let name = client.to_uppercase clause in
      if name == codes "MATCH"
      then err (query_error "MATCH requires a pattern argument")
      else if name == codes "COUNT"
      then err (query_error "COUNT requires a numeric argument")
      else err (
          driver_error query (
            lit "unrecognized stream_rows clause "
            ++ (quoted name ++ lit "; expected MATCH or COUNT")))
  parse_clauses spec (clause ∷ value ∷ rest) =
      let name = client.to_uppercase clause in
      let matched = parse_clauses (record spec { pattern = value }) rest in
      let counted = count_of value >>= λ n. parse_clauses (record spec { count = n }) rest in
      if name == codes "MATCH"
      then matched
      else if name == codes "COUNT"
      then counted
      else err (
          driver_error query (
            lit "unrecognized stream_rows clause "
            ++ (quoted name ++ lit "; expected MATCH or COUNT")))

  unfoldable pub parse_scan_spec : Text → Result ScanSpec DriverError
  parse_scan_spec q = do
    tokens ← tokenize q
    found ← first_token tokens
    validate_pseudo_table quoted (to_lowercase found.0)
    parse_clauses
        (record { table = to_lowercase found.0; pattern = codes "*"; count = default_scan_count })
        found.1

  -- How the stream ended: at its end, with an error, or not within the fuel.
  pub data Ending : Type 0 where
    finished unfinished : Ending
    failed_with : DriverError → Ending

  abbrev pub Streamed : Type 0
  Streamed = List StreamElement × Ending × S

  abbrev pub scan_command : ScanSpec → ℕ → Cmd
  scan_command spec cursor = command client to_lowercase quoted (codes "SCAN") (
      as_bytes (decimal cursor)
      ∷ as_bytes (codes "MATCH")
      ∷ as_bytes spec.pattern
      ∷ as_bytes (codes "COUNT")
      ∷ as_bytes (decimal spec.count)
      ∷ as_bytes (codes "TYPE")
      ∷ as_bytes spec.table
      ∷ [])

  abbrev pub yield_rows : List (List CellValue) → Streamed → Streamed
  yield_rows [] rest = rest
  yield_rows (row ∷ batch) (elements, ending, s) = (rows (row ∷ batch) ∷ elements, ending, s)

  abbrev pub fit : ℕ → List (List CellValue) → List (List CellValue)
  fit total batch =
      if ltb emergency_max (total + length batch) then take (emergency_max - total) batch else batch

  -- What one SCAN and the commands for its keys give: rows and the next cursor, or an error.
  pub data Round : Type 0 where
    scanned : List (List CellValue) → ℕ → Round
    stopped : DriverError → Round

  abbrev pub batch_round : ℕ → Result (List (List CellValue)) DriverError × S → Round × S
  batch_round next_cursor (ok batch, s) = (scanned batch next_cursor, s)
  batch_round next_cursor (err e, s) = (stopped e, s)

  abbrev pub scan_answered : Text → Result (ℕ × List (List ℕ)) RedisError × S → Round × S
  scan_answered table (err e, s) = (stopped (map_error query e), s)
  scan_answered table (ok (next_cursor, keys), s) =
      batch_round next_cursor (fetch_batch client to_lowercase quoted table keys s)

  abbrev pub stream_header : List ColumnInfo → StreamElement
  stream_header columns = header (record {
    columns = map (λ c. c.name) columns;
    column_type_names = map (λ c. c.data_type) columns;
  })

  abbrev pub yield_header : List ColumnInfo → Streamed → Streamed
  yield_header columns (elements, ending, s) = (stream_header columns ∷ elements, ending, s)

  -- `scan` is `query_async` at the reply type of SCAN: the next cursor, and keys.
  module _ (scan : Cmd → S → Result (ℕ × List (List ℕ)) RedisError × S) where
    unfoldable pub scan_round : ScanSpec → ℕ → S → Round × S
    scan_round spec cursor s = scan_answered spec.table (scan (scan_command spec cursor) s)

    -- Behind the guard of the loop's head: `loop` is what goes on at the next cursor with a new total.
    abbrev pub after_round : (ℕ → ℕ → S → Streamed) → ℕ → Round × S → Streamed
    after_round loop total (stopped e, s) = ([], failed_with e, s)
    after_round loop total (scanned batch next_cursor, s) =
        let fitted = fit total batch in
        let total' = total + length fitted in
        let rest = loop next_cursor total' s in
        yield_rows fitted
          (if leb emergency_max total' || next_cursor == 0 then ([], finished, s) else rest)

    unfoldable pub scan_loop : ℕ → ScanSpec → ℕ → ℕ → S → Streamed
    scan_loop zero spec cursor total s = ([], unfinished, s)
    scan_loop (suc fuel) spec cursor total s =
        let next = after_round (scan_loop fuel spec) total (scan_round spec cursor s) in
        if leb emergency_max total then ([], finished, s) else next

    abbrev pub stream_columns : ℕ → ScanSpec → S → Result (List ColumnInfo) DriverError → Streamed
    stream_columns fuel spec s (err e) = ([], failed_with e, s)
    stream_columns fuel spec s (ok columns) = yield_header columns (scan_loop fuel spec 0 0 s)

    abbrev pub stream_spec : ℕ → Bool → S → Result ScanSpec DriverError → Streamed
    stream_spec fuel connected s (err e) = ([], failed_with e, s)
    stream_spec fuel false s (ok spec) = ([], failed_with not_connected_error, s)
    stream_spec fuel true s (ok spec) = stream_columns fuel spec s (columns_for quoted spec.table)

    -- `connected` is whether the driver holds a connection; `fuel` bounds the number of scans, which
    -- the server decides.
    unfoldable pub stream_rows : ℕ → Bool → Text → S → Streamed
    stream_rows fuel connected q s = stream_spec fuel connected s (parse_scan_spec q)
