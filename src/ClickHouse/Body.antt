-- ===== src/ClickHouse/Body.antt =====
-- crates/driver-clickhouse/src/jsonl.rs, and the loop of query.rs over a body that arrives in chunks: a
-- row for each line, up to the cap.
pub mod Cutting
pub mod Shown
pub mod Reading
use headless_db_mcp.ClickHouse.Request.{Http, ReqwestError, map_reqwest_error}
use headless_db_mcp.Core.{CellValue, null, text, DriverError, DriverResult, driver_error, protocol}
use headless_db_mcp.Prelude.{
  ℕ, Bool, true, false, leb, nat_eq, text_eq, Option, none, some, List, [], ◌∷◌, ◌++◌, map, Text,
  lit, length, Result, ok, err, ◌>>=◌, map_err, if◌then◌else◌,
}
use headless_db_mcp.Strings.{split}
use headless_db_mcp.Strings.Edges.{trim}
use headless_db_mcp.Strings.Utf8.{from_utf8_lossy}
use headless_db_mcp.Wire.JsonRpc
use headless_db_mcp.Wire.JsonRpc.{Value, get_member}

abbrev pub is_empty : {A : Type 0} → List A → Bool
is_empty [] = true
is_empty (a ∷ rest) = false

-- What the loop over the body has read: all rows that the cap allows, rows and the rest of a line, or
-- an error.
pub data Read : Type 0 where
  truncated : List (List CellValue) → Read
  going : List (List CellValue) → Text → Read
  failed_with : DriverError → Read

module _ {Client S : Type 0} (http : Http Client S) where
  abbrev pub json_value_to_cell : Option Value → CellValue
  json_value_to_cell none = null
  json_value_to_cell (some JsonRpc.null) = null
  json_value_to_cell (some (JsonRpc.string t)) = text t
  json_value_to_cell (some other) = text (http.print other)

  abbrev pub cells_of : List Text → Value → DriverResult (List CellValue)
  cells_of columns (JsonRpc.object ms) =
      ok (map (λ column. json_value_to_cell (get_member column ms)) columns)
  cells_of columns other =
      err (driver_error protocol (lit "a JSONEachRow line was not a JSON object"))

  unfoldable pub parse_row : List Text → Text → DriverResult (List CellValue)
  parse_row columns line = do
    parsed ←
        map_err (λ e. driver_error protocol (lit "failed to parse a JSONEachRow line: " ++ e))
          (http.from_str line)
    cells_of columns parsed

  module _ (columns : List Text) (cap : ℕ) where
    -- Behind the parsing of a line: `go` is what reads on.
    abbrev pub push_row :
        (List (List CellValue) → Read)
        → List (List CellValue)
        → DriverResult (List CellValue)
        → Read
    push_row go rows (err e) = failed_with e
    push_row go rows (ok row) =
        let rows' = rows ++ (row ∷ []) in
        let rest = go rows' in if leb cap (length rows') then truncated rows' else rest

    -- The loop over the lines of the buffer; the last of them has no newline yet.
    unfoldable pub read_lines : List (List CellValue) → List Text → Read
    read_lines rows [] = going rows []
    read_lines rows (last ∷ []) = going rows last
    read_lines rows (line ∷ next ∷ lines) =
        let skipped = read_lines rows (next ∷ lines) in
        let pushed =
          push_row (λ rows'. read_lines rows' (next ∷ lines)) rows (parse_row columns line) in
        if is_empty (trim line) then skipped else pushed

    abbrev pub read_on : (List (List CellValue) → Text → Read) → Read → Read
    read_on go (truncated rows) = truncated rows
    read_on go (going rows buffer) = go rows buffer
    read_on go (failed_with e) = failed_with e

    -- The loop over the chunks of the body.
    unfoldable pub read_chunks :
        List (List CellValue) → Text → List (Result (List ℕ) ReqwestError) → Read
    read_chunks rows buffer [] = going rows buffer
    read_chunks rows buffer (err e ∷ chunks) = failed_with (map_reqwest_error e)
    read_chunks rows buffer (ok bytes ∷ chunks) =
        read_on (λ rows' buffer'. read_chunks rows' buffer' chunks)
          (read_lines rows (split b'\n' (buffer ++ from_utf8_lossy bytes)))

    abbrev pub push_last :
        List (List CellValue)
        → DriverResult (List CellValue)
        → DriverResult (List (List CellValue) × Bool)
    push_last rows (err e) = err e
    push_last rows (ok row) = ok (rows ++ (row ∷ []), false)

    -- Behind the body: the rows, and whether they are cut off.
    abbrev pub read_end : Read → DriverResult (List (List CellValue) × Bool)
    read_end (truncated rows) = ok (rows, true)
    read_end (failed_with e) = err e
    read_end (going rows buffer) =
        let pushed = push_last rows (parse_row columns buffer) in
        if is_empty (trim buffer) then ok (rows, false) else pushed

    unfoldable pub read_body :
        List (Result (List ℕ) ReqwestError) → DriverResult (List (List CellValue) × Bool)
    read_body chunks = read_end (read_chunks [] [] chunks)
