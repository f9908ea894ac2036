-- ===== src/ClickHouse/Stream.antt =====
-- crates/driver-clickhouse/src/stream.rs: the rows of a query in batches, read from the body as it
-- arrives.
use headless_db_mcp.ClickHouse.Query.{fetch_probe_header}
use headless_db_mcp.ClickHouse.Body.{is_empty, parse_row}
use headless_db_mcp.ClickHouse.Request.{
  Http, Response, ReqwestError, ConnectedClient, World, send_request, dropping, map_reqwest_error,
}
use headless_db_mcp.Core.{CellValue, DriverError, DriverResult}
use headless_db_mcp.Core.Results.{StreamHeader, StreamElement, header, rows, emergency_max}
use headless_db_mcp.Prelude.{
  ℕ, suc, not, ◌&&◌, ltb, leb, nat_eq, text_eq, List, [], ◌∷◌, ◌++◌, Text, codes, length, Result,
  ok, err, if◌then◌else◌,
}
use headless_db_mcp.Strings.{split}
use headless_db_mcp.Strings.Edges.{trim}
use headless_db_mcp.Strings.Utf8.{from_utf8_lossy}

abbrev pub json_batch_size : ℕ
json_batch_size = 5000

-- Where the loop over the body stands: the batch under construction, the number of rows, and the text
-- behind the last newline.
pub record Standing : Type 0 where
  pub batch : List (List CellValue)
  pub total : ℕ
  pub buffer : Text

-- What the loop gives: the elements that it yields, and then whether it goes on, stops at the
-- emergency limit, or fails.
pub data Outcome : Type 0 where
  goes_on limit_reached : Standing → Outcome
  fails : DriverError → Outcome

abbrev pub Looped : Type 0
Looped = List StreamElement × Outcome

abbrev pub yield_first : List StreamElement → Looped → Looped
yield_first elements (later, outcome) = (elements ++ later, outcome)

-- A batch that is full is yielded.
abbrev pub full_batch : Standing → List StreamElement × Standing
full_batch st =
    if leb json_batch_size (length st.batch)
    then (rows st.batch ∷ [], record st { batch = [] })
    else ([], st)

module _ {Client S : Type 0} (http : Http Client S) (columns : List Text) where
  -- Behind the parsing of a line.
  abbrev pub after_row : (Standing → Looped) → Standing → DriverResult (List CellValue) → Looped
  after_row go st (err e) = ([], fails e)
  after_row go st (ok row) =
      let (elements, st') =
        full_batch (record st { batch = st.batch ++ (row ∷ []); total = suc st.total }) in
      let rest = go st' in
      yield_first elements (if leb emergency_max st'.total then ([], limit_reached st') else rest)

  -- The loop over the lines of the buffer; the last of them has no newline yet.
  unfoldable pub stream_lines : Standing → List Text → Looped
  stream_lines st [] = ([], goes_on (record st { buffer = [] }))
  stream_lines st (last ∷ []) = ([], goes_on (record st { buffer = last }))
  stream_lines st (line ∷ next ∷ lines) =
      let skipped = stream_lines st (next ∷ lines) in
      let read =
        after_row (λ st'. stream_lines st' (next ∷ lines)) st (parse_row http columns line) in
      if is_empty (trim line) then skipped else read

  abbrev pub loop_on : (Standing → Looped) → Looped → Looped
  loop_on go (elements, goes_on st) = yield_first elements (go st)
  loop_on go (elements, limit_reached st) = (elements, limit_reached st)
  loop_on go (elements, fails e) = (elements, fails e)

  -- The loop over the chunks of the body.
  unfoldable pub stream_chunks : Standing → List (Result (List ℕ) ReqwestError) → Looped
  stream_chunks st [] = ([], goes_on st)
  stream_chunks st (err e ∷ chunks) = ([], fails (map_reqwest_error e))
  stream_chunks st (ok bytes ∷ chunks) =
      loop_on (λ st'. stream_chunks st' chunks)
        (stream_lines st (split b'\n' (st.buffer ++ from_utf8_lossy bytes)))

  abbrev pub last_batch : List (List CellValue) → List StreamElement
  last_batch [] = []
  last_batch (row ∷ batch) = rows (row ∷ batch) ∷ []

  abbrev pub last_row :
      Standing → DriverResult (List CellValue) → List StreamElement × DriverResult (Unit {0})
  last_row st (err e) = ([], err e)
  last_row st (ok row) = (last_batch (st.batch ++ (row ∷ [])), ok tt)

  -- Behind the loop: a last line without a newline, and the batch that is left.
  abbrev pub stream_end : Standing → List StreamElement × DriverResult (Unit {0})
  stream_end st =
      let last = last_row st (parse_row http columns st.buffer) in
      if ltb st.total emergency_max && not (is_empty (trim st.buffer))
      then last
      else (last_batch st.batch, ok tt)

  abbrev pub after_loop : Looped → List StreamElement × DriverResult (Unit {0})
  after_loop (elements, fails e) = (elements, err e)
  after_loop (elements, goes_on st) = let (later, r) = stream_end st in (elements ++ later, r)
  after_loop (elements, limit_reached st) = let (later, r) = stream_end st in (elements ++ later, r)

  unfoldable pub stream_body :
      List (Result (List ℕ) ReqwestError) → List StreamElement × DriverResult (Unit {0})
  stream_body chunks =
      after_loop (stream_chunks (record { batch = []; total = 0; buffer = [] }) chunks)

module _ {Client S : Type 0} (http : Http Client S) where
  -- What a stream yields, how it ends, and the driver and server behind it.
  abbrev pub Streamed : Type 0
  Streamed = List StreamElement × (DriverResult (Unit {0}) × World http)

  abbrev pub stream_sent : StreamHeader → DriverResult (Response × Text) × World http → Streamed
  stream_sent h (err e, w) = (header h ∷ [], (err e, w))
  stream_sent h (ok (response, query_id), w) =
      let (elements, r) = stream_body http h.columns response.chunks in
      (header h ∷ elements, dropping http query_id (r, w))

  abbrev pub stream_probed :
      ConnectedClient Client → Text → DriverResult StreamHeader × World http → Streamed
  stream_probed connected sql (err e, w) = ([], (err e, w))
  stream_probed connected sql (ok h, w) =
      stream_sent h
        (send_request http connected sql ((codes "default_format", codes "JSONEachRow") ∷ []) w)

  -- Behind the check that there is a connection.
  unfoldable pub stream_rows : ConnectedClient Client → Text → World http → Streamed
  stream_rows connected sql w =
      stream_probed connected sql (fetch_probe_header http connected sql [] w)
