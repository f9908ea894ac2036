-- ===== src/Postgres/Stream.antt =====
-- crates/driver-postgres/src/stream.rs: the rows of a statement in batches.
use headless_db_mcp.Core.{CellValue, DriverResult}
use headless_db_mcp.Core.Results.{StreamElement, header, rows, emergency_max, min}
use headless_db_mcp.Postgres.Cells.{Row, convert_rows, column_names_and_types}
use headless_db_mcp.Postgres.Errors.{map_query_error}
use headless_db_mcp.Postgres.Query.{PgClient, portal_batch_size, stmt_columns, open_portal}
use headless_db_mcp.Prelude.{
  ℕ, zero, suc, ◌+◌, ◌-◌, Bool, true, false, ltb, leb, nat_eq, text_eq, Option, none, some, List,
  [], ◌∷◌, Text, length, ok, err, if◌then◌else◌, failing_with,
}

module _ {Raw Stmt Portal S : Type 0} (client : PgClient Raw Stmt Portal S) where
  -- What a stream yields, how it ended, and the state behind it; `none` if the fuel did not suffice.
  abbrev pub Streaming : Type 0
  Streaming = Option (List StreamElement × (DriverResult (Unit {0}) × S))

  abbrev pub yield_element : StreamElement → Streaming → Streaming
  yield_element element none = none
  yield_element element (some (elements, ending)) = some (element ∷ elements, ending)

  abbrev pub header_of : List Text × List Text → StreamElement
  header_of (names, types) = header (record { columns = names; column_type_names = types })

  abbrev pub or_default : Option (List Text × List Text) → List Text × List Text
  or_default none = ([], [])
  or_default (some pair) = pair

  abbrev pub header_columns : Stmt → List (Row Raw) → List Text × List Text
  header_columns stmt [] = or_default (stmt_columns client stmt)
  header_columns stmt (first ∷ rest) = column_names_and_types first.columns

  abbrev pub with_header : Bool → Stmt → List (Row Raw) → Streaming → Streaming
  with_header true stmt batch rest = rest
  with_header false stmt batch rest = yield_element (header_of (header_columns stmt batch)) rest

  abbrev pub yield_batch : List (List CellValue) → Streaming → Streaming
  yield_batch [] rest = rest
  yield_batch (row ∷ values) rest = yield_element (rows (row ∷ values)) rest

  -- Behind the conversion of a batch of `m` rows, `n` of which were asked for.
  abbrev pub after_conversion :
      (ℕ → S → Streaming) → ℕ → ℕ → ℕ → DriverResult (List (List CellValue)) → S → Streaming
  after_conversion loop n m total (err e) s = some ([], (err e, s))
  after_conversion loop n m total (ok values) s =
      let rest = loop (total + m) s in
      yield_batch values (if ltb m n then some ([], (ok tt, s)) else rest)

  abbrev pub after_fetch :
      (ℕ → S → Streaming) → Stmt → ℕ → Bool → ℕ → DriverResult (List (Row Raw)) × S → Streaming
  after_fetch loop stmt n header_sent total (err e, s) = some ([], (err e, s))
  after_fetch loop stmt n header_sent total (ok batch, s) =
      with_header header_sent stmt batch
        (after_conversion loop n (length batch) total (convert_rows client.reader batch) s)

  unfoldable pub stream_loop : ℕ → Stmt → Portal → Bool → ℕ → S → Streaming
  stream_loop zero stmt portal header_sent total s = none
  stream_loop (suc fuel) stmt portal header_sent total s =
      let n = min (emergency_max - total) portal_batch_size in
      let next =
        after_fetch (stream_loop fuel stmt portal true) stmt n header_sent total
          (failing_with map_query_error (client.query_portal portal n s)) in
      if leb emergency_max total then some ([], (ok tt, s)) else next

  -- The commit at the end of the loop, or what an error drops.
  abbrev pub close : Streaming → Streaming
  close none = none
  close (some (elements, (err e, s))) = some (elements, (err e, client.dropped s))
  close (some (elements, (ok u, s))) =
      some (elements, failing_with map_query_error (client.commit s))

  abbrev pub stream_opened : DriverResult (Stmt × Portal) × S → Streaming
  stream_opened (err e, s) = some ([], (err e, client.dropped s))
  stream_opened (ok (stmt, portal), s) =
      close (stream_loop (suc emergency_max) stmt portal false 0 s)

  abbrev pub stream_started : Text → DriverResult (Unit {0}) × S → Streaming
  stream_started sql (err e, s) = some ([], (err e, s))
  stream_started sql (ok u, s) = stream_opened (open_portal client sql [] s)

  -- Behind the check that there is a connection.
  unfoldable pub stream_rows : Text → Bool → S → Streaming
  stream_rows sql read_only s =
      stream_started sql (failing_with map_query_error (client.start read_only s))
