-- ===== src/Postgres/Query.antt =====
-- crates/driver-postgres/src/query.rs: a script, a query with parameters, and a query of a user, whose
-- rows are fetched through a portal up to the cap.
pub mod Ending
pub mod Reading
pub mod Capped
use headless_db_mcp.Core.{CellValue, null, text, DriverResult}
use headless_db_mcp.Core.Results.{QueryResult, effective_cap, min}
use headless_db_mcp.Postgres.Cells.{
  Column, Reader, Row, Format, to_params, convert_rows, column_names_and_types,
}
use headless_db_mcp.Postgres.Errors.{PgError, map_query_error}
use headless_db_mcp.Prelude.{
  ℕ, zero, suc, ◌-◌, Bool, true, false, ltb, leb, nat_eq, text_eq, Option, none, some, List, [],
  ◌∷◌, ◌++◌, map, Text, codes, length, Result, ok, err, ◌>>=◌, if◌then◌else◌, chain, failing_with,
}

pub data SimpleMessage : Type 0 where
  row_description : List Text → SimpleMessage
  simple_row : List (Option Text) → SimpleMessage
  command_complete : ℕ → SimpleMessage
  other_message : SimpleMessage

-- What the driver takes from `tokio_postgres`; `S` is the state of the session and of the server.
-- `dropped` is what dropping a transaction does that was not committed.
pub record PgClient (Raw Stmt Portal S : Type 0) : Type 0 where
  pub reader : Reader Raw
  pub simple_query : Text → S → Result (List SimpleMessage) PgError × S
  pub query : Text → List (Option (List ℕ) × Format) → S → Result (List (Row Raw)) PgError × S
  pub start : Bool → S → Result (Unit {0}) PgError × S
  pub prepare : Text → S → Result Stmt PgError × S
  pub columns_of : Stmt → List Column
  pub bind : Stmt → List (Option (List ℕ) × Format) → S → Result Portal PgError × S
  pub query_portal : Portal → ℕ → S → Result (List (Row Raw)) PgError × S
  pub commit : S → Result (Unit {0}) PgError × S
  pub dropped : S → S

abbrev pub portal_batch_size : ℕ
portal_batch_size = 1000

-- The result of a statement that no cap applies to, or of one whose rows are fetched.
pub record Fetched : Type 0 where
  pub columns : List Text
  pub column_type_names : List Text
  pub rows : List (List CellValue)
  pub is_truncated : Bool

abbrev pub nothing_fetched : Fetched
nothing_fetched = record { columns = []; column_type_names = []; rows = []; is_truncated = false }

abbrev pub result_of : ℕ → ℕ → Fetched → QueryResult
result_of elapsed rows_affected f = record {
  columns = f.columns;
  column_type_names = f.column_type_names;
  rows = f.rows;
  rows_affected = rows_affected;
  execution_time = elapsed;
  is_truncated = f.is_truncated;
  status_message = none;
  column_meta = none;
}

abbrev pub simple_cell : Option Text → CellValue
simple_cell none = null
simple_cell (some t) = text t

-- What one message does to the columns and rows, and to the count of affected rows.
abbrev pub read_message : SimpleMessage → Fetched × ℕ → Fetched × ℕ
read_message (row_description columns) (f, n) = (record f { columns = columns; rows = [] }, n)
read_message (simple_row values) (f, n) =
    (record f { rows = f.rows ++ (map simple_cell values ∷ []) }, n)
read_message (command_complete count) (f, n) = (f, count)
read_message other_message (f, n) = (f, n)

unfoldable pub read_messages : List SimpleMessage → Fetched × ℕ → Fetched × ℕ
read_messages [] read = read
read_messages (m ∷ ms) read = read_messages ms (read_message m read)

abbrev pub script_result : ℕ → Fetched × ℕ → QueryResult
script_result elapsed (f, n) =
    result_of elapsed n (record f { column_type_names = map (λ c. codes "text") f.columns })

abbrev pub is_empty : {A : Type 0} → List A → Bool
is_empty [] = true
is_empty (a ∷ rest) = false

abbrev pub set_columns : Option (List Text × List Text) → Fetched → Fetched
set_columns none f = f
set_columns (some (names, types)) f = record f { columns = names; column_type_names = types }

abbrev pub or_nothing : Option (List CellValue) → List CellValue
or_nothing none = []
or_nothing (some parameters) = parameters

module _ {Raw Stmt Portal S : Type 0} (client : PgClient Raw Stmt Portal S) where
  unfoldable pub execute : ℕ → Text → S → DriverResult QueryResult × S
  execute elapsed sql s =
      chain (failing_with map_query_error (client.simple_query sql s)) λ messages s'.
        (ok (script_result elapsed (read_messages messages (nothing_fetched, 0))), s')

  abbrev pub columns_of_rows : List (Row Raw) → List Text × List Text
  columns_of_rows [] = ([], [])
  columns_of_rows (row ∷ rows) = column_names_and_types row.columns

  abbrev pub whole_result : ℕ → List (Row Raw) → List (List CellValue) → QueryResult
  whole_result elapsed rows values =
      let (names, types) = columns_of_rows rows in
      result_of elapsed (length values)
        (record { columns = names; column_type_names = types; rows = values; is_truncated = false })

  unfoldable pub execute_parameterized :
      ℕ → Text → List CellValue → S → DriverResult QueryResult × S
  execute_parameterized elapsed sql parameters s =
      chain (failing_with map_query_error (client.query sql (to_params parameters) s)) λ rows s'.
        (convert_rows client.reader rows >>= λ values. ok (whole_result elapsed rows values), s')

  unfoldable pub stmt_columns : Stmt → Option (List Text × List Text)
  stmt_columns stmt =
      if is_empty (client.columns_of stmt)
      then none
      else some (column_names_and_types (client.columns_of stmt))

  abbrev pub found_columns : Stmt → List (Row Raw) → Option (List Text × List Text)
  found_columns stmt [] = stmt_columns stmt
  found_columns stmt (first ∷ rest) = some (column_names_and_types first.columns)

  abbrev pub name_columns : Stmt → List (Row Raw) → Fetched → Fetched
  name_columns stmt batch f =
      if is_empty f.columns then set_columns (found_columns stmt batch) f else f

  -- A portal for the statement, in the transaction that was started.
  unfoldable pub open_portal : Text → List CellValue → S → DriverResult (Stmt × Portal) × S
  open_portal sql parameters s =
      chain (failing_with map_query_error (client.prepare sql s)) λ stmt s1.
        chain (failing_with map_query_error (client.bind stmt (to_params parameters) s1))
          λ portal s2. (ok (stmt, portal), s2)

  -- `none` if the fuel did not suffice.
  abbrev pub Looped : Type 0
  Looped = Option (DriverResult Fetched × S)

  -- Behind the conversion of a batch of `m` rows, `n` of which were asked for.
  abbrev pub after_rows :
      (Fetched → S → Looped) → ℕ → ℕ → Fetched → DriverResult (List (List CellValue)) → S → Looped
  after_rows loop n m f (err e) s = some (err e, s)
  after_rows loop n m f (ok values) s =
      let f' = record f { rows = f.rows ++ values } in
      let rest = loop f' s in if ltb m n then some (ok f', s) else rest

  abbrev pub after_batch :
      (Fetched → S → Looped) → Stmt → ℕ → Fetched → DriverResult (List (Row Raw)) × S → Looped
  after_batch loop stmt n f (err e, s) = some (err e, s)
  after_batch loop stmt n f (ok batch, s) =
      after_rows loop n (length batch) (name_columns stmt batch f)
        (convert_rows client.reader batch) s

  abbrev pub fetch_size : ℕ → Fetched → ℕ
  fetch_size cap f = min (cap - length f.rows) portal_batch_size

  unfoldable pub fetch_loop : ℕ → Stmt → Portal → ℕ → Fetched → S → Looped
  fetch_loop zero stmt portal cap f s = none
  fetch_loop (suc fuel) stmt portal cap f s =
      let n = fetch_size cap f in
      let next =
        after_batch (fetch_loop fuel stmt portal cap) stmt n f
          (failing_with map_query_error (client.query_portal portal n s)) in
      if leb cap (length f.rows) then some (ok (record f { is_truncated = true }), s) else next

  -- The commit, or what an error drops.
  abbrev pub finish : ℕ → Looped → Option (DriverResult QueryResult × S)
  finish elapsed none = none
  finish elapsed (some (err e, s)) = some (err e, client.dropped s)
  finish elapsed (some (ok f, s)) = some (
      chain (failing_with map_query_error (client.commit s))
        λ u s'. (ok (result_of elapsed (length f.rows) f), s'))

  abbrev pub in_transaction :
      ℕ → ℕ → DriverResult (Stmt × Portal) × S → Option (DriverResult QueryResult × S)
  in_transaction elapsed cap (err e, s) = some (err e, client.dropped s)
  in_transaction elapsed cap (ok (stmt, portal), s) =
      finish elapsed (fetch_loop (suc cap) stmt portal cap nothing_fetched s)

  abbrev pub started :
      ℕ
      → Text
      → ℕ
      → List CellValue
      → DriverResult (Unit {0}) × S
      → Option (DriverResult QueryResult × S)
  started elapsed sql cap parameters (err e, s) = some (err e, s)
  started elapsed sql cap parameters (ok u, s) =
      in_transaction elapsed cap (open_portal sql parameters s)

  unfoldable pub execute_user_query :
      ℕ
      → Text
      → Option ℕ
      → Option (List CellValue)
      → Bool
      → S
      → Option (DriverResult QueryResult × S)
  execute_user_query elapsed sql row_cap parameters read_only s =
      started elapsed sql (effective_cap row_cap) (or_nothing parameters)
        (failing_with map_query_error (client.start read_only s))
