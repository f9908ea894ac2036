-- ===== src/Postgres/Driver.antt =====
-- crates/driver-postgres/src/driver.rs: the connection that a driver holds, what is kept beside it,
-- and the methods that do not read the catalogs. Each method runs with no other in between.
pub mod Sessions
use headless_db_mcp.Core.{
  CellValue, ConnectionConfig, DriverError, DriverResult, driver_error, connection,
}
use headless_db_mcp.Core.Results.{QueryResult, StreamElement}
use headless_db_mcp.Postgres.Config
use headless_db_mcp.Postgres.Config.{PgConfig, Connector, build_config, connector_of}
use headless_db_mcp.Postgres.Errors.{PgError, map_connect_error, map_query_error}
use headless_db_mcp.Postgres.Ident.{quote_ident}
use headless_db_mcp.Postgres.Query
use headless_db_mcp.Postgres.Query.{
  PgClient, SimpleMessage, row_description, simple_row, command_complete, other_message,
}
use headless_db_mcp.Postgres.Stream
use headless_db_mcp.Postgres.Tls.{TlsLibrary}
use headless_db_mcp.Prelude.{
  ℕ, zero, suc, ◌-◌, ◌*◌, ◌^◌, Bool, ltb, nat_eq, text_eq, Option, none, some, List, [], ◌∷◌, ◌++◌,
  arith, Text, codes, lit, Result, ok, err, ok_or, if◌then◌else◌, chain, failing_with,
}
use headless_db_mcp.Strings.{decimal}

pub record PostgresDriver (C T : Type 0) : Type 0 where
  pub config : ConnectionConfig
  pub client : Option C
  pub cancel_token : Option T
  pub server_version : Option Text
  pub current_schema : Option Text

-- What the driver takes from `tokio_postgres`: `connect`, which gives a client and a token to cancel
-- its queries with, and the calls on a client. `S` is the state of the servers; `current_schema_of`
-- is the query for the schema with the reading of its only cell.
pub record Postgres (Cert Anchor EndEntity C T Raw Stmt Portal S : Type 0) : Type 0 where
  pub tls : TlsLibrary Cert Anchor EndEntity
  pub open_session : PgConfig → Connector Anchor → S → Result (C × T) PgError × S
  pub calls : C → PgClient Raw Stmt Portal S
  pub current_schema_of : C → S → Result (Result (Option Text) Text) PgError × S
  pub send_cancel : T → S → S

unfoldable pub not_connected_error : DriverError
not_connected_error = driver_error connection (lit "not connected")

abbrev pub first_value : List (Option Text) → Option Text → Option Text
first_value [] later = later
first_value (none ∷ values) later = later
first_value (some value ∷ values) later = some value

unfoldable pub first_simple_query_value : List SimpleMessage → Option Text
first_simple_query_value [] = none
first_simple_query_value (simple_row values ∷ ms) =
    let later = first_simple_query_value ms in first_value values later
first_simple_query_value (row_description columns ∷ ms) = first_simple_query_value ms
first_simple_query_value (command_complete count ∷ ms) = first_simple_query_value ms
first_simple_query_value (other_message ∷ ms) = first_simple_query_value ms

abbrev pub version_in : Result (List SimpleMessage) PgError → Option Text
version_in (ok messages) = first_simple_query_value messages
version_in (err e) = none

abbrev pub schema_in : Result (Result (Option Text) Text) PgError → Option Text
schema_in (ok (ok schema)) = schema
schema_in (ok (err e)) = none
schema_in (err e) = none

unfoldable pub new : {C T : Type 0} → ConnectionConfig → PostgresDriver C T
new config = record {
  config = config;
  client = none;
  cancel_token = none;
  server_version = none;
  current_schema = none;
}

module _ {Cert Anchor EndEntity C T Raw Stmt Portal S : Type 0}
    (postgres : Postgres Cert Anchor EndEntity C T Raw Stmt Portal S) where
  abbrev pub Driver : Type 0
  Driver = PostgresDriver C T

  unfoldable pub connect_with_config : ConnectionConfig → S → DriverResult (C × T) × S
  connect_with_config config s =
      chain (connector_of postgres.tls config, s)
        λ connector s1.
          failing_with map_connect_error (postgres.open_session (build_config config) connector s1)

  unfoldable pub refresh_session_caches : Driver → C → S → Driver × S
  refresh_session_caches d c s =
      let (shown, s1) = (postgres.calls c).simple_query (codes "SHOW server_version") s in
      let (schema, s2) = postgres.current_schema_of c s1 in
      (record d { server_version = version_in shown; current_schema = schema_in schema }, s2)

  -- Behind the opening of a new session: the caches, the token and the client are those of it.
  abbrev pub install : Driver → DriverResult (C × T) × S → DriverResult (Unit {0}) × (Driver × S)
  install d (err e, s) = (err e, (d, s))
  install d (ok (c, token), s) =
      let (refreshed, s') = refresh_session_caches d c s in
      (ok tt, (record refreshed { client = some c; cancel_token = some token }, s'))

  unfoldable pub connect : Driver → S → DriverResult (Unit {0}) × (Driver × S)
  connect d s = install d (connect_with_config d.config s)

  unfoldable pub disconnect : Driver → Driver
  disconnect d = record d {
    client = none;
    cancel_token = none;
    server_version = none;
    current_schema = none;
  }

  unfoldable pub switch_database : Driver → Text → S → DriverResult (Unit {0}) × (Driver × S)
  switch_database d database s =
      install d (connect_with_config (record d.config { database = some database }) s)

  -- A call on the client, if there is one.
  abbrev pub with_client :
      {A : Type 0} → Driver → (C → S → DriverResult A × S) → S → DriverResult A × S
  with_client d call s = chain (ok_or d.client not_connected_error, s) call

  unfoldable pub execute : ℕ → Driver → Text → S → DriverResult QueryResult × S
  execute elapsed d sql s = with_client d (λ c. Query.execute (postgres.calls c) elapsed sql) s

  unfoldable pub execute_parameterized :
      ℕ → Driver → Text → List CellValue → S → DriverResult QueryResult × S
  execute_parameterized elapsed d sql parameters s =
      with_client d (λ c. Query.execute_parameterized (postgres.calls c) elapsed sql parameters) s

  abbrev pub query_on :
      ℕ
      → Option C
      → Text
      → Option ℕ
      → Option (List CellValue)
      → Bool
      → S
      → Option (DriverResult QueryResult × S)
  query_on elapsed none sql row_cap parameters read_only s = some (err not_connected_error, s)
  query_on elapsed (some c) sql row_cap parameters read_only s =
      Query.execute_user_query (postgres.calls c) elapsed sql row_cap parameters read_only s

  unfoldable pub execute_user_query :
      ℕ
      → Driver
      → Text
      → Option ℕ
      → Option (List CellValue)
      → S
      → Option (DriverResult QueryResult × S)
  execute_user_query elapsed d sql row_cap parameters s =
      query_on elapsed d.client sql row_cap parameters d.config.read_only s

  abbrev pub stream_on :
      Option C → Text → Bool → S → Option (List StreamElement × (DriverResult (Unit {0}) × S))
  stream_on none sql read_only s = some ([], (err not_connected_error, s))
  stream_on (some c) sql read_only s = Stream.stream_rows (postgres.calls c) sql read_only s

  unfoldable pub stream_rows :
      Driver → Text → S → Option (List StreamElement × (DriverResult (Unit {0}) × S))
  stream_rows d sql s = stream_on d.client sql d.config.read_only s

  -- A statement whose answer is not read.
  abbrev pub run_statement : Driver → Text → S → DriverResult (Unit {0}) × S
  run_statement d sql s =
      with_client d
        (λ c s1.
          chain (failing_with map_query_error ((postgres.calls c).simple_query sql s1))
            λ ms s2. (ok tt, s2))
        s

  abbrev pub keep_schema :
      Driver → Text → DriverResult (Unit {0}) × S → DriverResult (Unit {0}) × (Driver × S)
  keep_schema d schema (err e, s) = (err e, (d, s))
  keep_schema d schema (ok u, s) = (ok tt, (record d { current_schema = some schema }, s))

  unfoldable pub switch_schema : Driver → Text → S → DriverResult (Unit {0}) × (Driver × S)
  switch_schema d schema s =
      keep_schema d schema (run_statement d (lit "SET search_path TO " ++ quote_ident schema) s)

  -- The seconds saturate at the greatest number of 64 bits.
  abbrev pub timeout_millis : ℕ → ℕ
  timeout_millis seconds = if ltb (2 ^ 64 - 1) (seconds * 1000) then 2 ^ 64 - 1 else seconds * 1000

  unfoldable pub apply_query_timeout : Driver → ℕ → S → DriverResult (Unit {0}) × S
  apply_query_timeout d seconds s =
      run_statement d (lit "SET statement_timeout = " ++ decimal (timeout_millis seconds)) s

  -- The request is sent by a task of its own, and how that ends is only logged.
  unfoldable pub cancel_query : Driver → S → DriverResult (Unit {0}) × S
  cancel_query d s =
      chain (ok_or d.cancel_token not_connected_error, s)
        λ token s1. (ok tt, postgres.send_cancel token s1)

  abbrev pub or_public : Option Text → Text
  or_public none = codes "public"
  or_public (some schema) = schema

  abbrev pub or_current : Option Text → Driver → Text
  or_current none d = or_public d.current_schema
  or_current (some schema) d = schema

  unfoldable pub resolve_schema : Driver → Option Text → Text
  resolve_schema d schema = or_current schema d
