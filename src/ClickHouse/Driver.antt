-- ===== src/ClickHouse/Driver.antt =====
-- crates/driver-clickhouse/src/driver.rs: the connection that a driver holds, and the methods that do
-- not read the system tables. Each method runs with no other in between.
use headless_db_mcp.ClickHouse.Body.{is_empty}
use headless_db_mcp.ClickHouse.Ident.{quote_literal}
use headless_db_mcp.ClickHouse.Query
use headless_db_mcp.ClickHouse.Request.{
  Http, Response, ConnectedClient, CancelContext, ClickHouseDriver, World, send, map_reqwest_error,
}
use headless_db_mcp.ClickHouse.Stream
use headless_db_mcp.ClickHouse.Tls.{resolve_base_url, resolve_username}
use headless_db_mcp.ClickHouse.Tsv.{parse_full}
use headless_db_mcp.Core.{
  CellValue, null, text, bytes, ConnectionConfig, DriverError, DriverResult, driver_error,
  connection, query,
}
use headless_db_mcp.Core.Results.{QueryResult, StreamElement}
use headless_db_mcp.Prelude.{
  ℕ, Bool, nat_eq, text_eq, Option, none, some, List, [], ◌∷◌, ◌++◌, Text, codes, lit, ok, err,
  ◌>>=◌, ok_or, map_err, if◌then◌else◌, chain,
}

unfoldable pub not_connected_error : DriverError
not_connected_error = driver_error connection (lit "not connected")

unfoldable pub unsupported_transactions_error : DriverError
unsupported_transactions_error = driver_error query (
    lit
      "ClickHouse does not reliably support multi-statement ACID transactions; this driver does not send BEGIN/COMMIT/ROLLBACK")

unfoldable pub new : {C : Type 0} → ConnectionConfig → ClickHouseDriver C
new config = record {
  config = config;
  client = none;
  current_database = codes "default";
  server_version = none;
  active_query_id = none;
  query_timeout_seconds = none;
  cancel_context = none;
}

abbrev pub or_default : Option Text → Text
or_default none = codes "default"
or_default (some database) = database

abbrev pub as_text : CellValue → Option Text
as_text null = none
as_text (text t) = some t
as_text (bytes bs) = none

abbrev pub first_cell : List (List CellValue) → Option Text
first_cell [] = none
first_cell ([] ∷ rows) = none
first_cell ((cell ∷ cells) ∷ rows) = as_text cell

module _ {Client S : Type 0} (http : Http Client S) where
  abbrev pub version_in : Response → DriverResult (Option Text)
  version_in response = do
    body ← map_err map_reqwest_error response.body
    parsed ← parse_full body
    ok (first_cell parsed.rows)

  abbrev pub version_params : Text → List (Text × Text)
  version_params database =
      (codes "database", database)
      ∷ (codes "default_format", codes "TabSeparatedWithNamesAndTypes")
      ∷ (codes "wait_end_of_query", codes "1")
      ∷ []

  -- Behind the probe: the database, the version, the context of cancellation and the client are set.
  abbrev pub installed :
      ClickHouseDriver Client
      → Client
      → DriverResult (Option Text) × S
      → DriverResult (Unit {0}) × World http
  installed d client (err e, s) = (err e, (d, s))
  installed d client (ok version, s) = (
    ok tt,
    (
      record d {
        current_database = or_default d.config.database;
        server_version = version;
        cancel_context = some (record {
          client = client;
          base_url = resolve_base_url d.config;
          username = resolve_username d.config;
          password = d.config.password;
        });
        client = some (record { client = client; base_url = resolve_base_url d.config });
      },
      s,
    ),
  )

  abbrev pub connect_client :
      DriverResult Client → World http → DriverResult (Unit {0}) × World http
  connect_client (err e) w = (err e, w)
  connect_client (ok client) (d, s) = installed d client (
      chain
        (send http (record { client = client; base_url = resolve_base_url d.config })
          (resolve_username d.config) d.config.password (codes "SELECT version()")
          (version_params (or_default d.config.database)) s)
        λ response s'. (version_in response, s'))

  -- `build` is `build_http_client`.
  unfoldable pub connect :
      (ConnectionConfig → DriverResult Client) → World http → DriverResult (Unit {0}) × World http
  connect build (d, s) = connect_client (build d.config) (d, s)

  unfoldable pub disconnect : ClickHouseDriver Client → ClickHouseDriver Client
  disconnect d = record d {
    client = none;
    server_version = none;
    active_query_id = none;
    cancel_context = none;
    current_database = codes "default";
  }

  -- A call on the client, if there is one.
  abbrev pub with_client :
      {A : Type 0}
      → (ConnectedClient Client → World http → DriverResult A × World http)
      → World http
      → DriverResult A × World http
  with_client call (d, s) = chain (ok_or d.client not_connected_error, (d, s)) call

  unfoldable pub execute : ℕ → Text → World http → DriverResult QueryResult × World http
  execute elapsed sql w = with_client (λ c. Query.execute http elapsed c sql) w

  unfoldable pub execute_parameterized :
      ℕ → Text → List CellValue → World http → DriverResult QueryResult × World http
  execute_parameterized elapsed sql values w =
      with_client (λ c. Query.execute_parameterized http elapsed c sql values) w

  unfoldable pub execute_user_query :
      (ℕ → Bool)
      → ℕ
      → Text
      → Option ℕ
      → Option (List CellValue)
      → World http
      → DriverResult QueryResult × World http
  execute_user_query is_alphanumeric elapsed sql row_cap parameters w =
      with_client
        (λ c. Query.execute_user_query_capped http is_alphanumeric elapsed c sql row_cap parameters)
        w

  abbrev pub stream_on :
      Option (ConnectedClient Client)
      → Text
      → World http
      → List StreamElement × (DriverResult (Unit {0}) × World http)
  stream_on none sql w = ([], (err not_connected_error, w))
  stream_on (some c) sql w = Stream.stream_rows http c sql w

  unfoldable pub stream_rows :
      Text → World http → List StreamElement × (DriverResult (Unit {0}) × World http)
  stream_rows sql (d, s) = stream_on d.client sql (d, s)

  -- The request that kills a query, if there are a context and a query; it is sent by a task of its
  -- own, and how that ends is only logged.
  abbrev pub kill : Option (CancelContext Client) → Option Text → S → S
  kill none query_id s = s
  kill (some context) none s = s
  kill (some context) (some query_id) s =
      (send http (record { client = context.client; base_url = context.base_url }) context.username
        context.password
        (lit "KILL QUERY WHERE query_id = " ++ (quote_literal query_id ++ lit " SYNC")) [] s).1

  unfoldable pub cancel_query : World http → DriverResult (Unit {0}) × World http
  cancel_query (d, s) = (ok tt, (d, kill d.cancel_context d.active_query_id s))

  unfoldable pub apply_query_timeout : ClickHouseDriver Client → ℕ → ClickHouseDriver Client
  apply_query_timeout d seconds = record d { query_timeout_seconds = some seconds }

  -- `begin_transaction`, `commit_transaction` and `rollback_transaction`.
  unfoldable pub begin_transaction : DriverResult (Unit {0})
  begin_transaction = err unsupported_transactions_error

  abbrev pub exists_in : Text → Query.TsvOutcome → DriverResult (Unit {0})
  exists_in database outcome =
      if is_empty outcome.rows
      then err (driver_error query (lit "database \"" ++ (database ++ lit "\" does not exist")))
      else ok tt

  -- `validate_database_exists` of schema.rs.
  unfoldable pub validate_database_exists :
      Text → ConnectedClient Client → World http → DriverResult (Unit {0}) × World http
  validate_database_exists database c w =
      chain
        (Query.run_tsv_parameterized http c (codes "SELECT 1 FROM system.databases WHERE name = ?")
          (text database ∷ []) w)
        λ outcome w'. (exists_in database outcome, w')

  abbrev pub set_current_database :
      Text → DriverResult (Unit {0}) × World http → DriverResult (Unit {0}) × World http
  set_current_database database (err e, w) = (err e, w)
  set_current_database database (ok u, (d, s)) =
      (ok tt, (record d { current_database = database }, s))

  unfoldable pub switch_database : Text → World http → DriverResult (Unit {0}) × World http
  switch_database database w =
      set_current_database database (with_client (validate_database_exists database) w)
