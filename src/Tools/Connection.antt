-- ===== src/Tools/Connection.antt =====
-- The tools of crates/connections/src/tools that act on a connection by its id: execute_query.rs,
-- export_query_jsonl.rs, list_tables.rs, list_databases.rs, list_schemas.rs, describe_table.rs,
-- get_connection_status.rs, disconnect.rs, and list_connections.rs.
pub mod Closed
use headless_db_mcp.Connections.Manager
use headless_db_mcp.Connections.Manager.{
  ConnectionManager, ConnectionManagerError, ConnectionSummary, get_driver, status,
  list_connections,
}
use headless_db_mcp.Core.{CellValue, null, text, DriverError, DriverResult}
use headless_db_mcp.Core.Results.{QueryResult}
use headless_db_mcp.McpServer.Tool.{McpToolError, failed}
use headless_db_mcp.Prelude.{
  ℕ, zero, suc, Bool, true, nat_eq, text_eq, Option, none, some, List, [], ◌∷◌, ◌++◌, map, arith,
  Text, codes, lit, length, Result, ok, err, ◌>>=◌, map_err, if◌then◌else◌,
}
use headless_db_mcp.Registry.Attempts.{Uuid}
use headless_db_mcp.Tools.Export.{render_jsonl}
use headless_db_mcp.Tools.Support.{
  Ids, Timed, parse_arguments, parse_connection_id, map_manager_error, run_user_query,
}
use headless_db_mcp.Wire.JsonRpc.{
  Value, Values, nil, cons, object, member, end, string, bool, number, array, pos_int,
}

-- The methods of `DatabaseDriver` that the tools call, each answering at once, and `to_value` of
-- `serde_json` at their results.
pub record Methods (D Tables Metadata : Type 0) : Type 0 where
  pub execute_user_query :
      D → Text → Option ℕ → Option (List CellValue) → Timed (DriverResult QueryResult)
  pub fetch_tables : D → Option Text → DriverResult Tables
  pub fetch_databases : D → DriverResult (List Text)
  pub supports_schemas : D → Bool
  pub fetch_schemas : D → DriverResult (List Text)
  pub fetch_table_metadata : D → Text → Option Text → DriverResult Metadata
  pub result_to_value : QueryResult → Result Value Text
  pub tables_to_value : Tables → Result Value Text
  pub metadata_to_value : Metadata → Result Value Text
  pub status_to_value : ConnectionSummary → Result Value Text

pub record QueryArgs : Type 0 where
  pub connection_id : Text
  pub query : Text
  pub parameters : Option (List (Option Text))
  pub row_cap : Option ℕ

pub record SchemaArgs : Type 0 where
  pub connection_id : Text
  pub schema : Option Text

pub record TableArgs : Type 0 where
  pub connection_id : Text
  pub table : Text
  pub schema : Option Text

unfoldable pub to_cell_value : Option Text → CellValue
to_cell_value (some t) = text t
to_cell_value none = null

abbrev pub to_parameters : Option (List (Option Text)) → Option (List CellValue)
to_parameters none = none
to_parameters (some args) = some (map to_cell_value args)

abbrev pub texts : List Text → Values
texts [] = nil
texts (t ∷ ts) = cons (string t) (texts ts)

abbrev pub driver_failure : DriverError → McpToolError
driver_failure e = failed e.message

abbrev pub unserialized : Text → Text → McpToolError
unserialized what e = failed (lit "failed to serialize " ++ (what ++ (lit ": " ++ e)))

module _ (ids : Ids) {D Tables Metadata : Type 0} (methods : Methods D Tables Metadata)
    (m : ConnectionManager D) where
  -- `self.manager.get(connection_id).map_err(map_manager_error)?`
  unfoldable pub held : Text → Result D McpToolError
  held connection_id = do
    id ← parse_connection_id ids connection_id
    map_err (map_manager_error ids) (get_driver m id)

  abbrev pub run_at :
      QueryArgs → Result Uuid McpToolError → Result QueryResult McpToolError × List D
  run_at args (err e) = (err e, [])
  run_at args (ok id) =
      run_user_query methods.execute_user_query ids m id args.query (to_parameters args.parameters)
        args.row_cap

  abbrev pub run_parsed : Result QueryArgs McpToolError → Result QueryResult McpToolError × List D
  run_parsed (err e) = (err e, [])
  run_parsed (ok args) = run_at args (parse_connection_id ids args.connection_id)

  -- `ExecuteQueryTool::call`: the answer, and the drivers that were told to cancel.
  unfoldable pub call_execute_query :
      (Value → Result QueryArgs Text) → Option Value → Result Value McpToolError × List D
  call_execute_query from_value arguments =
      let (r, cancelled) = run_parsed (parse_arguments from_value arguments) in
      (
        r >>= λ result.
            map_err (unserialized (lit "query result")) (methods.result_to_value result),
        cancelled,
      )

  module _ (parse_f64 : Text → Option ℕ) (print : Value → Text) where
    abbrev pub dump : QueryResult → Value
    dump result = object (
        member (codes "jsonl") (string (render_jsonl parse_f64 print result)) (
          member (codes "row_count") (number (pos_int (length result.rows))) (
            member (codes "columns") (array (texts result.columns)) (
              member (codes "column_type_names") (array (texts result.column_type_names))
                (member (codes "truncated") (bool result.is_truncated) end)))))

    -- `ExportQueryJsonlTool::call`
    unfoldable pub call_export_query_jsonl :
        (Value → Result QueryArgs Text) → Option Value → Result Value McpToolError × List D
    call_export_query_jsonl from_value arguments =
        let (r, cancelled) = run_parsed (parse_arguments from_value arguments) in
        (r >>= λ result. ok (dump result), cancelled)

  unfoldable pub call_list_tables :
      (Value → Result SchemaArgs Text) → Option Value → Result Value McpToolError
  call_list_tables from_value arguments = do
    args ← parse_arguments from_value arguments
    driver ← held args.connection_id
    tables ← map_err driver_failure (methods.fetch_tables driver args.schema)
    value ← map_err (unserialized (lit "tables")) (methods.tables_to_value tables)
    ok (object (member (codes "tables") value end))

  unfoldable pub call_list_databases :
      (Value → Result Text Text) → Option Value → Result Value McpToolError
  call_list_databases from_value arguments = do
    connection_id ← parse_arguments from_value arguments
    driver ← held connection_id
    databases ← map_err driver_failure (methods.fetch_databases driver)
    ok (object (member (codes "databases") (array (texts databases)) end))

  abbrev pub schemas_of : D → Result Value McpToolError
  schemas_of driver = do
    schemas ← map_err driver_failure (methods.fetch_schemas driver)
    ok (object (member (codes "schemas") (array (texts schemas)) end))

  unfoldable pub call_list_schemas :
      (Value → Result Text Text) → Option Value → Result Value McpToolError
  call_list_schemas from_value arguments = do
    connection_id ← parse_arguments from_value arguments
    driver ← held connection_id
    if methods.supports_schemas driver
        then schemas_of driver
        else ok (object (member (codes "schemas") (array nil) end))

  unfoldable pub call_describe_table :
      (Value → Result TableArgs Text) → Option Value → Result Value McpToolError
  call_describe_table from_value arguments = do
    args ← parse_arguments from_value arguments
    driver ← held args.connection_id
    metadata ← map_err driver_failure (methods.fetch_table_metadata driver args.table args.schema)
    map_err (unserialized (lit "table metadata")) (methods.metadata_to_value metadata)

  unfoldable pub call_get_connection_status :
      (Value → Result Text Text) → Option Value → Result Value McpToolError
  call_get_connection_status from_value arguments = do
    connection_id ← parse_arguments from_value arguments
    id ← parse_connection_id ids connection_id
    summary ← map_err (map_manager_error ids) (status m id)
    map_err (unserialized (lit "connection status")) (methods.status_to_value summary)

-- `ListConnectionsTool::call`; `to_value` is that of `serde_json` at lists of summaries.
unfoldable pub call_list_connections :
    {D : Type 0}
    → (List ConnectionSummary → Result Value Text)
    → Option Value
    → ConnectionManager D
    → Result Value McpToolError
call_list_connections to_value arguments m = do
  value ← map_err (unserialized (lit "connections")) (to_value (list_connections m))
  ok (object (member (codes "connections") value end))

module _ (ids : Ids) {D : Type 0} (answers : D → Result (Unit {0}) DriverError) where
  abbrev pub disconnect_answer :
      Uuid → Result (Unit {0}) ConnectionManagerError → Result Value McpToolError
  disconnect_answer id (err e) = err (map_manager_error ids e)
  disconnect_answer id (ok u) = ok (
      object (
        member (codes "connection_id") (string (ids.print id))
          (member (codes "disconnected") (bool true) end)))

  abbrev pub disconnect_at :
      Result Uuid McpToolError
      → ConnectionManager D
      → (Result Value McpToolError × List D) × ConnectionManager D
  disconnect_at (err e) m = ((err e, []), m)
  disconnect_at (ok id) m =
      let ((r, dropped), m') = Manager.disconnect answers m id in
      ((disconnect_answer id r, dropped), m')

  unfoldable pub call_disconnect :
      (Value → Result Text Text)
      → Option Value
      → ConnectionManager D
      → (Result Value McpToolError × List D) × ConnectionManager D
  call_disconnect from_value arguments m =
      disconnect_at (parse_arguments from_value arguments >>= parse_connection_id ids) m
