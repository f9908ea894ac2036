-- ===== src/Tools/Connection/Closed.antt =====
-- What the tools answer for a connection that was closed.
use headless_db_mcp.Connections.Manager
use headless_db_mcp.Connections.Manager.{
  ConnectionManager, ConnectionManagerError, get_driver, status, not_found, driver_of, status_of,
}
use headless_db_mcp.Connections.Manager.Solo.{disconnect-get_driver}
use headless_db_mcp.Core.{DriverError}
use headless_db_mcp.HashMap.{get}
use headless_db_mcp.McpServer.Tool.{McpToolError, failed}
use headless_db_mcp.Prelude.{
  ℕ, nat_eq, text_eq, nat_beq_refl, Option, some, List, [], ◌++◌, ◌≡◌, refl, sym, ◌∙◌, inl, inr,
  Text, lit, Result, ok, err, Option-cases, err-ne-ok,
}
use headless_db_mcp.Registry.Attempts.{Uuid}
use headless_db_mcp.Tools.Connection.{
  Methods, QueryArgs, held, run_parsed, call_execute_query, call_export_query_jsonl,
  call_list_tables, call_list_databases, call_list_schemas, call_describe_table,
  call_get_connection_status, call_disconnect,
}
use headless_db_mcp.Tools.Support.{
  Ids, parse_arguments, parse_connection_id, map_manager_error, run_user_query,
}
use headless_db_mcp.Wire.JsonRpc.{Value}

module _ {D : Type 0} (m : ConnectionManager D) (id : Uuid) where
  status-eq-not_found : get_driver m id ≡ err (not_found id) → status m id ≡ err (not_found id)
  unfolding get_driver status
  status-eq-not_found h = elim (Option-cases (get id m.entries)) [
    | inl e ↦ rw e refl
    | inr (entry, e) ↦ absurd (err-ne-ok (sym (rw e at h)))
  ]

-- Each tool that takes a connection's id, but `disconnect`, answers with the error, and the two that
-- run a query tell no driver to cancel.
abbrev pub RefuseAll :
    Ids
    → {D Tables Metadata : Type 0} → Methods D Tables Metadata
    → ConnectionManager D
    → Text
    → McpToolError
    → (Text → Option ℕ)
    → (Value → Text)
    → Value
    → Text
    → Text
    → Option (List (Option Text))
    → Option ℕ
    → Option Text
    → Type 0
RefuseAll ids methods m raw refusal parse_f64 print v query table parameters row_cap schema =
    (call_execute_query ids methods m
        (λ w. ok (record {
          connection_id = raw;
          query = query;
          parameters = parameters;
          row_cap = row_cap;
        }))
        (some v)
      ≡ (err refusal, []))
    × (call_export_query_jsonl ids methods m parse_f64 print
          (λ w. ok (record {
            connection_id = raw;
            query = query;
            parameters = parameters;
            row_cap = row_cap;
          }))
          (some v)
        ≡ (err refusal, []))
    × (call_list_tables ids methods m (λ w. ok (record { connection_id = raw; schema = schema }))
          (some v)
        ≡ err refusal)
    × (call_list_databases ids methods m (λ w. ok raw) (some v) ≡ err refusal)
    × (call_list_schemas ids methods m (λ w. ok raw) (some v) ≡ err refusal)
    × (call_describe_table ids methods m
          (λ w. ok (record { connection_id = raw; table = table; schema = schema })) (some v)
        ≡ err refusal)
    × (call_get_connection_status ids methods m (λ w. ok raw) (some v) ≡ err refusal)

module _ (ids : Ids) {D Tables Metadata : Type 0} (methods : Methods D Tables Metadata)
    (m : ConnectionManager D) (id : Uuid) (raw : Text) (parsed : ids.parse_str raw ≡ ok id)
    (closed : get_driver m id ≡ err (not_found id)) where
  abbrev refusal : McpToolError
  refusal = map_manager_error ids (not_found id)

  held-refuses : held ids methods m raw ≡ err refusal
  unfolding held parse_connection_id
  held-refuses = rw (parsed, closed) refl

  run_parsed-refuses :
      (args : QueryArgs)
      → args.connection_id ≡ raw
      → run_parsed ids methods m (ok args) ≡ (err refusal, [])
  unfolding parse_connection_id run_user_query
  run_parsed-refuses args e = rw (e, parsed, closed) refl

  calls-refuse :
      (parse_f64 : Text → Option ℕ) (print : Value → Text) (v : Value) (query table : Text)
      (parameters : Option (List (Option Text))) (row_cap : Option ℕ) (schema : Option Text)
      → RefuseAll ids methods m raw refusal parse_f64 print v query table parameters row_cap schema
  unfolding call_execute_query call_export_query_jsonl call_list_tables call_list_databases
      call_list_schemas call_describe_table call_get_connection_status parse_arguments
  calls-refuse parse_f64 print v query table parameters row_cap schema =
      let args : QueryArgs = record {
        connection_id = raw;
        query = query;
        parameters = parameters;
        row_cap = row_cap;
      } in
      (
        rw (run_parsed-refuses args refl) refl,
        rw (run_parsed-refuses args refl) refl,
        rw held-refuses refl,
        rw held-refuses refl,
        rw held-refuses refl,
        rw held-refuses refl,
        unfold parse_connection_id in rw (parsed, status-eq-not_found m id closed) refl,
      )

module _ (ids : Ids) {D Tables Metadata : Type 0} (methods : Methods D Tables Metadata)
    (answers : D → Result (Unit {0}) DriverError) where
  -- After a call of `disconnect` for an id, whether the driver answered with an error or there was no
  -- connection: `execute_query`, `export_query_jsonl`, `list_tables`, `list_databases`,
  -- `list_schemas`, `describe_table` and `get_connection_status` for the id answer with the error
  -- that there is no such connection, whatever the methods of the drivers would answer, and the two
  -- that run a query tell no driver to cancel.
  pub call_disconnect-RefuseAll :
      (m : ConnectionManager D) (id : Uuid) (raw : Text) (w v : Value)
      → ids.parse_str raw ≡ ok id
      → (parse_f64 : Text → Option ℕ) (print : Value → Text) (query table : Text)
        (parameters : Option (List (Option Text))) (row_cap : Option ℕ) (schema : Option Text)
      → RefuseAll ids methods
          (call_disconnect ids answers (λ _. ok raw) (some w) m).1
          raw
          (failed (lit "no such connection: " ++ ids.print id))
          parse_f64
          print
          v
          query
          table
          parameters
          row_cap
          schema
  unfolding call_disconnect parse_arguments parse_connection_id map_manager_error
  call_disconnect-RefuseAll m id raw w v parsed parse_f64 print query table parameters row_cap
        schema =
      let after = (Manager.disconnect answers m id).1 in
      let gone : get_driver after id ≡ err (not_found id) =
        (disconnect-get_driver answers m id id).0 ∙ rw (nat_beq_refl id) refl in
      rw parsed (
        calls-refuse ids methods after id raw parsed gone parse_f64 print v query table parameters
          row_cap schema)
