-- ===== src/Redis/Query.antt =====
-- crates/driver-redis/src/query.rs: one command, its reply as rows, and the cap on them.
pub mod Capped
use headless_db_mcp.Core.{CellValue, text, DriverError, query}
use headless_db_mcp.Core.Results.{QueryResult, effective_cap, take}
use headless_db_mcp.Prelude.{
  ℕ, zero, suc, Bool, true, false, ltb, nat_eq, text_eq, Option, none, some, List, [], ◌∷◌, map,
  arith, Text, codes, length, Result, ok, err, ◌>>=◌, map_err, if◌then◌else◌,
}
use headless_db_mcp.Redis.Command.{tokenize, build_command, require_read_only}
use headless_db_mcp.Redis.Reply.{
  Reply, RedisError, array, set, pairs, items_of, list_of_pairs, value_to_cell, value_to_json,
  map_error,
}
use headless_db_mcp.Wire.JsonRpc.{Value, object, member, end}

-- What the driver takes from the `redis` crate and from `serde_json`: how a command is built, and
-- what the server answers to it; `S` is the state of the server.
pub record Client (Cmd S : Type 0) : Type 0 where
  pub cmd : List ℕ → Cmd
  pub arg : Cmd → List ℕ → Cmd
  pub query_async : Cmd → S → Result Reply RedisError × S
  pub print : Value → Text
  pub print_f64 : ℕ → Text
  pub to_uppercase : Text → Text

module _ {Cmd S : Type 0} (client : Client Cmd S) where
  abbrev pub pair_cell : Reply × Reply → CellValue
  pair_cell (k, v) = text (
      client.print (
        object (
          member (codes "key") (value_to_json client.print client.print_f64 k)
            (member (codes "value") (value_to_json client.print client.print_f64 v) end))))

  abbrev pub result_of : Text → List (List CellValue) → QueryResult
  result_of column rows = record {
    columns = column ∷ [];
    column_type_names = codes "text" ∷ [];
    rows = rows;
    rows_affected = length rows;
    execution_time = 0;
    is_truncated = false;
    status_message = none;
    column_meta = none;
  }

  abbrev pub item_rows : List Reply → List (List CellValue)
  item_rows items = map (λ item. value_to_cell client.print client.print_f64 item ∷ []) items

  unfoldable pub value_to_query_result : Reply → QueryResult
  value_to_query_result (array items) = result_of (codes "value") (item_rows (items_of items))
  value_to_query_result (set items) = result_of (codes "value") (item_rows (items_of items))
  value_to_query_result (pairs ps) =
      result_of (codes "value") (map (λ p. pair_cell p ∷ []) (list_of_pairs ps))
  value_to_query_result scalar =
      result_of (codes "result") ((value_to_cell client.print client.print_f64 scalar ∷ []) ∷ [])

  unfoldable pub build : Text → Option (List CellValue) → Result Cmd DriverError
  build q parameters = do
    tokens ← tokenize q
    build_command client.arg client.to_uppercase client.cmd tokens parameters

  abbrev pub answer_of : ℕ → Result Reply RedisError → Result QueryResult DriverError
  answer_of elapsed r = do
    value ← map_err (map_error query) r
    ok (record (value_to_query_result value) { execution_time = elapsed })

  abbrev pub send : ℕ → Result Cmd DriverError → S → Result QueryResult DriverError × S
  send elapsed (err e) s = (err e, s)
  send elapsed (ok c) s = let (r, s') = client.query_async c s in (answer_of elapsed r, s')

  unfoldable pub execute_parameterized :
      ℕ → Text → List CellValue → S → Result QueryResult DriverError × S
  execute_parameterized elapsed q parameters s = send elapsed (build q (some parameters)) s

  unfoldable pub execute : ℕ → Text → S → Result QueryResult DriverError × S
  execute elapsed q s = execute_parameterized elapsed q [] s

  -- Behind the answer: the rows above the cap are cut off.
  unfoldable pub cap_rows : ℕ → QueryResult → QueryResult
  cap_rows cap result =
      let capped =
        if ltb cap (length result.rows)
        then record result { rows = take cap result.rows; is_truncated = true }
        else result in
      record capped { rows_affected = length capped.rows }

  abbrev pub or_none : Option (List CellValue) → List CellValue
  or_none none = []
  or_none (some parameters) = parameters

  abbrev pub allowed : Bool → Text → Result (Unit {0}) DriverError
  allowed true q = require_read_only client.to_uppercase q
  allowed false q = ok tt

  abbrev pub execute_allowed :
      Result (Unit {0}) DriverError
      → ℕ
      → Text
      → Option ℕ
      → Option (List CellValue)
      → S
      → Result QueryResult DriverError × S
  execute_allowed (err e) elapsed q row_cap parameters s = (err e, s)
  execute_allowed (ok u) elapsed q row_cap parameters s =
      let (r, s') = execute_parameterized elapsed q (or_none parameters) s in
      (r >>= λ result. ok (cap_rows (effective_cap row_cap) result), s')

  unfoldable pub execute_user_query :
      Bool → ℕ → Text → Option ℕ → Option (List CellValue) → S → Result QueryResult DriverError × S
  execute_user_query read_only elapsed q row_cap parameters s =
      execute_allowed (allowed read_only q) elapsed q row_cap parameters s
