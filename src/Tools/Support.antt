-- ===== src/Tools/Support.antt =====
-- crates/connections/src/tools/support.rs: what the tools share, and the texts of the errors that
-- they pass on.
use headless_db_mcp.Connections.Manager.{
  ConnectionManager, ConnectionManagerError, unknown_database_type, not_found, superseded,
  driver_failed, get_driver,
}
use headless_db_mcp.Core.{CellValue, DriverResult}
use headless_db_mcp.Core.Results.{QueryResult}
use headless_db_mcp.McpServer.Tool.{McpToolError, invalid_arguments, failed}
use headless_db_mcp.Prelude.{
  ℕ, nat_eq, text_eq, Option, none, some, List, [], ◌∷◌, ◌++◌, Text, lit, Result, ok, err, map_err,
}
use headless_db_mcp.Profiles.Profile.{ProfileError}
use headless_db_mcp.Registry.Attempts.{Uuid}
use headless_db_mcp.Secrets.FileStore.{SecretError}
use headless_db_mcp.Strings.{decimal}
use headless_db_mcp.Wire.JsonRpc.{Value}

unfoldable pub missing_arguments : McpToolError
missing_arguments = invalid_arguments (lit "missing arguments")

-- `from_value` is the derived `Deserialize` of the tool's arguments.
unfoldable pub parse_arguments :
    {Args : Type 0} → (Value → Result Args Text) → Option Value → Result Args McpToolError
parse_arguments from_value none = err missing_arguments
parse_arguments from_value (some value) = map_err invalid_arguments (from_value value)

-- How the `uuid` crate reads and prints an id.
pub record Ids : Type 0 where
  pub parse_str : Text → Result Uuid Text
  pub print : Uuid → Text

unfoldable pub parse_connection_id : Ids → Text → Result Uuid McpToolError
parse_connection_id ids raw =
    map_err (λ e. invalid_arguments (lit "invalid connection_id: " ++ e)) (ids.parse_str raw)

unfoldable pub map_manager_error : Ids → ConnectionManagerError → McpToolError
map_manager_error ids (not_found id) = failed (lit "no such connection: " ++ ids.print id)
map_manager_error ids (unknown_database_type t) = failed (lit "unknown database type: " ++ t)
map_manager_error ids (superseded id) =
    failed
      (lit "connection attempt for " ++ (ids.print id ++ lit " was superseded by a newer attempt"))
map_manager_error ids (driver_failed e) = failed e.message

-- `to_string` of the errors of crates/secrets and crates/connection-profiles.
unfoldable pub secret_error_text : SecretError → Text
secret_error_text (SecretError.io_failure e) = lit "secret store I/O failure: " ++ e
secret_error_text SecretError.missing_master_key =
    lit
      "missing master key: set the DB_HEADLESS_MASTER_KEY environment variable to 64 hex characters (32 bytes)"
secret_error_text (SecretError.invalid_master_key reason) = lit "invalid master key: " ++ reason
secret_error_text SecretError.empty_key = lit "secret key must not be empty"
secret_error_text (SecretError.encryption_failed key) =
    lit "encryption failed for key '" ++ (key ++ lit "'")
secret_error_text (SecretError.decryption_failed key) =
    lit "decryption failed for key '" ++ (key ++ lit "'")
secret_error_text (SecretError.corrupted reason) = lit "secret store file is corrupted: " ++ reason

unfoldable pub profile_error_text : ProfileError → Text
profile_error_text (ProfileError.io_failure e) =
    lit "connection profile metadata store I/O failure: " ++ e
profile_error_text (ProfileError.corrupted reason) =
    lit "connection profile metadata store is corrupted: " ++ reason
profile_error_text ProfileError.empty_name = lit "connection profile name must not be empty"
profile_error_text (ProfileError.not_found name) = lit "no such connection profile: " ++ name
profile_error_text (ProfileError.secret_failed e) = secret_error_text e

-- How `execute_user_query` ends under the backstop timeout: with an answer, or not in time.
pub data Timed (A : Type 0) : Type 0 where
  answered : A → Timed A
  elapsed : Timed A

-- `QueryTimeouts` of crates/core/src/timeouts.rs, in seconds.
abbrev pub server_secs : ℕ
server_secs = 30

abbrev pub client_backstop_secs : ℕ
client_backstop_secs = 45

unfoldable pub timed_out : McpToolError
timed_out = failed (
    lit "query exceeded the "
    ++ (decimal client_backstop_secs
        ++ lit
            "s client-side timeout and was cancelled; this connection's link may be unstable, or the query itself may be missing an index"))

module _ {D : Type 0} where
  -- The result, and the drivers that were told to cancel; what `cancel_query` answers is only logged.
  abbrev pub query_ended :
      D → Timed (DriverResult QueryResult) → Result QueryResult McpToolError × List D
  query_ended driver (answered r) = (map_err (λ e. failed e.message) r, [])
  query_ended driver elapsed = (err timed_out, driver ∷ [])

  abbrev pub query_with :
      (D → Timed (DriverResult QueryResult))
      → Result D McpToolError
      → Result QueryResult McpToolError × List D
  query_with run (err e) = (err e, [])
  query_with run (ok driver) = query_ended driver (run driver)

  -- `execute_user_query` is the method of the drivers.
  unfoldable pub run_user_query :
      (D → Text → Option ℕ → Option (List CellValue) → Timed (DriverResult QueryResult))
      → Ids
      → ConnectionManager D
      → Uuid
      → Text
      → Option (List CellValue)
      → Option ℕ
      → Result QueryResult McpToolError × List D
  run_user_query execute_user_query ids m id q parameters row_cap =
      query_with (λ driver. execute_user_query driver q row_cap parameters)
        (map_err (map_manager_error ids) (get_driver m id))
