-- ===== src/Tools/Connect.antt =====
-- crates/connections/src/tools/connect.rs: how the arguments of a client become settings, and the
-- connection that is opened with them.
use headless_db_mcp.Connections.Manager.{ConnectionManager, ConnectionManagerError}
use headless_db_mcp.Connections.Manager.Connect.{connect}
use headless_db_mcp.Core.{
  SslMode, disabled, preferred, required, verify_ca, verify_identity, DriverError,
}
use headless_db_mcp.HashMap.{is_some}
use headless_db_mcp.McpServer.Tool.{McpToolError, invalid_arguments, failed}
use headless_db_mcp.Prelude.{
  ℕ, Bool, false, ◌||◌, ◌==◌, nat_eq, text_eq, Option, none, some, List, [], ◌++◌, Text, codes, lit,
  Result, ok, err, ◌>>=◌, ok_or, map_err, if◌then◌else◌, ℤ,
}
use headless_db_mcp.Profiles.Profile.{ProfileError, ResolvedProfile}
use headless_db_mcp.Registry.Attempts.{Uuid}
use headless_db_mcp.Tools.Support.{Ids, parse_arguments, map_manager_error, profile_error_text}
use headless_db_mcp.Wire.JsonRpc.{Value, object, member, end, string}

pub record ConnectArgs : Type 0 where
  pub profile_name : Option Text
  pub database_type : Option Text
  pub host : Option Text
  pub port : Option ℕ
  pub username : Option Text
  pub password : Option Text
  pub database : Option Text
  pub ssl_mode : Option Text
  pub read_only : Option Bool

unfoldable pub parse_ssl_mode : Option Text → Result SslMode McpToolError
parse_ssl_mode none = ok verify_identity
parse_ssl_mode (some raw) =
    if raw == codes "disabled"
    then ok disabled
    else if raw == codes "preferred"
    then ok preferred
    else if raw == codes "required"
    then ok required
    else if raw == codes "verify_ca"
    then ok verify_ca
    else if raw == codes "verify_identity"
    then ok verify_identity
    else err (invalid_arguments (lit "unrecognized ssl_mode: " ++ raw))

unfoldable pub combined : McpToolError
combined = invalid_arguments (
    lit
      "profile_name cannot be combined with database_type/host/port/username/password/database/ssl_mode/read_only")

unfoldable pub profiles_disabled : McpToolError
profiles_disabled = failed (
    lit
      "connection profiles are not enabled on this server (set DB_HEADLESS_MASTER_KEY to enable save_connection_profile)")

unfoldable pub missing_field : Text → McpToolError
missing_field field = invalid_arguments (field ++ lit " is required when profile_name is not given")

-- Any of the fields that stand beside `profile_name`.
unfoldable pub names_credentials : ConnectArgs → Bool
names_credentials args =
    is_some args.database_type
    || is_some args.host
    || is_some args.port
    || is_some args.username
    || is_some args.password
    || is_some args.database
    || is_some args.ssl_mode
    || is_some args.read_only

abbrev pub or_false : Option Bool → Bool
or_false none = false
or_false (some b) = b

-- The `None` arm.
unfoldable pub ad_hoc : ConnectArgs → Result ResolvedProfile McpToolError
ad_hoc args = do
  database_type ← ok_or args.database_type (missing_field (codes "database_type"))
  host ← ok_or args.host (missing_field (codes "host"))
  port ← ok_or args.port (missing_field (codes "port"))
  username ← ok_or args.username (missing_field (codes "username"))
  ssl_mode ← parse_ssl_mode args.ssl_mode
  ok (record {
    database_type = database_type;
    config = record {
      host = host;
      port = port;
      username = username;
      password = args.password;
      database = args.database;
      ssl = record {
        mode = some ssl_mode;
        ca_path = none;
        client_cert_path = none;
        client_key_path = none;
      };
      read_only = or_false args.read_only;
      additional_fields = [];
    };
  })

-- The `Some` arm; `resolves` is the manager of the profiles if the server has one.
abbrev pub by_profile :
    Option (Text → Result ResolvedProfile ProfileError)
    → ConnectArgs
    → Text
    → Result ResolvedProfile McpToolError
by_profile resolves args name = if names_credentials args then err combined else do
  profiles ← ok_or resolves profiles_disabled
  map_err (λ e. failed (profile_error_text e)) (profiles name)

abbrev pub choose_by :
    Option (Text → Result ResolvedProfile ProfileError)
    → ConnectArgs
    → Option Text
    → Result ResolvedProfile McpToolError
choose_by resolves args (some name) = by_profile resolves args name
choose_by resolves args none = ad_hoc args

unfoldable pub choose :
    Option (Text → Result ResolvedProfile ProfileError)
    → ConnectArgs
    → Result ResolvedProfile McpToolError
choose resolves args = choose_by resolves args args.profile_name

module _ (ids : Ids) {D : Type 0} (opens : D → Result (Unit {0}) DriverError) where
  abbrev pub connect_answer : Result Uuid ConnectionManagerError → Result Value McpToolError
  connect_answer (ok id) = ok (object (member (codes "connection_id") (string (ids.print id)) end))
  connect_answer (err e) = err (map_manager_error ids e)

  -- `id` and `now` are the new random id and the time. The drivers that were disconnected come with
  -- the answer.
  abbrev pub connect_chosen :
      Result ResolvedProfile McpToolError
      → ConnectionManager D
      → Uuid
      → ℤ
      → (Result Value McpToolError × List D) × ConnectionManager D
  connect_chosen (err e) m id now = ((err e, []), m)
  connect_chosen (ok r) m id now =
      let ((answer, dropped), m') = connect opens m r.database_type r.config id now in
      ((connect_answer answer, dropped), m')

  unfoldable pub call_connect :
      (Value → Result ConnectArgs Text)
      → Option (Text → Result ResolvedProfile ProfileError)
      → Option Value
      → ConnectionManager D
      → Uuid
      → ℤ
      → (Result Value McpToolError × List D) × ConnectionManager D
  call_connect from_value resolves arguments m id now =
      connect_chosen (parse_arguments from_value arguments >>= choose resolves) m id now
