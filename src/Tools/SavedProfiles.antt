-- ===== src/Tools/SavedProfiles.antt =====
-- The tools of crates/connections/src/tools that act on the saved profiles:
-- save_connection_profile.rs, list_connection_profiles.rs and delete_connection_profile.rs.
pub mod Agreeing
pub mod Gone
use headless_db_mcp.Core.{SslMode}
use headless_db_mcp.JsonFile.{Files}
use headless_db_mcp.McpServer.Tool.{McpToolError, failed}
use headless_db_mcp.Prelude.{
  ℕ, zero, suc, Bool, true, nat_eq, text_eq, Option, some, List, ◌++◌, arith, Text, codes, lit,
  Result, ok, err, ◌>>=◌, ◌>>◌, map_err,
}
use headless_db_mcp.Profiles.Manager.{SecretStore, Stores, save, list_profiles, delete_profile}
use headless_db_mcp.Profiles.Profile.{ConnectionProfile, ProfileError, SaveProfileParams}
use headless_db_mcp.Tools.Support.{parse_arguments, profile_error_text}
use headless_db_mcp.Wire.JsonRpc.{Value, object, member, end, string, bool}
use headless_db_mcp.Tools.Connect.{parse_ssl_mode}
use headless_db_mcp.Tools.Connection.{unserialized}

pub record SaveConnectionProfileArgs : Type 0 where
  pub name : Text
  pub database_type : Text
  pub host : Text
  pub port : ℕ
  pub username : Text
  pub password : Option Text
  pub database : Option Text
  pub ssl_mode : Option Text
  pub read_only : Option Bool

-- `parse_ssl_mode` of save_connection_profile.rs has the same cases, in `Some`.
abbrev pub parse_saved_ssl_mode : Option Text → Result (Option SslMode) McpToolError
parse_saved_ssl_mode raw = do mode ← parse_ssl_mode raw; ok (some mode)

abbrev pub save_params : SaveConnectionProfileArgs → Option SslMode → SaveProfileParams
save_params args ssl_mode = record {
  name = args.name;
  database_type = args.database_type;
  host = args.host;
  port = args.port;
  username = args.username;
  password = args.password;
  database = args.database;
  ssl_mode = ssl_mode;
  read_only = args.read_only;
}

-- How `delete_connection_profile` words the errors of the manager.
unfoldable pub delete_failure : ProfileError → McpToolError
delete_failure (ProfileError.not_found name) = failed (lit "no such connection profile: " ++ name)
delete_failure (ProfileError.io_failure e) = failed (profile_error_text (ProfileError.io_failure e))
delete_failure (ProfileError.corrupted reason) =
    failed (profile_error_text (ProfileError.corrupted reason))
delete_failure ProfileError.empty_name = failed (profile_error_text ProfileError.empty_name)
delete_failure (ProfileError.secret_failed e) =
    failed (profile_error_text (ProfileError.secret_failed e))

module _ {Disk Bytes S : Type 0} (files : Files Disk Bytes ConnectionProfile)
    (secrets : SecretStore S) where
  abbrev pub saved_answer : Text → Result (Unit {0}) ProfileError → Result Value McpToolError
  saved_answer name (ok u) =
      ok (object (member (codes "name") (string name) (member (codes "saved") (bool true) end)))
  saved_answer name (err e) = err (failed (profile_error_text e))

  abbrev pub save_with :
      ℕ
      → SaveConnectionProfileArgs
      → Result (Option SslMode) McpToolError
      → Stores Disk S
      → Result Value McpToolError × Stores Disk S
  save_with now args (err e) s = (err e, s)
  save_with now args (ok ssl_mode) s =
      let (r, s') = save files secrets now s (save_params args ssl_mode) in
      (saved_answer args.name r, s')

  abbrev pub save_parsed :
      ℕ
      → Result SaveConnectionProfileArgs McpToolError
      → Stores Disk S
      → Result Value McpToolError × Stores Disk S
  save_parsed now (err e) s = (err e, s)
  save_parsed now (ok args) s = save_with now args (parse_saved_ssl_mode args.ssl_mode) s

  unfoldable pub call_save_connection_profile :
      (Value → Result SaveConnectionProfileArgs Text)
      → ℕ
      → Option Value
      → Stores Disk S
      → Result Value McpToolError × Stores Disk S
  call_save_connection_profile from_value now arguments s =
      save_parsed now (parse_arguments from_value arguments) s

  -- `to_value` is that of `serde_json` at lists of profiles.
  unfoldable pub call_list_connection_profiles :
      (List ConnectionProfile → Result Value Text)
      → Option Value
      → Stores Disk S
      → Result Value McpToolError
  call_list_connection_profiles to_value arguments s = do
    profiles ← map_err (λ e. failed (profile_error_text e)) (list_profiles files secrets s)
    value ← map_err (unserialized (lit "connection profiles")) (to_value profiles)
    ok (object (member (codes "profiles") value end))

  abbrev pub deleted_answer : Text → Result (Unit {0}) ProfileError → Result Value McpToolError
  deleted_answer name (ok u) =
      ok (object (member (codes "name") (string name) (member (codes "deleted") (bool true) end)))
  deleted_answer name (err e) = err (delete_failure e)

  abbrev pub delete_parsed :
      Result Text McpToolError → Stores Disk S → Result Value McpToolError × Stores Disk S
  delete_parsed (err e) s = (err e, s)
  delete_parsed (ok name) s =
      let (r, s') = delete_profile files secrets s name in (deleted_answer name r, s')

  -- `from_value` reads the one field of the arguments, the name.
  unfoldable pub call_delete_connection_profile :
      (Value → Result Text Text)
      → Option Value
      → Stores Disk S
      → Result Value McpToolError × Stores Disk S
  call_delete_connection_profile from_value arguments s =
      delete_parsed (parse_arguments from_value arguments) s
