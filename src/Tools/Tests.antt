-- ===== src/Tools/Tests.antt =====
-- The tools at small inputs: a dump of two rows, a connection that is closed, a profile that is saved.
use headless_db_mcp.Connections.Manager.{ConnectionManager}
use headless_db_mcp.Connections.Manager
use headless_db_mcp.Core.{CellValue, null, text, DriverError}
use headless_db_mcp.Core.Results.{QueryResult}
use headless_db_mcp.HashMap.{Map, get, insert, remove, contains_key}
use headless_db_mcp.JsonFile.{read_file, write_file}
use headless_db_mcp.McpServer.Tool.{failed}
use headless_db_mcp.Prelude.{
  ℕ, true, false, nat_eq, text_eq, Option, none, some, List, [], ◌∷◌, ◌++◌, map, ◌≡◌, refl, Text,
  codes, lit, Result, ok, err, if◌then◌else◌, pos, negsuc,
}
use headless_db_mcp.Profiles.Profile.{ConnectionProfile, profile_of}
use headless_db_mcp.Profiles.Manager.{
  Stores, delete_profile, remove_profile, resolve, secret_key, get_profile, save, validate_name,
  upsert,
}
use headless_db_mcp.Profiles.Memory.{
  profile_files, profile_files-IsLawful, vault, vault-IsKeeping, nothing,
}
use headless_db_mcp.Strings.{split, strip_prefix, is_whitespace, trim_start}
use headless_db_mcp.Strings.Edges.{
  to_ascii_lowercase, trim, trim_end, strip_suffix_char, starts_with, contains_text,
}
use headless_db_mcp.Strings.Numerals.{print_int}
use headless_db_mcp.Tools.Connect.{choose, parse_ssl_mode}
use headless_db_mcp.Tools.SavedProfiles.{
  SaveConnectionProfileArgs, call_save_connection_profile, call_delete_connection_profile,
}
use headless_db_mcp.Tools.SavedProfiles.Gone.{
  call_delete_connection_profile-choose, no_such_profile,
}
use headless_db_mcp.Tools.SavedProfiles.Agreeing.{named, given, call_save_connection_profile-choose}
use headless_db_mcp.Tools.Connection.{Methods, call_disconnect}
use headless_db_mcp.Tools.Connection.Closed.{RefuseAll, call_disconnect-RefuseAll}
use headless_db_mcp.Tools.Export.{
  integer, classify, class_of, unwrap_wrappers, unwrap_within, unwrapped, is_integer, is_float,
  coerce_text, render_jsonl, render_row,
}
use headless_db_mcp.Tools.Export.Lines.{render_jsonl-lines}
use headless_db_mcp.Tools.Export.Typed.{fits, coerce_text-print_int}
use headless_db_mcp.Tools.Support.{Ids, answered, parse_arguments}
use headless_db_mcp.Wire.Json.{from_i64}
use headless_db_mcp.Wire.JsonRpc.{Value, string, number, null, object, member, end, bool}

int8-integer : classify (codes "int8") ≡ integer
unfolding classify trim trim_end trim_start is_whitespace to_ascii_lowercase class_of
    unwrap_wrappers unwrap_within unwrapped strip_prefix strip_suffix_char is_integer is_float
    starts_with contains_text
int8-integer = refl

abbrev no_float : Text → Option ℕ
no_float t = none

coerce_text-print_int_example :
    coerce_text no_float (print_int (negsuc 41)) (codes "int8")
    ≡ (if fits (negsuc 41) then number (from_i64 (negsuc 41)) else string (print_int (negsuc 41)))
coerce_text-print_int_example =
    coerce_text-print_int no_float (codes "int8") (negsuc 41) int8-integer

abbrev two_rows : QueryResult
two_rows = record {
  columns = codes "id" ∷ codes "name" ∷ [];
  column_type_names = codes "int8" ∷ codes "text" ∷ [];
  rows = (text (codes "1") ∷ text (codes "a") ∷ []) ∷ (text (codes "2") ∷ CellValue.null ∷ []) ∷ [];
  rows_affected = 2;
  execution_time = 0;
  is_truncated = false;
  status_message = none;
  column_meta = none;
}

abbrev print_nothing : Value → Text
print_nothing v = []

render_jsonl-lines_example :
    split b'\n' (render_jsonl no_float print_nothing two_rows)
    ≡ map (render_row no_float print_nothing two_rows) two_rows.rows ++ ([] ∷ [])
render_jsonl-lines_example = render_jsonl-lines no_float print_nothing (λ v. tt) two_rows

abbrev seven : Ids
seven = record { parse_str = λ t. ok 7; print = λ id. codes "seven" }

-- A driver with nothing in its database.
abbrev empty_methods : Methods ℕ (List Text) (List Text)
empty_methods = record {
  execute_user_query = λ d q row_cap parameters. answered (ok two_rows);
  fetch_tables = λ d schema. ok [];
  fetch_databases = λ d. ok [];
  supports_schemas = λ d. true;
  fetch_schemas = λ d. ok [];
  fetch_table_metadata = λ d t schema. ok [];
  result_to_value = λ r. ok null;
  tables_to_value = λ ts. ok null;
  metadata_to_value = λ t. ok null;
  status_to_value = λ summary. ok null;
}

abbrev open_manager : ConnectionManager ℕ
open_manager = record Manager.new {
  entries = (7, record { driver = 5; database_type = codes "Mock"; connected_at = pos 0 }) ∷ [];
}

abbrev fails : ℕ → Result (Unit {0}) DriverError
fails d = ok tt

call_disconnect-RefuseAll_example :
    RefuseAll seven empty_methods
      (call_disconnect seven fails (λ _. ok (codes "7")) (some null) open_manager).1
      (codes "7")
      (failed (lit "no such connection: " ++ codes "seven"))
      no_float
      print_nothing
      null
      (codes "SELECT 1")
      (codes "t")
      none
      none
      none
call_disconnect-RefuseAll_example =
    call_disconnect-RefuseAll seven empty_methods fails open_manager 7 (codes "7") null null refl
      no_float print_nothing (codes "SELECT 1") (codes "t") none none none

abbrev dev_args : SaveConnectionProfileArgs
dev_args = record {
  name = codes "dev";
  database_type = codes "PostgreSQL";
  host = codes "localhost";
  port = 5432;
  username = codes "me";
  password = some (codes "hunter2");
  database = none;
  ssl_mode = some (codes "required");
  read_only = some true;
}

dev_args-get_profile : get_profile profile_files vault nothing.disk dev_args.name ≡ ok none
unfolding get_profile read_file get
dev_args-get_profile = refl

dev_args-secret : vault.secret nothing.secrets (secret_key dev_args.name) ≡ ok none
unfolding get
dev_args-secret = refl

abbrev saved : Value
saved =
    object (member (codes "name") (string (codes "dev")) (member (codes "saved") (bool true) end))

dev_args-saved :
    (call_save_connection_profile profile_files vault (λ v. ok dev_args) 1 (some null) nothing).0
    ≡ ok saved
unfolding call_save_connection_profile parse_arguments parse_ssl_mode save validate_name get_profile
    read_file upsert write_file
dev_args-saved = refl

call_save_connection_profile-choose_example :
    choose
      (some (
        resolve profile_files vault
          (call_save_connection_profile profile_files vault
            (λ v. ok dev_args)
            1
            (some null)
            nothing).1))
      (named dev_args.name)
    ≡ choose none (given dev_args)
call_save_connection_profile-choose_example =
    call_save_connection_profile-choose profile_files vault profile_files-IsLawful vault-IsKeeping 1
      nothing dev_args (λ v. ok dev_args) null refl none none dev_args-get_profile dev_args-secret
      refl refl saved dev_args-saved

abbrev dev_saved : Stores (Map Text ConnectionProfile) (Map Text Text)
dev_saved =
    (call_save_connection_profile profile_files vault (λ v. ok dev_args) 1 (some null) nothing).1

abbrev deleted : Value
deleted =
    object (member (codes "name") (string (codes "dev")) (member (codes "deleted") (bool true) end))

dev_args-deleted :
    (call_delete_connection_profile profile_files vault
      (λ v. ok (codes "dev"))
      (some null)
      dev_saved).0
    ≡ ok deleted
unfolding call_save_connection_profile call_delete_connection_profile parse_arguments parse_ssl_mode
    save validate_name get_profile read_file upsert write_file delete_profile remove_profile
    contains_key insert remove get profile_of
dev_args-deleted = refl

call_delete_connection_profile-choose_example :
    choose
      (some (
        resolve profile_files vault
          (call_delete_connection_profile profile_files vault
            (λ v. ok (codes "dev"))
            (some null)
            dev_saved).1))
      (named (codes "dev"))
    ≡ err (no_such_profile (codes "dev"))
call_delete_connection_profile-choose_example =
    call_delete_connection_profile-choose profile_files vault profile_files-IsLawful dev_saved
      (λ v. ok (codes "dev")) null (codes "dev") refl deleted dev_args-deleted
