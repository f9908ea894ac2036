-- ===== src/Profiles/Profile.antt =====
-- crates/connection-profiles/src/profile.rs, error.rs and the parameters of manager.rs: what a profile
-- is, what `save` makes of its parameters and `resolve` of a profile.
use headless_db_mcp.Core.{SslMode, ConnectionConfig}
use headless_db_mcp.Prelude.{ℕ, Bool, false, nat_eq, text_eq, Option, none, some, [], Text}
use headless_db_mcp.Secrets.FileStore.{SecretError}

pub record ConnectionProfile : Type 0 where
  pub name : Text
  pub database_type : Text
  pub host : Text
  pub port : ℕ
  pub username : Text
  pub database : Option Text
  pub ssl_mode : Option SslMode
  pub read_only : Bool
  pub has_password : Bool
  pub created_at_unix_ms : ℕ
  pub updated_at_unix_ms : ℕ

pub data ProfileError : Type 0 where
  io_failure corrupted : Text → ProfileError
  empty_name : ProfileError
  not_found : Text → ProfileError
  secret_failed : SecretError → ProfileError

pub record SaveProfileParams : Type 0 where
  pub name : Text
  pub database_type : Text
  pub host : Text
  pub port : ℕ
  pub username : Text
  pub password : Option Text
  pub database : Option Text
  pub ssl_mode : Option SslMode
  pub read_only : Option Bool

pub record ResolvedProfile : Type 0 where
  pub database_type : Text
  pub config : ConnectionConfig

abbrev pub profile_has_password : Option ConnectionProfile → Bool
profile_has_password none = false
profile_has_password (some p) = p.has_password

abbrev pub choose_read_only : Option Bool → Option ConnectionProfile → Bool
choose_read_only (some read_only) existing = read_only
choose_read_only none none = false
choose_read_only none (some p) = p.read_only

abbrev pub choose_created_at : ℕ → Option ConnectionProfile → ℕ
choose_created_at now none = now
choose_created_at now (some p) = p.created_at_unix_ms

unfoldable pub profile_of :
    ℕ → SaveProfileParams → Option ConnectionProfile → Bool → ConnectionProfile
profile_of now params existing has_password = record {
  name = params.name;
  database_type = params.database_type;
  host = params.host;
  port = params.port;
  username = params.username;
  database = params.database;
  ssl_mode = params.ssl_mode;
  read_only = choose_read_only params.read_only existing;
  has_password = has_password;
  created_at_unix_ms = choose_created_at now existing;
  updated_at_unix_ms = now;
}

unfoldable pub config_of : ConnectionProfile → Option Text → ConnectionConfig
config_of profile password = record {
  host = profile.host;
  port = profile.port;
  username = profile.username;
  password = password;
  database = profile.database;
  ssl = record {
    mode = profile.ssl_mode;
    ca_path = none;
    client_cert_path = none;
    client_key_path = none;
  };
  read_only = profile.read_only;
  additional_fields = [];
}
