-- ===== src/Postgres/Config.antt =====
-- crates/driver-postgres/src/config.rs, and the part of driver.rs that chooses a connector.
pub mod Trusting
use headless_db_mcp.Core.{
  SslMode, disabled, preferred, required, verify_ca, verify_identity, ConnectionConfig,
  DriverResult,
}
use headless_db_mcp.Postgres.Tls.{TlsLibrary, Verifier, build_connector}
use headless_db_mcp.Prelude.{
  ℕ, Bool, true, false, nat_eq, text_eq, Option, none, some, Text, ok, ◌>>=◌, if◌then◌else◌,
}

-- `tokio_postgres::config::SslMode`: no TLS, TLS if the server has it, or TLS or no connection.
pub data WireMode : Type 0 where
  disable prefer require : WireMode

-- `TransportKeepalive` of crates/core/src/transport.rs, in seconds.
abbrev pub keepalive_idle : ℕ
keepalive_idle = 1

abbrev pub keepalive_interval : ℕ
keepalive_interval = 1

abbrev pub keepalive_retries : ℕ
keepalive_retries = 3

-- The fields of `tokio_postgres::Config` that are set.
pub record PgConfig : Type 0 where
  pub host : Text
  pub port : ℕ
  pub user : Text
  pub ssl_mode : WireMode
  pub keepalives : Bool
  pub keepalives_idle : ℕ
  pub keepalives_interval : ℕ
  pub keepalives_retries : ℕ
  pub password : Option Text
  pub dbname : Option Text

unfoldable pub resolve_ssl_mode : Option SslMode → WireMode
resolve_ssl_mode none = require
resolve_ssl_mode (some disabled) = disable
resolve_ssl_mode (some preferred) = prefer
resolve_ssl_mode (some required) = require
resolve_ssl_mode (some verify_ca) = require
resolve_ssl_mode (some verify_identity) = require

unfoldable pub build_config : ConnectionConfig → PgConfig
build_config config = record {
  host = config.host;
  port = config.port;
  user = config.username;
  ssl_mode = resolve_ssl_mode config.ssl.mode;
  keepalives = true;
  keepalives_idle = keepalive_idle;
  keepalives_interval = keepalive_interval;
  keepalives_retries = keepalive_retries;
  password = config.password;
  dbname = config.database;
}

-- What `connect` of `tokio_postgres` is given: `NoTls`, or a connector with its verifier.
pub data Connector (Anchor : Type 0) : Type 0 where
  no_tls : Connector Anchor
  verifying : Verifier Anchor → Connector Anchor

abbrev pub is_disabled : Option SslMode → Bool
is_disabled (some disabled) = true
is_disabled (some preferred) = false
is_disabled (some required) = false
is_disabled (some verify_ca) = false
is_disabled (some verify_identity) = false
is_disabled none = false

-- `connect_with_config` up to the call of `connect`.
unfoldable pub connector_of :
    {Cert Anchor EndEntity : Type 0}
    → TlsLibrary Cert Anchor EndEntity
    → ConnectionConfig
    → DriverResult (Connector Anchor)
connector_of tls config =
    if is_disabled config.ssl.mode
    then ok no_tls
    else do verifier ← build_connector tls config; ok (verifying verifier)
