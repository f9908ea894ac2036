-- ===== src/Core.antt =====
-- crates/core: the types that every driver shares. Times are milliseconds and a password is its
-- text; what `Serialize` leaves out is not modelled.
pub mod Results
use headless_db_mcp.HashMap.{Map}
use headless_db_mcp.Prelude.{ℕ, Bool, true, false, Option, none, some, List, Text, lit, Result}

-- crates/core/src/error.rs
pub data DriverErrorKind : Type 0 where
  connection auth query timeout cancelled protocol internal : DriverErrorKind

pub record DriverError : Type 0 where
  pub kind : DriverErrorKind
  pub message : Text
  pub code : Option Text
  pub sql_state : Option Text
  pub detail : Option Text

-- `DriverError::new`
abbrev pub driver_error : DriverErrorKind → Text → DriverError
driver_error kind message = record {
  kind = kind;
  message = message;
  code = none;
  sql_state = none;
  detail = none;
}

abbrev pub cancelled_error : DriverError
cancelled_error = driver_error cancelled (lit "operation was cancelled")

abbrev pub with_code : DriverError → Text → DriverError
with_code e code = record e { code = some code }

abbrev pub with_sql_state : DriverError → Text → DriverError
with_sql_state e sql_state = record e { sql_state = some sql_state }

abbrev pub with_detail : DriverError → Text → DriverError
with_detail e detail = record e { detail = some detail }

abbrev pub DriverResult {ℓ} : Type ℓ → Type ℓ
DriverResult A = Result A DriverError

-- crates/core/src/value.rs
pub data CellValue : Type 0 where
  null : CellValue
  text : Text → CellValue
  bytes : List ℕ → CellValue

-- crates/core/src/config.rs
pub data SslMode : Type 0 where
  disabled preferred required verify_ca verify_identity : SslMode

pub record SslConfig : Type 0 where
  pub mode : Option SslMode
  pub ca_path : Option Text
  pub client_cert_path : Option Text
  pub client_key_path : Option Text

unfoldable pub is_enabled : SslConfig → Bool
is_enabled c = enabled c.mode
  where
    enabled : Option SslMode → Bool
    enabled none = false
    enabled (some disabled) = false
    enabled _ = true

pub record ConnectionConfig : Type 0 where
  pub host : Text
  pub port : ℕ
  pub username : Text
  pub password : Option Text
  pub database : Option Text
  pub ssl : SslConfig
  pub read_only : Bool
  pub additional_fields : Map Text Text
