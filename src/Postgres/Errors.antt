-- ===== src/Postgres/Errors.antt =====
-- crates/driver-postgres/src/error.rs: the errors of `tokio_postgres` as those that drivers share.
use headless_db_mcp.Core.{
  DriverError, DriverErrorKind, driver_error, with_code, with_sql_state, with_detail, auth,
  cancelled, connection, query,
}
use headless_db_mcp.Prelude.{
  ◌||◌, ◌==◌, nat_eq, text_eq, Option, none, some, ◌++◌, Text, codes, lit, if◌then◌else◌,
}
use headless_db_mcp.Strings.Edges.{starts_with}

-- What the code reads of a `tokio_postgres::Error`: its text, its code, and the server's message
-- with what comes with it.
pub record DbError : Type 0 where
  pub message : Text
  pub detail : Option Text
  pub hint : Option Text

pub record PgError : Type 0 where
  pub text : Text
  pub code : Option Text
  pub db_error : Option DbError

unfoldable pub kind_for_sql_state : Text → DriverErrorKind
kind_for_sql_state sql_state =
    if sql_state == codes "28000" || sql_state == codes "28P01"
    then auth
    else if sql_state == codes "57014"
    then cancelled
    else if starts_with (codes "08") sql_state
    then connection
    else query

abbrev pub kind_or : DriverErrorKind → Option Text → DriverErrorKind
kind_or fallback none = fallback
kind_or fallback (some sql_state) = kind_for_sql_state sql_state

abbrev pub with_state : Option Text → DriverError → DriverError
with_state none e = e
with_state (some sql_state) e = with_code (with_sql_state e sql_state) sql_state

-- The detail and the hint, joined by a semicolon.
abbrev pub with_details : Option Text → Option Text → DriverError → DriverError
with_details none none e = e
with_details (some detail) none e = with_detail e detail
with_details none (some hint) e = with_detail e (lit "hint: " ++ hint)
with_details (some detail) (some hint) e = with_detail e (detail ++ (lit "; hint: " ++ hint))

abbrev pub map_error_of : PgError → DriverErrorKind → Option DbError → DriverError
map_error_of e kind none = with_state e.code (driver_error kind e.text)
map_error_of e kind (some db) =
    with_details db.detail db.hint (with_state e.code (driver_error kind db.message))

unfoldable pub map_error : PgError → DriverErrorKind → DriverError
map_error e fallback = map_error_of e (kind_or fallback e.code) e.db_error

abbrev pub map_connect_error : PgError → DriverError
map_connect_error e = map_error e connection

abbrev pub map_query_error : PgError → DriverError
map_query_error e = map_error e query
