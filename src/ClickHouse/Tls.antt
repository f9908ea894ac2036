-- ===== src/ClickHouse/Tls.antt =====
-- crates/driver-clickhouse/src/tls.rs: the URL, the user and the roots of a connection over HTTP.
use headless_db_mcp.Core.{
  SslMode, disabled, preferred, required, verify_ca, verify_identity, ConnectionConfig,
  DriverResult, driver_error, connection,
}
use headless_db_mcp.Prelude.{
  ℕ, nat_eq, text_eq, Option, none, some, List, [], ◌∷◌, ◌++◌, Text, codes, lit, Result, ok, ◌>>=◌,
  ok_or, map_err,
}
use headless_db_mcp.Strings.{decimal}

unfoldable pub resolve_scheme : Option SslMode → Text
resolve_scheme none = codes "https"
resolve_scheme (some disabled) = codes "http"
resolve_scheme (some preferred) = codes "https"
resolve_scheme (some required) = codes "https"
resolve_scheme (some verify_ca) = codes "https"
resolve_scheme (some verify_identity) = codes "https"

unfoldable pub resolve_base_url : ConnectionConfig → Text
resolve_base_url config =
    resolve_scheme config.ssl.mode
    ++ (codes "://" ++ (config.host ++ (codes ":" ++ decimal config.port)))

abbrev pub or_default_user : Text → Text
or_default_user [] = codes "default"
or_default_user (c ∷ s) = c ∷ s

unfoldable pub resolve_username : ConnectionConfig → Text
resolve_username config = or_default_user config.username

-- The roots that a client trusts: those built into `reqwest`, or one certificate alone.
pub data Roots (Cert : Type 0) : Type 0 where
  built_in : Roots Cert
  only : Cert → Roots Cert

-- `read` is that of the file system, `from_pem` that of `reqwest`, and `build` makes the client; every
-- client has the keepalive of crates/core/src/transport.rs.
module _ {Cert Client : Type 0} (read : Text → Result (List ℕ) Text)
    (from_pem : List ℕ → Result Cert Text) (build : Roots Cert → Result Client Text) where
  abbrev pub only_roots : Option Text → DriverResult (Roots Cert)
  only_roots ca_path = do
    path ←
        ok_or ca_path
          (driver_error connection (lit "ssl.mode = verify_ca requires ssl.ca_path to be set"))
    pem ←
        map_err
          (λ e.
            driver_error connection
              (lit "failed to read ssl.ca_path " ++ (path ++ (lit ": " ++ e))))
          (read path)
    cert ←
        map_err
          (λ e.
            driver_error connection
              (lit "ssl.ca_path did not contain a valid PEM certificate: " ++ e))
          (from_pem pem)
    ok (only cert)

  abbrev pub roots_for : Option SslMode → Option Text → DriverResult (Roots Cert)
  roots_for none ca_path = ok built_in
  roots_for (some disabled) ca_path = ok built_in
  roots_for (some preferred) ca_path = ok built_in
  roots_for (some required) ca_path = ok built_in
  roots_for (some verify_ca) ca_path = only_roots ca_path
  roots_for (some verify_identity) ca_path = ok built_in

  unfoldable pub build_http_client : ConnectionConfig → DriverResult Client
  build_http_client config = do
    roots ← roots_for config.ssl.mode config.ssl.ca_path
    map_err (λ e. driver_error connection (lit "failed to build the ClickHouse HTTP client: " ++ e))
        (build roots)
