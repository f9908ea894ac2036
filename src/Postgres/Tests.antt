-- ===== src/Postgres/Tests.antt =====
-- Quoted names and values inside of a statement.
use headless_db_mcp.Postgres.Driver.{Postgres, new}
use headless_db_mcp.Postgres.Driver.Sessions.{
  connects, disconnects, switches_database, IsHeld, run, run-IsHeld,
}
use headless_db_mcp.Core.{verify_ca, SslMode, ConnectionConfig, CellValue}
use headless_db_mcp.Core.Results.{QueryResult, take, drop, effective_cap, emergency_max}
use headless_db_mcp.Postgres.Cells.{
  Reader, Row, Column, plain_text, row_values, row_value, convert_rows, column_names_and_types,
}
use headless_db_mcp.Postgres.Config.{PgConfig, Connector, no_tls, connector_of}
use headless_db_mcp.Postgres.Config.Trusting.{
  Promises, build_connector-Promises, AllowsPlain, connector_of-AllowsPlain,
}
use headless_db_mcp.Postgres.Query.{PgClient, execute_user_query, open_portal, fetch_loop}
use headless_db_mcp.Postgres.Query.Ending.{Ends, execute_user_query-Ends}
use headless_db_mcp.Postgres.Query.Reading.{IsCursor}
use headless_db_mcp.Postgres.Query.Capped.{Went, execute_user_query-Went}
use headless_db_mcp.Postgres.Tls.{
  TlsLibrary, chain_only, build_connector, load_trust_anchors, anchors_of, verify_server_cert,
}
use headless_db_mcp.Postgres.Ident.{quote_ident, quote_ident-reads}
use headless_db_mcp.Prelude.{
  ℕ, true, false, nat_eq, text_eq, Option, none, some, List, [], ◌∷◌, ◌++◌, ◌≡◌, refl, inl, Text,
  codes, length, ok,
}
use headless_db_mcp.Quoting.Reading.{read_quoted}

abbrev hostile : Text
hostile = codes "a\"; DROP TABLE b; --"

quote_ident-reads_example :
    read_quoted b'"' (quote_ident hostile ++ codes " WHERE 1") ≡ some (hostile, codes " WHERE 1")
quote_ident-reads_example = quote_ident-reads hostile (codes " WHERE 1") refl

-- A server whose only table has three rows of one column; a value is its text.
abbrev value_reader : Reader Text
value_reader = record {
  try_get_bool = λ raw. ok none;
  try_get_string = λ raw. ok (some raw);
  try_get_bytes = λ raw. ok none;
  try_get_printed = λ target raw. ok (some raw);
}

abbrev id_column : Column
id_column = record {
  name = codes "id";
  column_type = plain_text;
  type_name = codes "text";
  type_oid = 25;
}

abbrev row_of : Text → Row Text
row_of t = record { columns = id_column ∷ []; values = t ∷ [] }

abbrev table_rows : List (Row Text)
table_rows = row_of (codes "a") ∷ row_of (codes "b") ∷ row_of (codes "c") ∷ []

-- The state is the rows that the portal has not given yet.
abbrev table_client : PgClient Text (Unit {0}) (Unit {0}) (List (Row Text))
table_client = record {
  reader = value_reader;
  simple_query = λ sql s. (ok [], s);
  query = λ sql parameters s. (ok s, s);
  start = λ read_only s. (ok tt, s);
  prepare = λ sql s. (ok tt, s);
  columns_of = λ stmt. id_column ∷ [];
  bind = λ stmt parameters s. (ok tt, s);
  query_portal = λ p n s. (ok (take n s), drop n s);
  commit = λ s. (ok tt, s);
  dropped = λ s. s;
}

abbrev table_pending : Unit {0} → List (Row Text) → List (Row Text)
table_pending p s = s

table_client-IsCursor : IsCursor table_client table_pending
table_client-IsCursor = record { fetches = λ p n s s' batch b h. (cc, cc) }

abbrev two_shown : QueryResult
two_shown = record {
  columns = codes "id" ∷ [];
  column_type_names = codes "text" ∷ [];
  rows = (CellValue.text (codes "a") ∷ []) ∷ (CellValue.text (codes "b") ∷ []) ∷ [];
  rows_affected = 2;
  execution_time = 9;
  is_truncated = true;
  status_message = none;
  column_meta = none;
}

two-shown :
    execute_user_query table_client 9 (codes "SELECT id FROM t") (some 2) none true table_rows
    ≡ some (ok two_shown, row_of (codes "c") ∷ [])
unfolding execute_user_query open_portal fetch_loop take drop convert_rows row_values row_value
    column_names_and_types effective_cap emergency_max
two-shown = refl

execute_user_query-Went_example :
    Went table_client table_pending table_client-IsCursor
      (codes "SELECT id FROM t")
      (effective_cap (some 2))
      []
      true
      table_rows
      (row_of (codes "c") ∷ [])
      two_shown
execute_user_query-Went_example =
    execute_user_query-Went table_client table_pending table_client-IsCursor 9
      (codes "SELECT id FROM t") (some 2) none true table_rows (row_of (codes "c") ∷ []) two_shown
      two-shown

execute_user_query-Ends_example :
    Ends table_client
      (execute_user_query table_client 9 (codes "SELECT id FROM t") (some 2) none true table_rows)
execute_user_query-Ends_example =
    execute_user_query-Ends table_client 9 (codes "SELECT id FROM t") (some 2) none true table_rows

-- A library in which a certificate is a number, and its own anchor.
abbrev numbers_tls : TlsLibrary ℕ ℕ ℕ
numbers_tls = record {
  read = λ path. ok (7 ∷ []);
  pem_certs = λ pem. ok pem;
  anchor_from_trusted_cert = λ cert. ok cert;
  add_parsable_certificates = λ certs. certs;
  native_certs = 8 ∷ [];
  native_errors = [];
  safe_default_protocol_versions = ok tt;
  end_entity = λ cert. ok cert;
  verify_for_usage = λ entity roots intermediates now. ok tt;
  web_pki = λ roots cert intermediates server_name now. ok tt;
  verify_signature = λ message cert dss. ok tt;
}

abbrev settings : Option SslMode → ConnectionConfig
settings mode = record {
  host = codes "db";
  port = 5432;
  username = codes "me";
  password = none;
  database = none;
  ssl = record {
    mode = mode;
    ca_path = some (codes "/ca.pem");
    client_cert_path = none;
    client_key_path = none;
  };
  read_only = false;
  additional_fields = [];
}

ca-connector : build_connector numbers_tls (settings (some verify_ca)) ≡ ok (chain_only (7 ∷ []))
unfolding build_connector load_trust_anchors anchors_of
ca-connector = refl

ca-accepted : verify_server_cert numbers_tls (chain_only (7 ∷ [])) 9 [] (codes "db") 1 ≡ ok tt
unfolding verify_server_cert
ca-accepted = refl

build_connector-Promises_example :
    Promises numbers_tls (settings (some verify_ca)) (some verify_ca) 9 [] (codes "db") 1
build_connector-Promises_example =
    build_connector-Promises numbers_tls (settings (some verify_ca)) 9 [] (codes "db") 1
      (chain_only (7 ∷ [])) ca-accepted ca-connector

plain-connector : connector_of numbers_tls (settings (some SslMode.disabled)) ≡ ok no_tls
unfolding connector_of
plain-connector = refl

connector_of-AllowsPlain_example : AllowsPlain (some SslMode.disabled)
connector_of-AllowsPlain_example =
    connector_of-AllowsPlain numbers_tls (settings (some SslMode.disabled)) (inl plain-connector)

-- A client and its token are the number of the session.
abbrev sessions : Postgres ℕ ℕ ℕ ℕ ℕ Text (Unit {0}) (Unit {0}) (List (Row Text))
sessions = record {
  tls = numbers_tls;
  open_session = λ wire connector s. (ok (length s, length s), s);
  calls = λ c. table_client;
  current_schema_of = λ c s. (ok (ok none), s);
  send_cancel = λ token s. s;
}

abbrev Cancels : ℕ → ℕ → Type 0
Cancels token c = token ≡ c

sessions-opens :
    (wire : PgConfig) (connector : Connector ℕ) (s s' : List (Row Text)) (c token : ℕ)
    → sessions.open_session wire connector s ≡ (ok (c, token), s')
    → Cancels token c
sessions-opens wire connector s s' c token h = cc

run-IsHeld_example :
    IsHeld sessions Cancels
      (settings none)
      (run sessions
        (connects ∷ switches_database (codes "b") ∷ disconnects ∷ connects ∷ [])
        (new (settings none), table_rows)).0
run-IsHeld_example =
    run-IsHeld sessions Cancels sessions-opens (settings none)
      (connects ∷ switches_database (codes "b") ∷ disconnects ∷ connects ∷ []) table_rows
