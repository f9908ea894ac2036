-- ===== src/ClickHouse/Request.antt =====
-- crates/driver-clickhouse/src/request.rs and error.rs, and the part of driver.rs that sends a request:
-- calls over HTTP, and which one of them may be cancelled.
use headless_db_mcp.ClickHouse.Tls.{resolve_username}
use headless_db_mcp.Core.{
  ConnectionConfig, DriverError, DriverErrorKind, DriverResult, driver_error, with_code, auth,
  query, timeout, connection, protocol,
}
use headless_db_mcp.Prelude.{
  ℕ, Bool, true, false, ◌&&◌, ◌||◌, ltb, leb, ◌==◌, nat_eq, text_eq, Option, none, some, List, [],
  ◌∷◌, ◌++◌, Text, codes, lit, Result, ok, err, if◌then◌else◌, chain, failing_with,
}
use headless_db_mcp.Strings.{strip_prefix, decimal}
use headless_db_mcp.Strings.Edges.{trim}
use headless_db_mcp.Strings.Numerals.{parse_unsigned, u64_max}
use headless_db_mcp.Wire.JsonRpc.{Value}

-- What the code reads of a `reqwest::Error` and of a response; `summary` is the header
-- `x-clickhouse-summary` as a text, and `chunks` is the body in the parts in which it arrives.
pub record ReqwestError : Type 0 where
  pub is_timeout : Bool
  pub is_connect : Bool
  pub text : Text

pub record Response : Type 0 where
  pub status : ℕ
  pub status_text : Text
  pub summary : Option Text
  pub body : Result Text ReqwestError
  pub chunks : List (Result (List ℕ) ReqwestError)

pub record Post : Type 0 where
  pub url : Text
  pub username : Text
  pub password : Option Text
  pub params : List (Text × Text)
  pub body : Text

-- What the driver takes from `reqwest`, `uuid` and `serde_json`; `summary_from_str` reads a summary and
-- gives its field `written_rows`. `S` is the state of the server.
pub record Http (Client S : Type 0) : Type 0 where
  pub post : Client → Post → S → Result Response ReqwestError × S
  pub new_v4 : S → Text × S
  pub summary_from_str : Text → Option (Option Text)
  pub from_str : Text → Result Value Text
  pub print : Value → Text

abbrev pub reqwest_kind : ReqwestError → DriverErrorKind
reqwest_kind e = if e.is_timeout then timeout else if e.is_connect then connection else protocol

unfoldable pub map_reqwest_error : ReqwestError → DriverError
map_reqwest_error e = driver_error (reqwest_kind e) e.text

abbrev pub is_ascii_digit : ℕ → Bool
is_ascii_digit c = leb b'0' c && leb c b'9'

-- `take_while` with the digits.
abbrev pub leading_digits : Text → Text
leading_digits [] = []
leading_digits (c ∷ s) = let rest = leading_digits s in if is_ascii_digit c then c ∷ rest else []

abbrev pub some_digits : Text → Option Text
some_digits [] = none
some_digits (c ∷ s) = some (c ∷ s)

abbrev pub digits_behind : Option Text → Option Text
digits_behind none = none
digits_behind (some rest) = some_digits (leading_digits rest)

unfoldable pub extract_exception_code : Text → Option Text
extract_exception_code body = digits_behind (strip_prefix (codes "Code: ") (trim body))

abbrev pub http_message : Text → Text → Text
http_message status_text [] = lit "ClickHouse request failed with HTTP status " ++ status_text
http_message status_text (c ∷ s) = c ∷ s

abbrev pub with_exception_code : Option Text → DriverError → DriverError
with_exception_code none e = e
with_exception_code (some code) e = with_code e code

unfoldable pub map_http_error : ℕ → Text → Text → DriverError
map_http_error status status_text body =
    let kind = if status == 401 || status == 403 then auth else query in
    with_exception_code (extract_exception_code body)
      (driver_error kind (http_message status_text (trim body)))

abbrev pub parsed_rows : Option Text → Option ℕ
parsed_rows none = none
parsed_rows (some s) = parse_unsigned u64_max s

abbrev pub rows_in : Option (Option Text) → Option ℕ
rows_in none = none
rows_in (some written_rows) = parsed_rows written_rows

abbrev pub or_empty : Result Text ReqwestError → Text
or_empty (ok t) = t
or_empty (err e) = []

abbrev pub is_success : ℕ → Bool
is_success status = leb 200 status && ltb status 300

pub record ConnectedClient (Client : Type 0) : Type 0 where
  pub client : Client
  pub base_url : Text

pub record CancelContext (Client : Type 0) : Type 0 where
  pub client : Client
  pub base_url : Text
  pub username : Text
  pub password : Option Text

-- The fields of `ClickHouseDriver`.
pub record ClickHouseDriver (Client : Type 0) : Type 0 where
  pub config : ConnectionConfig
  pub client : Option (ConnectedClient Client)
  pub current_database : Text
  pub server_version : Option Text
  pub active_query_id : Option Text
  pub query_timeout_seconds : Option ℕ
  pub cancel_context : Option (CancelContext Client)

unfoldable pub set_active_query_id : {C : Type 0} → Text → ClickHouseDriver C → ClickHouseDriver C
set_active_query_id query_id d = record d { active_query_id = some query_id }

abbrev pub is_active : Text → Option Text → Bool
is_active query_id none = false
is_active query_id (some active) = active == query_id

unfoldable pub clear_active_query_id : {C : Type 0} → Text → ClickHouseDriver C → ClickHouseDriver C
clear_active_query_id query_id d =
    if is_active query_id d.active_query_id then record d { active_query_id = none } else d

abbrev pub timeout_params : Option ℕ → List (Text × Text)
timeout_params none = []
timeout_params (some seconds) = (codes "max_execution_time", decimal seconds) ∷ []

abbrev pub readonly_params : Bool → List (Text × Text)
readonly_params false = []
readonly_params true = (codes "readonly", codes "1") ∷ []

unfoldable pub request_params :
    {C : Type 0} → ClickHouseDriver C → Text → List (Text × Text) → List (Text × Text)
request_params d query_id extra =
    (codes "database", d.current_database)
    ∷ (codes "query_id", query_id)
    ∷ (timeout_params d.query_timeout_seconds ++ (readonly_params d.config.read_only ++ extra))

module _ {Client S : Type 0} (http : Http Client S) where
  unfoldable pub written_rows : Response → Option ℕ
  written_rows response = elim response.summary [
    | none ↦ none
    | some text ↦ rows_in (http.summary_from_str text)
  ]

  abbrev pub checked : Response → DriverResult Response
  checked response =
      if is_success response.status
      then ok response
      else err (map_http_error response.status response.status_text (or_empty response.body))

  unfoldable pub send :
      ConnectedClient Client
      → Text
      → Option Text
      → Text
      → List (Text × Text)
      → S
      → DriverResult Response × S
  send connected username password body params s =
      chain
        (failing_with map_reqwest_error (
          http.post connected.client
            (record {
              url = connected.base_url ++ codes "/";
              username = username;
              password = password;
              params = params;
              body = body;
            })
            s))
        λ response s'. (checked response, s')

  -- The driver and the server.
  abbrev pub World : Type 0
  World = ClickHouseDriver Client × S

  -- Behind the answer: the guard that goes with a response is dropped by who asked, an error clears
  -- the slot at once.
  abbrev pub guarded :
      ClickHouseDriver Client
      → Text
      → DriverResult Response × S
      → DriverResult (Response × Text) × World
  guarded d query_id (ok response, s) = (ok (response, query_id), (d, s))
  guarded d query_id (err e, s) = (err e, (clear_active_query_id query_id d, s))

  -- The response with the id that its guard holds.
  unfoldable pub send_request :
      ConnectedClient Client
      → Text
      → List (Text × Text)
      → World
      → DriverResult (Response × Text) × World
  send_request connected body extra (d, s) =
      let (query_id, s') = http.new_v4 s in
      let d' = set_active_query_id query_id d in
      guarded d' query_id (
        send connected (resolve_username d.config) d.config.password body
          (request_params d' query_id extra) s')

  -- The drop of the guard at the end of the function that `r` is the answer of.
  abbrev pub dropping : {A : Type 0} → Text → DriverResult A × World → DriverResult A × World
  dropping query_id (r, (d, s)) = (r, (clear_active_query_id query_id d, s))
