-- ===== src/HttpTransport.antt =====
-- crates/transport-http: `POST /mcp` behind the rate limiter and the bearer token (router.rs,
-- rate_limit.rs, auth.rs, handlers.rs).
pub mod Guarding
mod Tests
use headless_db_mcp.McpServer.Session.{Host, McpSession, handle}
use headless_db_mcp.Prelude.{
  ℕ, zero, suc, Bool, false, nat_eq, text_eq, Option, none, some, List, arith, Text, codes, Result,
  ok, err, if◌then◌else◌,
}
use headless_db_mcp.Strings.{strip_prefix}
use headless_db_mcp.Wire.JsonRpc.{
  Value, JsonRpcError, JsonRpcMessage, JsonRpcErrorResponse, decode_message,
}

pub data StatusCode : Type 0 where
  ok_status accepted unauthorized too_many_requests internal_server_error : StatusCode

-- What is made into a response: a status with JSON bytes, with a text, or alone.
pub data Response : Type 0 where
  json : StatusCode → List ℕ → Response
  plain : StatusCode → Text → Response
  bare : StatusCode → Response

abbrev pub status : Response → StatusCode
status (json code bytes) = code
status (plain code text) = code
status (bare code) = code

-- What the transport takes from `serde_json`, `http`, `str` and `subtle`.
pub record Libraries : Type 0 where
  pub from_value : Value → Result JsonRpcError Text
  pub from_slice : List ℕ → Result Value Text
  pub message_to_vec : JsonRpcMessage → Result (List ℕ) Text
  pub error_to_vec : JsonRpcErrorResponse → Result (List ℕ) Text
  pub to_str : List ℕ → Option Text
  pub as_bytes : Text → List ℕ
  pub ct_eq : List ℕ → List ℕ → Bool

-- The parts of a request that the code reads: the address, the bytes of the `Authorization` header
-- if there is one, and the body.
pub record Request (Ip : Type 0) : Type 0 where
  pub ip : Ip
  pub authorization : Option (List ℕ)
  pub body : List ℕ

abbrev pub bearer_prefix : Text
bearer_prefix = codes "Bearer "

module _ (lib : Libraries) where
  abbrev pub bearer_of : Option Text → Option Text
  bearer_of none = none
  bearer_of (some raw) = strip_prefix bearer_prefix raw

  unfoldable pub extract_bearer_token : Option (List ℕ) → Option Text
  extract_bearer_token none = none
  extract_bearer_token (some value) = bearer_of (lib.to_str value)

  unfoldable pub tokens_match : Text → Text → Bool
  tokens_match provided expected = lib.ct_eq (lib.as_bytes provided) (lib.as_bytes expected)

  abbrev pub json_response : StatusCode → Result (List ℕ) Text → Response
  json_response code (ok bytes) = json code bytes
  json_response code (err e) = bare internal_server_error

  abbrev pub reply_response : Option JsonRpcMessage → Response
  reply_response (some reply) = json_response ok_status (lib.message_to_vec reply)
  reply_response none = bare accepted

  module _ (host : Host) {World : Type 0} where
    unfoldable pub handle_decoded :
        Result JsonRpcMessage JsonRpcError → McpSession World → Response × McpSession World
    handle_decoded (ok message) s =
        let (reply, s') = handle host s message in (reply_response reply, s')
    handle_decoded (err error) s =
        (json_response ok_status (lib.error_to_vec (record { id = none; error = error })), s)

    unfoldable pub handle_mcp : List ℕ → McpSession World → Response × McpSession World
    handle_mcp body s = handle_decoded (decode_message lib.from_value lib.from_slice body) s

  -- The `match` of `require_bearer_token`.
  abbrev pub is_authorized : Text → Option Text → Bool
  is_authorized bearer_token none = false
  is_authorized bearer_token (some token) = tokens_match token bearer_token

  -- `S` is what `next` acts on.
  unfoldable pub require_bearer_token :
      {S : Type 0} → Text → Option (List ℕ) → (S → Response × S) → S → Response × S
  require_bearer_token bearer_token authorization next s =
      if is_authorized bearer_token (extract_bearer_token authorization)
      then next s
      else (plain unauthorized (codes "unauthorized"), s)

-- `check_key` of the limiter answers whether a request of the address may pass.
unfoldable pub enforce_rate_limit :
    {Ip Limiter S : Type 0}
    → (Ip → Limiter → Bool × Limiter)
    → Ip
    → (S → Response × S)
    → Limiter × S
    → Response × Limiter × S
enforce_rate_limit check_key ip next (limiter, s) =
    let (passes, limiter') = check_key ip limiter in
    let (response, s') =
      if passes then next s else (plain too_many_requests (codes "rate limit exceeded"), s) in
    (response, limiter', s')

-- The router's layers around `handle_mcp`: the rate limit first, and then the token.
unfoldable pub post_mcp :
    (lib : Libraries) (host : Host) {World Ip Limiter : Type 0}
    → (Ip → Limiter → Bool × Limiter)
    → Text
    → Request Ip
    → Limiter × McpSession World
    → Response × Limiter × McpSession World
post_mcp lib host check_key bearer_token request =
    enforce_rate_limit check_key request.ip (
      require_bearer_token lib bearer_token request.authorization
        (handle_mcp lib host request.body))
