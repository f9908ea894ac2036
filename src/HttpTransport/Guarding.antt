-- ===== src/HttpTransport/Guarding.antt =====
-- What the layers of crates/transport-http/src/router.rs let through.
use headless_db_mcp.HttpTransport.{
  unauthorized, too_many_requests, Response, status, Libraries, Request, bearer_prefix,
  extract_bearer_token, tokens_match, is_authorized, bearer_of, require_bearer_token,
  enforce_rate_limit, handle_mcp, post_mcp,
}
use headless_db_mcp.McpServer.Session.{Host, McpSession}
use headless_db_mcp.Prelude.{
  ℕ, Bool, true, false, nat_eq, text_eq, Option, none, some, List, ◌++◌, ◌≡◌, refl, ap, ◌⊎◌, inl,
  inr, Text, Bool-cases,
}
use headless_db_mcp.Strings.Prefixes.{strip_prefix_sound, strip_prefix-append}

-- `ct_eq` is equality, and UTF-8 tells texts apart.
pub record IsLawful (lib : Libraries) : Type 0 where
  pub ct_eq_sound : (x y : List ℕ) → lib.ct_eq x y ≡ true → x ≡ y
  pub ct_eq_same : (x : List ℕ) → lib.ct_eq x x ≡ true
  pub as_bytes_injective : (x y : Text) → lib.as_bytes x ≡ lib.as_bytes y → x ≡ y

-- The header is `Bearer`, a space and the token.
abbrev pub Presents : Libraries → Text → Option (List ℕ) → Type 0
Presents lib token none = ⊥
Presents lib token (some value) = lib.to_str value ≡ some (bearer_prefix ++ token)

module _ (lib : Libraries) where
  bearer_of_sound :
      (o : Option Text) (rest : Text)
      → bearer_of lib o ≡ some rest
      → o ≡ some (bearer_prefix ++ rest)
  bearer_of_sound none rest e = cc
  bearer_of_sound (some raw) rest e = ap some (strip_prefix_sound bearer_prefix raw rest e)

  extract_bearer_token-Presents :
      (authorization : Option (List ℕ)) (token : Text)
      → extract_bearer_token lib authorization ≡ some token
      → Presents lib token authorization
  unfolding extract_bearer_token
  extract_bearer_token-Presents none token e = cc
  extract_bearer_token-Presents (some value) token e = bearer_of_sound (lib.to_str value) token e

  tokens_match_sound : IsLawful lib → (x y : Text) → tokens_match lib x y ≡ true → x ≡ y
  unfolding tokens_match
  tokens_match_sound h x y e =
      h.as_bytes_injective x y (h.ct_eq_sound (lib.as_bytes x) (lib.as_bytes y) e)

  is_authorized-given :
      IsLawful lib
      → (expected : Text) (given : Option Text) → is_authorized lib expected given ≡ true
      → given ≡ some expected
  is_authorized-given h expected none e = cc
  is_authorized-given h expected (some token) e = ap some (tokens_match_sound h token expected e)

  authorized-Presents :
      IsLawful lib
      → (token : Text) (authorization : Option (List ℕ))
      → is_authorized lib token (extract_bearer_token lib authorization) ≡ true
      → Presents lib token authorization
  authorized-Presents h token authorization e =
      extract_bearer_token-Presents authorization token
        (is_authorized-given h token (extract_bearer_token lib authorization) e)

  Presents-authorized :
      IsLawful lib
      → (token : Text) (authorization : Option (List ℕ)) → Presents lib token authorization
      → is_authorized lib token (extract_bearer_token lib authorization) ≡ true
  unfolding extract_bearer_token tokens_match
  Presents-authorized h token none presents = elim presents [ ]
  Presents-authorized h token (some value) presents =
      rw (presents, strip_prefix-append bearer_prefix token) (h.ct_eq_same (lib.as_bytes token))

  -- The three ways in which a request ends, each with when it is taken.
  abbrev pub IsGuarded :
      {World : Type 0}
      → Type 0
      → Bool
      → Response × McpSession World
      → Response × McpSession World
      → McpSession World
      → Type 0
  IsGuarded Presented passes result served s =
      (passes ≡ true × Presented × (result ≡ served))
      ⊎ (passes ≡ true × (¬ Presented) × (status result.0 ≡ unauthorized) × (result.1 ≡ s))
      ⊎ (passes ≡ false × (status result.0 ≡ too_many_requests) × (result.1 ≡ s))

  require_bearer_token-IsGuarded :
      IsLawful lib
      → {World : Type 0} (token : Text) (authorization : Option (List ℕ))
        (next : McpSession World → Response × McpSession World) (s : McpSession World)
      → let result = require_bearer_token lib token authorization next s in
        (Presents lib token authorization × (result ≡ next s))
        ⊎ ((¬ Presents lib token authorization) × (status result.0 ≡ unauthorized) × (result.1 ≡ s))
  unfolding require_bearer_token
  require_bearer_token-IsGuarded h token authorization next s =
      let authorized = is_authorized lib token (extract_bearer_token lib authorization) in
      elim (Bool-cases authorized) [
        | inl e ↦ inl (authorized-Presents h token authorization e, rw e refl)
        | inr e ↦ inr (
          (λ presents. let true_false = Presents-authorized h token authorization presents in cc),
          rw e refl,
          rw e refl,
        )
      ]

  -- Given that `ct_eq` is equality and UTF-8 tells texts apart: what the limiter does not pass is
  -- answered with 429, else a request whose `Authorization` header is not `Bearer`, a space and the
  -- configured token (or that has none) with 401, and in both cases the session is untouched; every
  -- other request has the response and the session that `handle_mcp` gives.
  pub post_mcp-IsGuarded :
      IsLawful lib
      → (host : Host) {World Ip Limiter : Type 0} (check_key : Ip → Limiter → Bool × Limiter)
        (token : Text) (request : Request Ip) (limiter : Limiter) (s : McpSession World)
      → let (response, _, after) = post_mcp lib host check_key token request (limiter, s) in
        IsGuarded
          (Presents lib token request.authorization)
          (check_key request.ip limiter).0
          (response, after)
          (handle_mcp lib host request.body s)
          s
  unfolding post_mcp enforce_rate_limit
  post_mcp-IsGuarded h host check_key token request limiter s =
      let next = handle_mcp lib host request.body in
      elim (Bool-cases (check_key request.ip limiter).0) [
        | inl e ↦ elim (require_bearer_token-IsGuarded h token request.authorization next s) [
          | inl (presents, served) ↦ rw e (inl (refl, presents, served))
          | inr (absent, code, same) ↦ rw e (inr (inl (refl, absent, code, same)))
        ]
        | inr e ↦ rw e (inr (inr (refl, refl, refl)))
      ]
