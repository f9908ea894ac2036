-- ===== src/HttpTransport/Tests.antt =====
-- A request with the right token and a limiter that lets one request pass.
use headless_db_mcp.HttpTransport.{Libraries, Request, handle_mcp, post_mcp}
use headless_db_mcp.HttpTransport.Guarding.{IsLawful, Presents, IsGuarded, post_mcp-IsGuarded}
use headless_db_mcp.McpServer.Session.{Host, McpSession}
use headless_db_mcp.Prelude.{
  ℕ, zero, suc, Bool, true, false, ◌==◌, nat_eq, text_eq, text_beq_iff, some, [], refl, codes, ok,
  err,
}

abbrev libraries : Libraries
libraries = record {
  from_value = λ v. err (codes "none");
  from_slice = λ bytes. err (codes "junk");
  message_to_vec = λ message. ok (codes "{}");
  error_to_vec = λ e. ok (codes "{}");
  to_str = λ value. some value;
  as_bytes = λ text. text;
  ct_eq = λ x y. x == y;
}

libraries-IsLawful : IsLawful libraries
libraries-IsLawful = record {
  ct_eq_sound = λ x y. (text_beq_iff x y).0;
  ct_eq_same = λ x. (text_beq_iff x x).1 refl;
  as_bytes_injective = λ x y e. e;
}

abbrev sample_host : Host
sample_host = record {
  to_string_pretty = λ v. codes "null";
  parse_params = λ v. err (codes "none");
  version = codes "0.1.0";
}

abbrev fresh_session : McpSession ℕ
fresh_session = record { tools = []; initialized = false; audited = []; world = 0 }

-- `n` requests may pass, of any address.
abbrev check_key : ℕ → ℕ → Bool × ℕ
check_key ip zero = (false, zero)
check_key ip (suc n) = (true, n)

abbrev sample_request : Request ℕ
sample_request = record { ip = 7; authorization = some (codes "Bearer secret"); body = codes "{{" }

post_mcp-IsGuarded_example :
    let (response, _, after) =
      post_mcp libraries sample_host check_key (codes "secret") sample_request (1, fresh_session) in
    IsGuarded libraries
      (Presents libraries (codes "secret") sample_request.authorization)
      (check_key sample_request.ip 1).0
      (response, after)
      (handle_mcp libraries sample_host sample_request.body fresh_session)
      fresh_session
post_mcp-IsGuarded_example =
    post_mcp-IsGuarded libraries libraries-IsLawful sample_host check_key (codes "secret")
      sample_request 1 fresh_session
