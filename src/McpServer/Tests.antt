-- ===== src/McpServer/Tests.antt =====
-- A server with one tool that counts how often it has been called.
use headless_db_mcp.McpServer.Session.{AuditEvent, Host, McpSession, handle_request, handle_all}
use headless_db_mcp.McpServer.Session.Dispatch.{reply_id, MessageAgrees, handle_request_audit}
use headless_db_mcp.McpServer.Session.Gate.{IsRefusal, handle_all-refuses}
use headless_db_mcp.McpServer.Tool.{McpTool}
use headless_db_mcp.Prelude.{
  ℕ, suc, true, false, nat_eq, text_eq, none, some, [], ◌∷◌, ◌++◌, ◌≡◌, refl, All, codes, ok, pos,
}
use headless_db_mcp.Wire.JsonRpc.{null, number_id, JsonRpcRequest, request}

abbrev counter : McpTool ℕ
counter = record {
  name = codes "count";
  description = codes "counts";
  input_schema = null;
  call = λ arguments w. (ok null, suc w);
}

abbrev sample_host : Host
sample_host = record {
  to_string_pretty = λ v. codes "null";
  parse_params = λ v. ok (record { name = codes "count"; arguments = none });
  version = codes "0.1.0";
}

abbrev fresh_session : McpSession ℕ
fresh_session = record {
  tools = (codes "count", counter) ∷ [];
  initialized = false;
  audited = [];
  world = 0;
}

abbrev call_request : JsonRpcRequest
call_request = record { id = number_id (pos 1); method = codes "tools/call"; params = some null }

handle_request_audit_example :
    let (message, after) = handle_request sample_host fresh_session call_request in
    (reply_id message ≡ some call_request.id)
    × ((event : AuditEvent) × (after.audited ≡ [] ++ (event ∷ []))
        × (event.method ≡ codes "tools/call")
        × MessageAgrees event.outcome message)
    × (after.tools ≡ fresh_session.tools)
    × (false ≡ true → after.initialized ≡ true)
handle_request_audit_example = handle_request_audit sample_host fresh_session call_request

handle_all-refuses_example :
    let (replies, after) =
      handle_all sample_host fresh_session (request call_request ∷ request call_request ∷ []) in
    All IsRefusal replies × ((after.world ≡ 0) × (after.initialized ≡ false))
handle_all-refuses_example =
    handle_all-refuses sample_host (request call_request ∷ request call_request ∷ []) fresh_session
      refl (refl, (refl, tt))
