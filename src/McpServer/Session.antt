-- ===== src/McpServer/Session.antt =====
-- crates/mcp-server/src/session.rs and audit.rs: the session's flag, its audit trail, and one
-- handler for each method.
pub mod Dispatch
pub mod Gate
use headless_db_mcp.HashMap.{Map}
use headless_db_mcp.McpServer.Registry.{ToolCallError, unknown, tool_failed, descriptors, call}
use headless_db_mcp.McpServer.Tool.{
  McpTool, McpToolError, invalid_arguments, failed, tool_error_text, ToolDescriptor, success_result,
  error_result, into_value,
}
use headless_db_mcp.Prelude.{
  ℤ, Bool, true, ◌==◌, text_eq, Option, none, some, List, [], ◌∷◌, ◌++◌, Text, codes, lit, Result,
  ok, err, if◌then◌else◌,
}
use headless_db_mcp.Wire.JsonRpc.{
  Value, Values, nil, cons, end, member, string, array, object, JsonRpcError, invalid_request,
  method_not_found, invalid_params, invalid_params_code, internal_error_code, JsonRpcMessage,
  JsonRpcRequest, request, notification, success_response, error_response,
}

pub data AuditOutcome : Type 0 where
  outcome_ok : AuditOutcome
  outcome_error : ℤ → AuditOutcome

abbrev pub from_result {ℓ} : {A : Type ℓ} → Result A JsonRpcError → AuditOutcome
from_result (ok a) = outcome_ok
from_result (err e) = outcome_error e.code

pub record AuditEvent : Type 0 where
  pub method : Text
  pub tool_name : Option Text
  pub outcome : AuditOutcome

pub record ToolCallParams : Type 0 where
  pub name : Text
  pub arguments : Option Value

-- What the session takes from `serde_json` and the build: printing, the derived `Deserialize` of
-- the parameters with the text of its error, and the version.
pub record Host : Type 0 where
  pub to_string_pretty : Value → Text
  pub parse_params : Value → Result ToolCallParams Text
  pub version : Text

-- `audited` holds the recorded events, oldest first.
pub record McpSession (World : Type 0) : Type 0 where
  pub tools : Map Text (McpTool World)
  pub initialized : Bool
  pub audited : List AuditEvent
  pub world : World

pub record Reply : Type 0 where
  pub result : Result Value JsonRpcError
  pub tool_name : Option Text
  pub outcome : AuditOutcome

abbrev pub plain_reply : Result Value JsonRpcError → Reply
plain_reply r = record { result = r; tool_name = none; outcome = from_result r }

descriptor_values : List ToolDescriptor → Values
descriptor_values [] = nil
descriptor_values (d ∷ ds) =
    cons
      (object (
        member (codes "name") (string d.name) (
          member (codes "description") (string d.description)
            (member (codes "inputSchema") d.input_schema end))))
      (descriptor_values ds)

unfoldable pub not_initialized : JsonRpcError
not_initialized = invalid_request (lit "session is not initialized; call \"initialize\" first")

unfoldable pub requires_params : JsonRpcError
requires_params = invalid_params (lit "\"tools/call\" requires params")

abbrev pub tool_error_code : McpToolError → ℤ
tool_error_code (invalid_arguments message) = invalid_params_code
tool_error_code (failed message) = internal_error_code

abbrev pub to_message : JsonRpcRequest → Result Value JsonRpcError → JsonRpcMessage
to_message r (ok value) = success_response (record { id = r.id; result = value })
to_message r (err e) = error_response (record { id = some r.id; error = e })

abbrev pub prepend : Option JsonRpcMessage → List JsonRpcMessage → List JsonRpcMessage
prepend none replies = replies
prepend (some reply) replies = reply ∷ replies

module _ (host : Host) where
  -- What a tool's outcome becomes: a failure of the tool is a result that says so, and only a name
  -- that is not registered is an error of the protocol.
  unfoldable pub tool_reply : Text → Result Value ToolCallError → Reply
  tool_reply name (ok value) = record {
    result = ok (into_value (success_result host.to_string_pretty value));
    tool_name = some name;
    outcome = outcome_ok;
  }
  tool_reply name (err (unknown tool)) =
      let error = method_not_found (lit "no such tool: " ++ tool) in
      record { result = err error; tool_name = some name; outcome = outcome_error error.code }
  tool_reply name (err (tool_failed e)) = record {
    result = ok (into_value (error_result (tool_error_text e)));
    tool_name = some name;
    outcome = outcome_error (tool_error_code e);
  }

  module _ {World : Type 0} where
    unfoldable pub handle_initialize :
        McpSession World → Result Value JsonRpcError × McpSession World
    handle_initialize s = (
      ok (
          object (
            member (codes "protocolVersion") (string (codes "2025-06-18")) (
              member (codes "serverInfo")
                (object (
                  member (codes "name") (string (codes "db-headless-mcp"))
                    (member (codes "version") (string host.version) end)))
                (member (codes "capabilities") (object (member (codes "tools") (object end) end))
                  end)))),
      record s { initialized = true },
    )

    unfoldable pub handle_tools_list : McpSession World → Result Value JsonRpcError
    unfolding descriptor_values
    handle_tools_list s =
        if s.initialized
        then ok
            (object (member (codes "tools") (array (descriptor_values (descriptors s.tools))) end))
        else err not_initialized

    unfoldable pub call_with : McpSession World → ToolCallParams → Reply × McpSession World
    call_with s params =
        let (result, w) = call s.tools params.name params.arguments s.world in
        (tool_reply params.name result, record s { world = w })

    unfoldable pub call_parsed :
        McpSession World → Result ToolCallParams Text → Reply × McpSession World
    call_parsed s (ok params) = call_with s params
    call_parsed s (err e) =
        (plain_reply (err (invalid_params (lit "invalid \"tools/call\" params: " ++ e))), s)

    unfoldable pub call_given : McpSession World → Option Value → Reply × McpSession World
    call_given s none = (plain_reply (err requires_params), s)
    call_given s (some v) = call_parsed s (host.parse_params v)

    unfoldable pub handle_tools_call : McpSession World → Option Value → Reply × McpSession World
    handle_tools_call s params =
        if s.initialized then call_given s params else (plain_reply (err not_initialized), s)

    unfoldable pub dispatch_request : McpSession World → JsonRpcRequest → Reply × McpSession World
    dispatch_request s r =
        if r.method == codes "initialize"
        then (let (result, s') = handle_initialize s in (plain_reply result, s'))
        else if r.method == codes "tools/list"
        then (plain_reply (handle_tools_list s), s)
        else if r.method == codes "tools/call"
        then handle_tools_call s r.params
        else (plain_reply (err (method_not_found (lit "unknown method: " ++ r.method))), s)

    unfoldable pub handle_request :
        McpSession World → JsonRpcRequest → JsonRpcMessage × McpSession World
    handle_request s r =
        let (reply, s') = dispatch_request s r in
        let event : AuditEvent = record {
          method = r.method;
          tool_name = reply.tool_name;
          outcome = reply.outcome;
        } in
        (to_message r reply.result, record s' { audited = s'.audited ++ (event ∷ []) })

    -- A notification and a stray response change nothing.
    unfoldable pub handle :
        McpSession World → JsonRpcMessage → Option JsonRpcMessage × McpSession World
    handle s (request r) = let (message, s') = handle_request s r in (some message, s')
    handle s (notification n) = (none, s)
    handle s (success_response r) = (none, s)
    handle s (error_response r) = (none, s)

    -- Every message that a client sends, in order, with the replies.
    unfoldable pub handle_all :
        McpSession World → List JsonRpcMessage → List JsonRpcMessage × McpSession World
    handle_all s [] = ([], s)
    handle_all s (m ∷ ms) =
        let (reply, s') = handle s m in
        let (replies, s'') = handle_all s' ms in (prepend reply replies, s'')
