-- ===== src/McpServer/Session/Dispatch.antt =====
-- One request after another through crates/mcp-server/src/session.rs: replies and audit events.
use headless_db_mcp.McpServer.Registry.{ToolCallError, unknown, tool_failed}
use headless_db_mcp.McpServer.Session.{
  AuditOutcome, outcome_ok, outcome_error, AuditEvent, Host, McpSession, Reply, plain_reply,
  from_result, not_initialized, requires_params, tool_reply, handle_initialize, handle_tools_list,
  call_with, call_parsed, call_given, handle_tools_call, dispatch_request, to_message,
  handle_request, handle, handle_all,
}
use headless_db_mcp.McpServer.Tool.{success_result, error_result, into_value}
use headless_db_mcp.Prelude.{
  ℕ, suc, ◌+◌, Bool, true, false, ◌==◌, text_eq, Option, none, some, List, [], ◌∷◌, ◌++◌, ◌≡◌, refl,
  ap, arith, Text, codes, length, length-append, Result, ok, err, if◌then◌else◌, Result-cases, inl,
  inr,
}
use headless_db_mcp.Wire.JsonRpc.{
  Value, bool, object, get_member, JsonRpcId, JsonRpcError, JsonRpcMessage, JsonRpcRequest, request,
  notification, success_response, error_response,
}

-- `isError` of a tool's result.
abbrev pub is_true : Option Value → Bool
is_true (some (bool b)) = b
is_true _ = false

abbrev pub says_error : Value → Bool
says_error (object obj) = is_true (get_member (codes "isError") obj)
says_error _ = false

-- The audit trail and the reply tell the same: success without `isError`, a protocol error of that
-- code, or a result that says that the tool failed.
abbrev pub Agrees : AuditOutcome → Result Value JsonRpcError → Type 0
Agrees outcome_ok (ok v) = says_error v ≡ false
Agrees outcome_ok (err e) = ⊥
Agrees (outcome_error code) (ok v) = says_error v ≡ true
Agrees (outcome_error code) (err e) = e.code ≡ code

tool_reply-Agrees :
    (host : Host) (name : Text) (r : Result Value ToolCallError)
    → Agrees (tool_reply host name r).outcome (tool_reply host name r).result
unfolding tool_reply into_value success_result error_result get_member
tool_reply-Agrees host name (ok v) = refl
tool_reply-Agrees host name (err (unknown t)) = refl
tool_reply-Agrees host name (err (tool_failed e)) = refl

if-Agrees :
    (b : Bool) (x y : Result Value JsonRpcError)
    → Agrees (from_result x) x
    → Agrees (from_result y) y
    → Agrees (from_result (if b then x else y)) (if b then x else y)
if-Agrees true x y h k = h
if-Agrees false x y h k = k

-- The id that a reply answers, and what it answers.
abbrev pub reply_id : JsonRpcMessage → Option JsonRpcId
reply_id (success_response r) = some r.id
reply_id (error_response e) = e.id
reply_id _ = none

abbrev pub MessageAgrees : AuditOutcome → JsonRpcMessage → Type 0
MessageAgrees outcome (success_response r) = Agrees outcome (ok r.result)
MessageAgrees outcome (error_response e) = Agrees outcome (err e.error)
MessageAgrees _ _ = ⊥

to_message_lem :
    (r : JsonRpcRequest) (o : AuditOutcome) (x : Result Value JsonRpcError)
    → Agrees o x
    → (reply_id (to_message r x) ≡ some r.id) × MessageAgrees o (to_message r x)
to_message_lem r o (ok v) h = (refl, h)
to_message_lem r o (err e) h = (refl, h)

abbrev pub requests : List JsonRpcMessage → ℕ
requests [] = 0
requests (request r ∷ ms) = suc (requests ms)
requests (_ ∷ ms) = requests ms

-- What a dispatched request may do to the session: nothing but run a tool and set the flag.
record Dispatched {World : Type 0} (s : McpSession World) (r : Reply × McpSession World)
    : Type 0 where
  agrees : Agrees r.0.outcome r.0.result
  audited : r.1.audited ≡ s.audited
  tools : r.1.tools ≡ s.tools
  keeps_flag : s.initialized ≡ true → r.1.initialized ≡ true

module _ {World : Type 0} (s : McpSession World) where
  if-Dispatched :
      (b : Bool) (x y : Reply × McpSession World)
      → Dispatched s x
      → Dispatched s y
      → Dispatched s (if b then x else y)
  if-Dispatched true x y h k = h
  if-Dispatched false x y h k = k

  refused-Dispatched : (e : JsonRpcError) → Dispatched s (plain_reply (err e), s)
  refused-Dispatched e = record { agrees = refl; audited = refl; tools = refl; keeps_flag = λ h. h }

module _ (host : Host) {World : Type 0} where
  call_given-Dispatched :
      (s : McpSession World) (params : Option Value) → Dispatched s (call_given host s params)
  unfolding call_given call_parsed call_with
  call_given-Dispatched s none = refused-Dispatched s requires_params
  call_given-Dispatched s (some v) = elim (Result-cases (host.parse_params v)) [
    | inl (params, e) ↦ rw e (record {
      agrees = tool_reply-Agrees host params.name _;
      audited = refl;
      tools = refl;
      keeps_flag = λ h. h;
    })
    | inr (x, e) ↦ rw e (refused-Dispatched s _)
  ]

  dispatch_request-Dispatched :
      (s : McpSession World) (r : JsonRpcRequest) → Dispatched s (dispatch_request host s r)
  unfolding dispatch_request handle_tools_call handle_initialize handle_tools_list get_member
  dispatch_request-Dispatched s r =
      if-Dispatched s (r.method == codes "initialize") _ _
        (record { agrees = refl; audited = refl; tools = refl; keeps_flag = λ h. refl })
        (if-Dispatched s (r.method == codes "tools/list") _ _
          (record {
            agrees = if-Agrees s.initialized _ _ refl refl;
            audited = refl;
            tools = refl;
            keeps_flag = λ h. h;
          })
          (if-Dispatched s (r.method == codes "tools/call") _ _
            (if-Dispatched s s.initialized _ _ (call_given-Dispatched s r.params)
              (refused-Dispatched s not_initialized))
            (refused-Dispatched s _)))

  -- A request is answered under its id, and one event with its method and the answer's outcome is
  -- added to the audit trail; the tools stay, and so does the flag once it is set.
  pub handle_request_audit :
      (s : McpSession World) (r : JsonRpcRequest)
      → let (message, after) = handle_request host s r in
        (reply_id message ≡ some r.id)
        × ((event : AuditEvent) × (after.audited ≡ s.audited ++ (event ∷ []))
            × (event.method ≡ r.method)
            × MessageAgrees event.outcome message)
        × (after.tools ≡ s.tools)
        × (s.initialized ≡ true → after.initialized ≡ true)
  unfolding handle_request
  handle_request_audit s r =
      let d = dispatch_request-Dispatched s r in
      let reply : Reply = (dispatch_request host s r).0 in
      let (id, agrees) = to_message_lem r reply.outcome reply.result d.agrees in
      (
        id,
        (
          record { method = r.method; tool_name = reply.tool_name; outcome = reply.outcome },
          ap
              (λ (x : List AuditEvent).
                x
                ++ (record {
                  method = r.method;
                  tool_name = reply.tool_name;
                  outcome = reply.outcome;
                }
                    ∷ []))
              d.audited,
          refl,
          agrees,
        ),
        d.tools,
        d.keeps_flag,
      )

  -- Over a whole conversation there are as many replies and as many new audit events as requests.
  pub handle_all_counts :
      (ms : List JsonRpcMessage) (s : McpSession World)
      → let (replies, after) = handle_all host s ms in
        (length replies ≡ requests ms) × (length after.audited ≡ length s.audited + requests ms)
  unfolding handle_all handle
  handle_all_counts [] s = omega arith
  handle_all_counts (request r ∷ ms) s =
      let (n, a) = handle_all_counts ms (handle_request host s r).1 in
      let (id, (event, grows, method, agrees), tools, flag) = handle_request_audit s r in
      (omega arith, omega (arith, ap length grows, length-append s.audited (event ∷ [])))
  handle_all_counts (notification n ∷ ms) s = handle_all_counts ms s
  handle_all_counts (success_response r ∷ ms) s = handle_all_counts ms s
  handle_all_counts (error_response e ∷ ms) s = handle_all_counts ms s
