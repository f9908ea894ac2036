-- ===== src/McpServer/Session/Gate.antt =====
-- Conversations before `initialize` in crates/mcp-server/src/session.rs.
use headless_db_mcp.McpServer.Session.{
  Host, McpSession, Reply, plain_reply, not_initialized, handle_tools_list, handle_tools_call,
  dispatch_request, to_message, handle_request, handle, handle_all,
}
use headless_db_mcp.Prelude.{
  Bool, true, false, ◌==◌, text_eq, Option, List, [], ◌∷◌, ◌≡◌, refl, ◌∙◌, All, codes, Result, ok,
  err, if◌then◌else◌,
}
use headless_db_mcp.Wire.JsonRpc.{
  Value, JsonRpcError, JsonRpcMessage, JsonRpcRequest, request, notification, success_response,
  error_response,
}

abbrev pub IsRefusal : JsonRpcMessage → Type 0
IsRefusal (error_response e) = Unit
IsRefusal _ = ⊥

abbrev pub IsNotInitialize : JsonRpcMessage → Type 0
IsNotInitialize (request r) = (r.method == codes "initialize") ≡ false
IsNotInitialize _ = Unit

to_message-IsRefusal :
    (r : JsonRpcRequest) (result : Result Value JsonRpcError) (e : JsonRpcError)
    → result ≡ err e
    → IsRefusal (to_message r result)
to_message-IsRefusal r (err e) _ h = tt
to_message-IsRefusal r (ok v) _ h = cc

if_false : {A : Type 0} (x : A) {y : A} (b : Bool) → b ≡ false → (if b then x else y) ≡ y
if_false x true e = cc
if_false x false e = refl

module _ (host : Host) {World : Type 0} where
  -- A session that is as `s` was but for its audit trail.
  abbrev Untouched : McpSession World → McpSession World → Type 0
  Untouched s after = (after.world ≡ s.world) × (after.initialized ≡ false)

  record Refused (s : McpSession World) (r : Reply × McpSession World) : Type 0 where
    error : JsonRpcError
    refused : r.0.result ≡ err error
    untouched : Untouched s r.1

  Refused-if :
      {s : McpSession World} (x : Reply × McpSession World) {y : Reply × McpSession World}
      (b : Bool)
      → b ≡ false
      → Refused s y
      → Refused s (if b then x else y)
  Refused-if x true e h = cc
  Refused-if x false e h = h

  Refused-by :
      (s : McpSession World) (e : JsonRpcError)
      → s.initialized ≡ false
      → Refused s (plain_reply (err e), s)
  Refused-by s e i = record { error = e; refused = refl; untouched = (refl, i) }

  handle_tools_list-refuses :
      (s : McpSession World)
      → s.initialized ≡ false
      → handle_tools_list host s ≡ err not_initialized
  unfolding handle_tools_list
  handle_tools_list-refuses s i = if_false _ s.initialized i

  handle_tools_call-Refused :
      (s : McpSession World) (params : Option Value)
      → s.initialized ≡ false
      → Refused s (handle_tools_call host s params)
  unfolding handle_tools_call
  handle_tools_call-Refused s params i =
      Refused-if _ s.initialized i (Refused-by s not_initialized i)

  if-Refused :
      (s : McpSession World) (b : Bool) (x y : Reply × McpSession World)
      → Refused s x
      → Refused s y
      → Refused s (if b then x else y)
  if-Refused s true x y h k = h
  if-Refused s false x y h k = k

  dispatch_request-Refused :
      (s : McpSession World) (r : JsonRpcRequest)
      → s.initialized ≡ false
      → (r.method == codes "initialize") ≡ false
      → Refused s (dispatch_request host s r)
  unfolding dispatch_request
  dispatch_request-Refused s r i m = Refused-if _ (r.method == codes "initialize") m (
      if-Refused s (r.method == codes "tools/list") _ _
        (record {
          error = not_initialized;
          refused = handle_tools_list-refuses s i;
          untouched = (refl, i);
        })
        (if-Refused s (r.method == codes "tools/call") _ _ (handle_tools_call-Refused s r.params i)
          (Refused-by s _ i)))

  handle_request-IsRefusal :
      (s : McpSession World) (r : JsonRpcRequest)
      → s.initialized ≡ false
      → (r.method == codes "initialize") ≡ false
      → IsRefusal (handle_request host s r).0 × Untouched s (handle_request host s r).1
  unfolding handle_request
  handle_request-IsRefusal s r i m =
      let d = dispatch_request-Refused s r i m in
      (to_message-IsRefusal r _ d.error d.refused, d.untouched)

  -- In a conversation on a session that is not initialized and with no request for `initialize`,
  -- each reply is an error, the session stays as uninitialized, and the world that the tools act on
  -- is the one it started with.
  pub handle_all-refuses :
      (ms : List JsonRpcMessage) (s : McpSession World)
      → s.initialized ≡ false
      → All IsNotInitialize ms
      → let (replies, after) = handle_all host s ms in All IsRefusal replies × Untouched s after
  unfolding handle_all handle
  handle_all-refuses [] s i h = (tt, (refl, i))
  handle_all-refuses (request r ∷ ms) s i (m, h) =
      let (refusal, (w, i')) = handle_request-IsRefusal s r i m in
      let (refusals, (w', i'')) = handle_all-refuses ms (handle_request host s r).1 i' h in
      ((refusal, refusals), (w' ∙ w, i''))
  handle_all-refuses (notification n ∷ ms) s i (m, h) = handle_all-refuses ms s i h
  handle_all-refuses (success_response r ∷ ms) s i (m, h) = handle_all-refuses ms s i h
  handle_all-refuses (error_response e ∷ ms) s i (m, h) = handle_all-refuses ms s i h
