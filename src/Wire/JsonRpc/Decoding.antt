-- ===== src/Wire/JsonRpc/Decoding.antt =====
-- What `decode_message` reads, and what it refuses with which code.
use headless_db_mcp.Wire.JsonRpc.{
  Value, string, object, get_member, JsonRpcError, invalid_request_code, parse_error_code,
  JsonRpcMessage, exceeds_max_nesting, max_json_nesting_depth,
}
use headless_db_mcp.Wire.JsonRpc.Denoting.{Denotes}
use headless_db_mcp.Prelude.{
  true, false, ℕ, text_eq, some, List, ◌≡◌, Text, codes, ◌⊎◌, Result, ok, err,
}

-- A refusal has the code of an invalid request.
abbrev IsInvalid : Result JsonRpcMessage JsonRpcError → Type 0
IsInvalid (ok message) = Unit
IsInvalid (err e) = e.code ≡ invalid_request_code

module _ (from_value : Value → Result JsonRpcError Text) where
  -- A document says a message if it is an object of version 2.0 whose members say it.
  abbrev pub Says : Value → JsonRpcMessage → Type 0
  Says (object obj) message =
      (get_member (codes "jsonrpc") obj ≡ some (string (codes "2.0")))
      × Denotes from_value obj message
  Says _ message = ⊥

  module _ (from_slice : List ℕ → Result Value Text) (bytes : List ℕ) where
    abbrev pub IsShallow : Type 0
    IsShallow = exceeds_max_nesting bytes max_json_nesting_depth ≡ false

    -- A message is what the document says. A refusal is for bytes that nest too deep, for bytes that are
    -- no document, or for a document that says no message, each with its code.
    abbrev pub IsAnswer : Result JsonRpcMessage JsonRpcError → Type 0
    IsAnswer (ok message) = IsShallow × ((v : Value) × (from_slice bytes ≡ ok v) × Says v message)
    IsAnswer (err e) =
        ((exceeds_max_nesting bytes max_json_nesting_depth ≡ true)
          × (e.code ≡ invalid_request_code))
        ⊎ (IsShallow × ((t : Text) × (from_slice bytes ≡ err t)) × (e.code ≡ parse_error_code))
        ⊎ (IsShallow
            × ((v : Value) × (from_slice bytes ≡ ok v)
                × ((message : JsonRpcMessage) → ¬ Says v message))
            × (e.code ≡ invalid_request_code))
