-- ===== src/Wire/JsonRpc.antt =====
-- crates/mcp-wire/src/jsonrpc.rs. A JSON document is as `serde_json` gives it; its parser and the
-- derived `Deserialize` of an error object are parameters.
pub mod Nesting
pub mod Decoding
pub mod Denoting
use headless_db_mcp.Prelude.{
  ℕ, zero, suc, ◌+◌, ◌-◌, ◌^◌, ℤ, pos, negsuc, minus, Bool, true, false, ltb, ◌||◌, ◌==◌, nat_eq,
  text_eq, Option, none, some, List, [], ◌∷◌, ◌++◌, Text, codes, lit, Result, ok, err, ◌>>=◌, ◌>>◌,
  ok_or, map_err, if◌then◌else◌,
}
use headless_db_mcp.Strings.{decimal}

-- The `Number` of `serde_json`: `neg_int n` is -(n + 1), and a float is its bits.
pub data Number : Type 0 where
  pos_int neg_int float : ℕ → Number

mutual
  pub data Value : Type 0 where
    null : Value
    bool : Bool → Value
    number : Number → Value
    string : Text → Value
    array : Values → Value
    object : Members → Value

  pub data Values : Type 0 where
    nil : Values
    cons : Value → Values → Values

  pub data Members : Type 0 where
    end : Members
    member : Text → Value → Members → Members

-- `obj.get(key)`
unfoldable pub get_member : Text → Members → Option Value
get_member key end = none
get_member key (member k v ms) = if k == key then some v else get_member key ms

abbrev pub i64_max : ℕ
i64_max = 2 ^ 63 - 1

-- `n.as_i64()`
abbrev pub as_i64 : Number → Option ℤ
as_i64 (pos_int n) = if ltb i64_max n then none else some (pos n)
as_i64 (neg_int n) = some (negsuc n)
as_i64 (float bits) = none

pub data JsonRpcId : Type 0 where
  number_id : ℤ → JsonRpcId
  string_id : Text → JsonRpcId

pub record JsonRpcError : Type 0 where
  pub code : ℤ
  pub message : Text
  pub error_data : Option Value

abbrev pub parse_error_code : ℤ
parse_error_code = minus 32700

abbrev pub invalid_request_code : ℤ
invalid_request_code = minus 32600

abbrev pub method_not_found_code : ℤ
method_not_found_code = minus 32601

abbrev pub invalid_params_code : ℤ
invalid_params_code = minus 32602

abbrev pub internal_error_code : ℤ
internal_error_code = minus 32603

abbrev pub json_rpc_error : ℤ → Text → JsonRpcError
json_rpc_error code message = record { code = code; message = message; error_data = none }

abbrev pub parse_error : Text → JsonRpcError
parse_error = json_rpc_error parse_error_code

abbrev pub invalid_request : Text → JsonRpcError
invalid_request = json_rpc_error invalid_request_code

abbrev pub method_not_found : Text → JsonRpcError
method_not_found = json_rpc_error method_not_found_code

abbrev pub invalid_params : Text → JsonRpcError
invalid_params = json_rpc_error invalid_params_code

abbrev pub internal_error : Text → JsonRpcError
internal_error = json_rpc_error internal_error_code

-- The field `jsonrpc`, which is always "2.0", is not stored.
pub record JsonRpcRequest : Type 0 where
  pub id : JsonRpcId
  pub method : Text
  pub params : Option Value

pub record JsonRpcNotification : Type 0 where
  pub method : Text
  pub params : Option Value

pub record JsonRpcSuccessResponse : Type 0 where
  pub id : JsonRpcId
  pub result : Value

pub record JsonRpcErrorResponse : Type 0 where
  pub id : Option JsonRpcId
  pub error : JsonRpcError

pub data JsonRpcMessage : Type 0 where
  request : JsonRpcRequest → JsonRpcMessage
  notification : JsonRpcNotification → JsonRpcMessage
  success_response : JsonRpcSuccessResponse → JsonRpcMessage
  error_response : JsonRpcErrorResponse → JsonRpcMessage

-- The loop of `exceeds_max_nesting`, from its three variables.
unfoldable pub exceeds_from : ℕ → ℕ → Bool → Bool → List ℕ → Bool
exceeds_from max_depth depth in_string escaped [] = false
exceeds_from max_depth depth true true (byte ∷ bytes) =
    exceeds_from max_depth depth true false bytes
exceeds_from max_depth depth true false (byte ∷ bytes) =
    exceeds_from max_depth depth
      (if byte == b'\\' then true else if byte == b'"' then false else true) (byte == b'\\') bytes
exceeds_from max_depth depth false escaped (byte ∷ bytes) =
    let quote = exceeds_from max_depth depth true escaped bytes in
    let opens = exceeds_from max_depth (depth + 1) false escaped bytes in
    let closes = exceeds_from max_depth (depth - 1) false escaped bytes in
    let other = exceeds_from max_depth depth false escaped bytes in
    if byte == b'"'
    then quote
    else if byte == b'{' || byte == b'['
    then (if ltb max_depth (depth + 1) then true else opens)
    else if byte == b'}' || byte == b']'
    then closes
    else other

unfoldable pub exceeds_max_nesting : List ℕ → ℕ → Bool
exceeds_max_nesting bytes max_depth = exceeds_from max_depth 0 false false bytes

abbrev pub max_json_nesting_depth : ℕ
max_json_nesting_depth = 128

unfoldable pub parse_id : Value → Option JsonRpcId
parse_id (number n) = elim (as_i64 n) [ none ↦ none | some i ↦ some (number_id i) ]
parse_id (string s) = some (string_id s)
parse_id _ = none

abbrev pub refuse {ℓ} : {A : Type ℓ} → Text → Result A JsonRpcError
refuse message = err (invalid_request message)

unfoldable pub check_version : Option Value → Result (Unit {0}) JsonRpcError
check_version (some (string v)) =
    if v == codes "2.0" then ok tt else refuse (lit "\"jsonrpc\" must be the string \"2.0\"")
check_version (some _) = refuse (lit "\"jsonrpc\" must be the string \"2.0\"")
check_version none = refuse (lit "missing \"jsonrpc\" field")

unfoldable pub decode_with_id :
    Text → Option Value → Option Value → Result JsonRpcMessage JsonRpcError
decode_with_id method params none = ok (notification (record { method = method; params = params }))
decode_with_id method params (some id_value) = do
  id ← ok_or (parse_id id_value) (invalid_request (lit "\"id\" must be a number or string"))
  ok (request (record { id = id; method = method; params = params }))

unfoldable pub decode_request_or_notification : Members → Value → Result JsonRpcMessage JsonRpcError
decode_request_or_notification obj (string method) =
    decode_with_id method (get_member (codes "params") obj) (get_member (codes "id") obj)
decode_request_or_notification obj _ = refuse (lit "\"method\" must be a string")

abbrev pub missing_id : JsonRpcError
missing_id = invalid_request (lit "missing \"id\" field")

unfoldable pub decode_success : Members → Value → Result JsonRpcMessage JsonRpcError
decode_success obj result = do
  id_value ← ok_or (get_member (codes "id") obj) missing_id
  id ← ok_or (parse_id id_value) (invalid_request (lit "\"id\" must be a number or string"))
  ok (success_response (record { id = id; result = result }))

unfoldable pub parse_error_id : Value → Result (Option JsonRpcId) JsonRpcError
parse_error_id null = ok none
parse_error_id other = do
  id ← ok_or (parse_id other) (invalid_request (lit "\"id\" must be a number, string, or null"))
  ok (some id)

-- `serde_json::from_value` at `JsonRpcError`, with the text of its error.
module _ (from_value : Value → Result JsonRpcError Text) where
  unfoldable pub decode_error : Members → Value → Result JsonRpcMessage JsonRpcError
  decode_error obj error_value = do
    id_value ← ok_or (get_member (codes "id") obj) missing_id
    id ← parse_error_id id_value
    error ←
        map_err (λ e. invalid_request (lit "invalid \"error\" object: " ++ e))
          (from_value error_value)
    ok (error_response (record { id = id; error = error }))

  unfoldable pub decode_fields :
      Members → Option Value → Option Value → Result JsonRpcMessage JsonRpcError
  decode_fields obj (some result) (some error) =
      refuse (lit "a response must not contain both \"result\" and \"error\"")
  decode_fields obj (some result) none = decode_success obj result
  decode_fields obj none (some error) = decode_error obj error
  decode_fields obj none none =
      refuse (lit "a JSON-RPC message must contain \"method\", \"result\", or \"error\"")

  unfoldable pub decode_response : Members → Result JsonRpcMessage JsonRpcError
  decode_response obj =
      decode_fields obj (get_member (codes "result") obj) (get_member (codes "error") obj)

  unfoldable pub decode_method : Members → Option Value → Result JsonRpcMessage JsonRpcError
  decode_method obj (some method_value) = decode_request_or_notification obj method_value
  decode_method obj none = decode_response obj

  unfoldable pub decode_value : Value → Result JsonRpcMessage JsonRpcError
  decode_value (object obj) = do
    check_version (get_member (codes "jsonrpc") obj)
    decode_method obj (get_member (codes "method") obj)
  decode_value _ = refuse (lit "a JSON-RPC message must be a JSON object")

  -- `from_slice` is `serde_json::from_slice`.
  unfoldable pub decode_message :
      (List ℕ → Result Value Text) → List ℕ → Result JsonRpcMessage JsonRpcError
  decode_message from_slice bytes =
      if exceeds_max_nesting bytes max_json_nesting_depth
      then refuse (lit "JSON nesting depth exceeds the limit of " ++ decimal max_json_nesting_depth)
      else (do value ← map_err parse_error (from_slice bytes); decode_value value)
