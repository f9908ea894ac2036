-- ===== src/Wire/JsonRpc/Denoting.antt =====
-- Objects, and the messages that they say.
use headless_db_mcp.Wire.JsonRpc.{
  Value, Members, null, string, object, number, bool, array, get_member, JsonRpcError,
  JsonRpcMessage, request, notification, success_response, error_response, parse_id, check_version,
  decode_with_id, decode_request_or_notification, decode_success, parse_error_id, decode_error,
  decode_fields, decode_response, decode_method, decode_value,
}
use headless_db_mcp.Prelude.{ok-injective, err-ne-ok}
use headless_db_mcp.Prelude.{
  ◌==◌, nat_eq, text_eq, text_beq_iff, Option, none, some, ◌≡◌, refl, ap, ◌↔◌, inl, inr, Text,
  codes, Result, ok, Bool-cases, Option-cases, Result-cases, >>=-eq-ok,
}

-- What a message says of the object that it was read from.
abbrev pub Denotes : (Value → Result JsonRpcError Text) → Members → JsonRpcMessage → Type 0
Denotes from_value obj (request r) =
    (get_member (codes "method") obj ≡ some (string r.method))
    × ((v : Value) × (get_member (codes "id") obj ≡ some v) × (parse_id v ≡ some r.id))
    × (get_member (codes "params") obj ≡ r.params)
Denotes from_value obj (notification n) =
    (get_member (codes "method") obj ≡ some (string n.method))
    × (get_member (codes "id") obj ≡ none)
    × (get_member (codes "params") obj ≡ n.params)
Denotes from_value obj (success_response s) =
    (get_member (codes "method") obj ≡ none)
    × (get_member (codes "result") obj ≡ some s.result)
    × (get_member (codes "error") obj ≡ none)
    × ((v : Value) × (get_member (codes "id") obj ≡ some v) × (parse_id v ≡ some s.id))
Denotes from_value obj (error_response e) =
    (get_member (codes "method") obj ≡ none)
    × (get_member (codes "result") obj ≡ none)
    × ((v : Value) × (get_member (codes "error") obj ≡ some v) × (from_value v ≡ ok e.error))
    × ((v : Value) × (get_member (codes "id") obj ≡ some v) × (parse_error_id v ≡ ok e.id))

module _ (from_value : Value → Result JsonRpcError Text) (obj : Members)
    (message : JsonRpcMessage) where
  with_id-Denotes :
      (method : Text)
      → get_member (codes "method") obj ≡ some (string method)
      → decode_with_id method (get_member (codes "params") obj) (get_member (codes "id") obj)
        ≡ ok message
      → Denotes from_value obj message
  unfolding decode_with_id
  with_id-Denotes method m h = elim (Option-cases (get_member (codes "id") obj)) [
    | inl e ↦ rw (← ok-injective (rw e at h)) (m, e, refl)
    | inr (v, e) ↦ elim (Option-cases (parse_id v)) [
      | inl f ↦ absurd (err-ne-ok (rw (e, f) at h))
      | inr (i, f) ↦ rw (← ok-injective (rw (e, f) at h)) (m, (v, e, f), refl)
    ]
  ]

  request-Denotes :
      (v : Value)
      → get_member (codes "method") obj ≡ some v
      → decode_request_or_notification obj v ≡ ok message
      → Denotes from_value obj message
  unfolding decode_request_or_notification
  request-Denotes (string method) m h = with_id-Denotes method m h
  request-Denotes null m h = absurd (err-ne-ok h)
  request-Denotes (bool b) m h = absurd (err-ne-ok h)
  request-Denotes (number n) m h = absurd (err-ne-ok h)
  request-Denotes (array vs) m h = absurd (err-ne-ok h)
  request-Denotes (object o) m h = absurd (err-ne-ok h)

  success-Denotes :
      (result : Value)
      → get_member (codes "method") obj ≡ none
      → get_member (codes "result") obj ≡ some result
      → get_member (codes "error") obj ≡ none
      → decode_success obj result ≡ ok message
      → Denotes from_value obj message
  unfolding decode_success
  success-Denotes result m r x h = elim (Option-cases (get_member (codes "id") obj)) [
    | inl e ↦ absurd (err-ne-ok (rw e at h))
    | inr (v, e) ↦ elim (Option-cases (parse_id v)) [
      | inl f ↦ absurd (err-ne-ok (rw (e, f) at h))
      | inr (i, f) ↦ rw (← ok-injective (rw (e, f) at h)) (m, r, x, (v, e, f))
    ]
  ]

  error-Denotes :
      (error_value : Value)
      → get_member (codes "method") obj ≡ none
      → get_member (codes "result") obj ≡ none
      → get_member (codes "error") obj ≡ some error_value
      → decode_error from_value obj error_value ≡ ok message
      → Denotes from_value obj message
  unfolding decode_error
  error-Denotes error_value m r x h = elim (Option-cases (get_member (codes "id") obj)) [
    | inl e ↦ absurd (err-ne-ok (rw e at h))
    | inr (v, e) ↦ elim (Result-cases (parse_error_id v)) [
      | inr (y, f) ↦ absurd (err-ne-ok (rw (e, f) at h))
      | inl (i, f) ↦ elim (Result-cases (from_value error_value)) [
        | inr (y, g) ↦ absurd (err-ne-ok (rw (e, f, g) at h))
        | inl (error, g) ↦
            rw (← ok-injective (rw (e, f, g) at h)) (m, r, (error_value, x, g), (v, e, f))
      ]
    ]
  ]

  fields-Denotes :
      (r x : Option Value)
      → get_member (codes "method") obj ≡ none
      → get_member (codes "result") obj ≡ r
      → get_member (codes "error") obj ≡ x
      → decode_fields from_value obj r x ≡ ok message
      → Denotes from_value obj message
  unfolding decode_fields
  fields-Denotes (some result) (some error) m r x h = absurd (err-ne-ok h)
  fields-Denotes (some result) none m r x h = success-Denotes result m r x h
  fields-Denotes none (some error) m r x h = error-Denotes error m r x h
  fields-Denotes none none m r x h = absurd (err-ne-ok h)

  method-Denotes :
      (o : Option Value)
      → get_member (codes "method") obj ≡ o
      → decode_method from_value obj o ≡ ok message
      → Denotes from_value obj message
  unfolding decode_method decode_response
  method-Denotes (some v) m h = request-Denotes v m h
  method-Denotes none m h = fields-Denotes _ _ m refl refl h

  check_version-ok : (o : Option Value) → check_version o ≡ ok tt → o ≡ some (string (codes "2.0"))
  unfolding check_version
  check_version-ok none h = absurd (err-ne-ok h)
  check_version-ok (some (string v)) h = elim (Bool-cases (v == codes "2.0")) [
    | inl e ↦ ap (λ t. some (string t)) ((text_beq_iff v (codes "2.0")).0 e)
    | inr e ↦ absurd (err-ne-ok (rw e at h))
  ]
  check_version-ok (some null) h = absurd (err-ne-ok h)
  check_version-ok (some (bool b)) h = absurd (err-ne-ok h)
  check_version-ok (some (number n)) h = absurd (err-ne-ok h)
  check_version-ok (some (array vs)) h = absurd (err-ne-ok h)
  check_version-ok (some (object o)) h = absurd (err-ne-ok h)

  decoded :
      decode_value from_value (object obj) ≡ ok message
      → (get_member (codes "jsonrpc") obj ≡ some (string (codes "2.0")))
        × Denotes from_value obj message
  unfolding decode_value
  decoded h =
      let (u, v, m) = >>=-eq-ok (check_version (get_member (codes "jsonrpc") obj)) _ h in
      (check_version-ok _ v, method-Denotes _ refl m)

denoted :
    (from_value : Value → Result JsonRpcError Text) (obj : Members) (message : JsonRpcMessage)
    → Denotes from_value obj message
    → get_member (codes "jsonrpc") obj ≡ some (string (codes "2.0"))
    → decode_value from_value (object obj) ≡ ok message
unfolding decode_value check_version decode_method decode_request_or_notification decode_with_id
    decode_response decode_fields decode_success decode_error
denoted from_value obj (request r) (m, (v, e, f), p) j = rw (j, m, e, f, p) refl
denoted from_value obj (notification n) (m, e, p) j = rw (j, m, e, p) refl
denoted from_value obj (success_response s) (m, r, x, (v, e, f)) j = rw (j, m, r, x, e, f) refl
denoted from_value obj (error_response s) (m, r, (w, x, g), (v, e, f)) j =
    rw (j, m, r, x, e, f, g) refl

-- For any reader of error members, an object decodes to a message exactly if its `jsonrpc` member is
-- the string 2.0 and its members say what the message does: a request has a method and a readable
-- id, a notification a method and no id, and a response no method, a readable id, and either a
-- result or a readable error but not both.
pub decode_value-Denotes :
    (from_value : Value → Result JsonRpcError Text) (obj : Members) (message : JsonRpcMessage)
    → (decode_value from_value (object obj) ≡ ok message)
      ↔ (get_member (codes "jsonrpc") obj ≡ some (string (codes "2.0")))
        × Denotes from_value obj message
decode_value-Denotes from_value obj message =
    (decoded from_value obj message, λ h. denoted from_value obj message h.1 h.0)
