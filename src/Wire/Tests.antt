-- ===== src/Wire/Tests.antt =====
-- Events and documents on the wire.
use headless_db_mcp.Prelude.{
  ltb, nat_eq, text_eq, none, some, [], ◌∷◌, ◌++◌, map, ◌≡◌, refl, ◌↔◌, Text, codes, Result, ok,
  err,
}
use headless_db_mcp.Wire.JsonRpc.{
  Value, Members, member, end, string, object, get_member, JsonRpcError, JsonRpcMessage,
  notification, decode_value, exceeds_max_nesting,
}
use headless_db_mcp.Wire.JsonRpc.Denoting.{Denotes, decode_value-Denotes}
use headless_db_mcp.Wire.JsonRpc.Nesting.{
  Tree, other, quoted, braces, brackets, nil, cons, done, plain, escape, render, depth,
  exceeds_max_nesting-depth,
}
use headless_db_mcp.Wire.Sse.{SseEvent, SseDecoder, new, feed, reset}
use headless_db_mcp.Wire.Sse.Stream.{feed-append}
use headless_db_mcp.Wire.Sse.RoundTrip.{on_the_wire, encode_all, feed-encode_all}

abbrev half_read : SseDecoder
half_read = record { buffer = codes "data: o"; pending = reset }

abbrev message : SseEvent
message = record { event = some (codes "message"); payload = codes "a\nb"; id = none }

feed-append_example : feed half_read (codes "ne\nda" ++ codes "ta: two\n\n") ≡ (
    let (events, d') = feed half_read (codes "ne\nda") in
    let (later, d'') = feed d' (codes "ta: two\n\n") in (events ++ later, d''))
feed-append_example =
    feed-append half_read (codes "ne\nda") (codes "ta: two\n\n")
      (refl, (refl, (refl, (refl, (refl, (refl, (refl, tt)))))))

feed-encode_all_example :
    feed new (encode_all (message ∷ message ∷ [])) ≡ (map on_the_wire (message ∷ message ∷ []), new)
feed-encode_all_example = feed-encode_all (message ∷ message ∷ [])

-- `[{"}\"":1},[]]`
abbrev nested : Tree
nested = brackets (
    cons
      (braces (
        cons (quoted (codes "}\\\"") (plain refl refl (escape refl done)))
          (cons (other (codes ":1") ((refl, refl, refl), ((refl, refl, refl), tt))) nil)))
      (cons (other (codes ",") ((refl, refl, refl), tt)) (cons (brackets nil) nil)))

exceeds_max_nesting-depth_example : exceeds_max_nesting (render nested) 1 ≡ ltb 1 (depth nested)
exceeds_max_nesting-depth_example = exceeds_max_nesting-depth 1 nested

-- `{"jsonrpc": "2.0", "method": "ping"}`
abbrev ping : Members
ping =
    member (codes "jsonrpc") (string (codes "2.0"))
      (member (codes "method") (string (codes "ping")) end)

abbrev ping_message : JsonRpcMessage
ping_message = notification (record { method = codes "ping"; params = none })

abbrev unreadable : Value → Result JsonRpcError Text
unreadable v = err (codes "no error object")

decode_value-Denotes_example :
    (decode_value unreadable (object ping) ≡ ok ping_message)
    ↔ (get_member (codes "jsonrpc") ping ≡ some (string (codes "2.0")))
      × Denotes unreadable ping ping_message
decode_value-Denotes_example = decode_value-Denotes unreadable ping ping_message
