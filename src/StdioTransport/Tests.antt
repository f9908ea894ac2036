-- ===== src/StdioTransport/Tests.antt =====
-- A loop that writes to a list of bytes.
use headless_db_mcp.McpServer.Session.{Host, McpSession, handle_all}
use headless_db_mcp.Prelude.{
  ℕ, false, ◌==◌, nat_eq, text_eq, List, [], ◌∷◌, ◌++◌, ◌≡◌, refl, inl, inr, All, Text, codes,
  Result, ok, err, if◌then◌else◌,
}
use headless_db_mcp.Strings.{is_whitespace, trim_start}
use headless_db_mcp.StdioTransport.{Codec, AsyncWrite, is_blank, decode_line, run}
use headless_db_mcp.StdioTransport.Serving.{
  Accepts, messages, lines_of, IsWellFormed, run-survives, run-writes,
}
use headless_db_mcp.Wire.JsonRpc.{
  Value, string, number, object, member, end, pos_int, exceeds_max_nesting, decode_message,
  decode_value, decode_method, check_version, decode_request_or_notification, decode_with_id,
  parse_id, get_member, exceeds_from,
}

abbrev buffer : AsyncWrite (List ℕ)
buffer = record { write_all = λ bytes w. (ok tt, w ++ bytes); flush = λ w. (ok tt, w) }

abbrev written : List ℕ → List ℕ
written w = w

buffer-Accepts : Accepts buffer written
buffer-Accepts = record {
  write_all_ok = λ bytes w. refl;
  write_all_adds = λ bytes w. refl;
  flush_ok = λ w. refl;
  flush_keeps = λ w. refl;
}

abbrev initialize_value : Value
initialize_value = object (
    member (codes "jsonrpc") (string (codes "2.0")) (
      member (codes "id") (number (pos_int 1))
        (member (codes "method") (string (codes "initialize")) end)))

abbrev sample_codec : Codec
sample_codec = record {
  from_value = λ v. err (codes "none");
  from_slice = λ bytes. if bytes == codes "init" then ok initialize_value else err (codes "junk");
  to_vec = λ message. ok (codes "{}");
  as_bytes = λ line. line;
}

abbrev sample_host : Host
sample_host = record {
  to_string_pretty = λ v. codes "null";
  parse_params = λ v. err (codes "none");
  version = codes "0.1.0";
}

abbrev fresh_session : McpSession ℕ
fresh_session = record { tools = []; initialized = false; audited = []; world = 0 }

abbrev input : List (Result Text Text)
input = err (codes "not UTF-8") ∷ ok (codes " ") ∷ ok (codes "{{") ∷ ok (codes "init") ∷ []

abbrev clean_input : List (Result Text Text)
clean_input = err (codes "not UTF-8") ∷ ok (codes " ") ∷ ok (codes "init") ∷ []

clean_input-IsWellFormed : All (IsWellFormed sample_codec) clean_input
unfolding is_blank trim_start is_whitespace decode_line decode_message exceeds_max_nesting
    decode_value decode_method check_version decode_request_or_notification decode_with_id parse_id
    get_member exceeds_from
clean_input-IsWellFormed = (tt, (inl refl, (inr (_, refl), tt)))

run-survives_example :
    let (outcome, after, _) = run sample_host sample_codec buffer fresh_session input [] in
    (outcome ≡ ok tt)
    × (after ≡ (handle_all sample_host fresh_session (messages sample_codec input)).1)
run-survives_example =
    run-survives sample_codec buffer written sample_host buffer-Accepts fresh_session input []

run-writes_example :
    written (run sample_host sample_codec buffer fresh_session clean_input []).2
    ≡ written []
      ++ lines_of sample_codec
          (handle_all sample_host fresh_session (messages sample_codec clean_input)).0
run-writes_example =
    run-writes sample_codec buffer written sample_host buffer-Accepts fresh_session clean_input []
      clean_input-IsWellFormed
