-- ===== src/StdioTransport.antt =====
-- crates/transport-stdio/src/lib.rs: one message per line, until the input ends. The input is the
-- list of what `next_line` answers before its end: a line, or an error of the reader.
pub mod Serving
mod Tests
use headless_db_mcp.McpServer.Session.{Host, McpSession, handle}
use headless_db_mcp.Prelude.{
  ℕ, zero, suc, Bool, ◌==◌, nat_eq, text_eq, Option, none, some, List, [], ◌∷◌, ◌++◌, arith, Text,
  Result, ok, err, if◌then◌else◌,
}
use headless_db_mcp.Strings.{trim_start}
use headless_db_mcp.Wire.JsonRpc.{
  Value, JsonRpcError, JsonRpcMessage, error_response, decode_message,
}

-- What the transport takes from `serde_json` and from `str`.
pub record Codec : Type 0 where
  pub from_value : Value → Result JsonRpcError Text
  pub from_slice : List ℕ → Result Value Text
  pub to_vec : JsonRpcMessage → Result (List ℕ) Text
  pub as_bytes : Text → List ℕ

-- An `AsyncWrite`: each call answers and leaves the writer in a new state.
pub record AsyncWrite (W : Type 0) : Type 0 where
  pub write_all : List ℕ → W → Result (Unit {0}) Text × W
  pub flush : W → Result (Unit {0}) Text × W

abbrev pub newline : ℕ
newline = 10

-- `line.trim().is_empty()`: nothing is left of a text of whitespace.
unfoldable pub is_blank : Text → Bool
is_blank line = trim_start line == []

unfoldable pub decode_line : Codec → Text → Result JsonRpcMessage JsonRpcError
decode_line codec line = decode_message codec.from_value codec.from_slice (codec.as_bytes line)

module _ {W : Type 0} (writer : AsyncWrite W) where
  -- The `?` after `write_all`.
  abbrev pub flush_after : Result (Unit {0}) Text × W → Result (Unit {0}) Text × W
  flush_after (ok _, w) = writer.flush w
  flush_after (err e, w) = (err e, w)

  abbrev pub write_serialized : Result (List ℕ) Text → W → Result (Unit {0}) Text × W
  write_serialized (err e) w = (ok tt, w)
  write_serialized (ok bytes) w = flush_after (writer.write_all (bytes ++ (newline ∷ [])) w)

  unfoldable pub write_reply : Codec → JsonRpcMessage → W → Result (Unit {0}) Text × W
  write_reply codec reply w = write_serialized (codec.to_vec reply) w

  abbrev pub write_given : Codec → Option JsonRpcMessage → W → Result (Unit {0}) Text × W
  write_given codec none w = (ok tt, w)
  write_given codec (some reply) w = write_reply codec reply w

module _ (host : Host) (codec : Codec) {World : Type 0} where
  unfoldable pub answer :
      McpSession World
      → Result JsonRpcMessage JsonRpcError
      → Option JsonRpcMessage × McpSession World
  answer s (ok message) = handle host s message
  answer s (err e) = (some (error_response (record { id = none; error = e })), s)

  -- One turn of the loop up to the reply: a failed read and a blank line have none.
  unfoldable pub receive :
      McpSession World → Result Text Text → Option JsonRpcMessage × McpSession World
  receive s (err e) = (none, s)
  receive s (ok line) = if is_blank line then (none, s) else answer s (decode_line codec line)

  module _ {W : Type 0} (writer : AsyncWrite W) where
    -- The `?` after `write_reply`: the loop ends at the first write that fails.
    abbrev pub go_on :
        Result (Unit {0}) Text
        → Result (Unit {0}) Text × McpSession World × W
        → McpSession World
        → W
        → Result (Unit {0}) Text × McpSession World × W
    go_on (ok _) rest s w = rest
    go_on (err e) rest s w = (err e, s, w)

    unfoldable pub run :
        McpSession World
        → List (Result Text Text)
        → W
        → Result (Unit {0}) Text × McpSession World × W
    run s [] w = (ok tt, s, w)
    run s (line ∷ lines) w =
        let (reply, s') = receive s line in
        let (outcome, w') = write_given writer codec reply w in
        let rest = run s' lines w' in go_on outcome rest s' w'
