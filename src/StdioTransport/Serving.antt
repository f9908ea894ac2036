-- ===== src/StdioTransport/Serving.antt =====
-- What a client of the loop in crates/transport-stdio/src/lib.rs sees, and what its session does.
use mathlib.Core.List.{append_assoc, append-nil}
use headless_db_mcp.McpServer.Session.{Host, McpSession, prepend, handle_all}
use headless_db_mcp.StdioTransport.{
  Codec, AsyncWrite, newline, is_blank, decode_line, flush_after, write_serialized, write_reply,
  write_given, answer, receive, go_on, run,
}
use headless_db_mcp.Prelude.{
  ℕ, true, nat_eq, text_eq, Option, none, some, List, [], ◌∷◌, ◌++◌, ◌≡◌, refl, sym, ◌∙◌, ◌⊎◌, inl,
  inr, All, Text, Result, ok, err, if◌then◌else◌, Bool-cases,
}
use headless_db_mcp.Wire.JsonRpc.{JsonRpcError, JsonRpcMessage}

-- A writer that takes what it is given: `written` is all that it has been given.
pub record Accepts {W : Type 0} (writer : AsyncWrite W) (written : W → List ℕ) : Type 0 where
  pub write_all_ok : (bytes : List ℕ) (w : W) → (writer.write_all bytes w).0 ≡ ok tt
  pub write_all_adds :
      (bytes : List ℕ) (w : W) → written (writer.write_all bytes w).1 ≡ written w ++ bytes
  pub flush_ok : (w : W) → (writer.flush w).0 ≡ ok tt
  pub flush_keeps : (w : W) → written (writer.flush w).1 ≡ written w

abbrev pub keep_decoded :
    Result JsonRpcMessage JsonRpcError → List JsonRpcMessage → List JsonRpcMessage
keep_decoded (ok message) rest = message ∷ rest
keep_decoded (err e) rest = rest

-- The messages in the input: of the lines that are read, not blank and decode.
abbrev pub messages : Codec → List (Result Text Text) → List JsonRpcMessage
messages codec [] = []
messages codec (err e ∷ lines) = messages codec lines
messages codec (ok line ∷ lines) =
    let rest = messages codec lines in
    if is_blank line then rest else keep_decoded (decode_line codec line) rest

-- The bytes of the replies, a line for each that can be serialized.
abbrev pub line_of : Result (List ℕ) Text → List ℕ
line_of (ok bytes) = bytes ++ (newline ∷ [])
line_of (err e) = []

abbrev pub lines_of : Codec → List JsonRpcMessage → List ℕ
lines_of codec [] = []
lines_of codec (reply ∷ replies) = line_of (codec.to_vec reply) ++ lines_of codec replies

-- A line that is blank or decodes.
abbrev pub IsWellFormed : Codec → Result Text Text → Type 0
IsWellFormed codec (err e) = Unit
IsWellFormed codec (ok line) =
    (is_blank line ≡ true) ⊎ ((message : JsonRpcMessage) × (decode_line codec line ≡ ok message))

module _ (codec : Codec) {W : Type 0} (writer : AsyncWrite W) (written : W → List ℕ) where
  flush_after-ok :
      (r : Result (Unit {0}) Text × W) → r.0 ≡ ok tt → flush_after writer r ≡ writer.flush r.1
  flush_after-ok (ok u, w) e = refl
  flush_after-ok (err x, w) e = cc

  write_serialized-Accepts :
      Accepts writer written
      → (serialized : Result (List ℕ) Text) (w : W)
      → let (outcome, after) = write_serialized writer serialized w in
        (outcome ≡ ok tt) × (written after ≡ written w ++ line_of serialized)
  write_serialized-Accepts h (err e) w = (refl, sym (append-nil (written w)))
  write_serialized-Accepts h (ok bytes) w =
      let line = bytes ++ (newline ∷ []) in
      rw (flush_after-ok (writer.write_all line w) (h.write_all_ok line w))
        (h.flush_ok _, h.flush_keeps _ ∙ h.write_all_adds line w)

  -- The bytes of what the loop writes for one line of its input.
  abbrev given_line : Option JsonRpcMessage → List ℕ
  given_line none = []
  given_line (some reply) = line_of (codec.to_vec reply)

  write_given-Accepts :
      Accepts writer written
      → (reply : Option JsonRpcMessage) (w : W)
      → let (outcome, after) = write_given writer codec reply w in
        (outcome ≡ ok tt) × (written after ≡ written w ++ given_line reply)
  unfolding write_reply
  write_given-Accepts h none w = (refl, sym (append-nil (written w)))
  write_given-Accepts h (some reply) w = write_serialized-Accepts h (codec.to_vec reply) w

  lines_of-prepend :
      (reply : Option JsonRpcMessage) (replies : List JsonRpcMessage)
      → lines_of codec (prepend reply replies) ≡ given_line reply ++ lines_of codec replies
  lines_of-prepend none replies = refl
  lines_of-prepend (some reply) replies = refl

  module _ (host : Host) {World : Type 0} where
    go_on-ok :
        (outcome : Result (Unit {0}) Text) (rest : Result (Unit {0}) Text × McpSession World × W)
        (s : McpSession World) (w : W)
        → outcome ≡ ok tt
        → go_on host codec writer outcome rest s w ≡ rest
    go_on-ok (ok u) rest s w e = refl
    go_on-ok (err x) rest s w e = cc

    run-cons :
        Accepts writer written
        → (s : McpSession World) (line : Result Text Text) (lines : List (Result Text Text)) (w : W)
        → let (reply, s') = receive host codec s line in
          run host codec writer s (line ∷ lines) w
          ≡ run host codec writer s' lines (write_given writer codec reply w).1
    unfolding run
    run-cons h s line lines w =
        go_on-ok _ _ _ _ (write_given-Accepts h (receive host codec s line).0 w).0

    answer-session :
        (s : McpSession World) (decoded : Result JsonRpcMessage JsonRpcError)
        (rest : List JsonRpcMessage)
        → (handle_all host s (keep_decoded decoded rest)).1
          ≡ (handle_all host (answer host codec s decoded).1 rest).1
    unfolding handle_all answer
    answer-session s (ok message) rest = refl
    answer-session s (err e) rest = refl

    receive-session :
        (s : McpSession World) (line : Result Text Text) (lines : List (Result Text Text))
        → (handle_all host s (messages codec (line ∷ lines))).1
          ≡ (handle_all host (receive host codec s line).1 (messages codec lines)).1
    unfolding receive
    receive-session s (err e) lines = refl
    receive-session s (ok line) lines = elim (Bool-cases (is_blank line)) [
      | inl e ↦ rw e refl
      | inr e ↦ rw e (answer-session s (decode_line codec line) (messages codec lines))
    ]

    -- If the writer takes what it is given, then whatever the input holds (failed reads, blank lines
    -- and lines that do not decode), the loop returns without an error at its end, with the session
    -- as it is after the conversation of the lines that decode.
    pub run-survives :
        Accepts writer written
        → (s : McpSession World) (lines : List (Result Text Text)) (w : W)
        → let (outcome, after, _) = run host codec writer s lines w in
          (outcome ≡ ok tt) × (after ≡ (handle_all host s (messages codec lines)).1)
    unfolding run handle_all
    run-survives h s [] w = (refl, refl)
    run-survives h s (line ∷ lines) w =
        let (reply, s') = receive host codec s line in
        let (o, e) = run-survives h s' lines (write_given writer codec reply w).1 in
        rw (run-cons h s line lines w) (o, e ∙ sym (receive-session s line lines))

    receive-replies :
        (s : McpSession World) (line : Result Text Text) (lines : List (Result Text Text))
        → IsWellFormed codec line
        → let (reply, s') = receive host codec s line in
          (handle_all host s (messages codec (line ∷ lines))).0
          ≡ prepend reply (handle_all host s' (messages codec lines)).0
    unfolding receive answer handle_all
    receive-replies s (err e) lines h = refl
    receive-replies s (ok line) lines h = elim (Bool-cases (is_blank line)) [
      | inl e ↦ rw e refl
      | inr e ↦ elim h [ inl blank ↦ cc | inr (message, d) ↦ rw (e, d) refl ]
    ]

    -- If the writer takes what it is given and each line that is read and not blank decodes, then the
    -- loop writes the replies of the session to those messages, in order, each that can be
    -- serialized as a line.
    pub run-writes :
        Accepts writer written
        → (s : McpSession World) (lines : List (Result Text Text)) (w : W)
        → All (IsWellFormed codec) lines
        → written (run host codec writer s lines w).2
          ≡ written w ++ lines_of codec (handle_all host s (messages codec lines)).0
    unfolding run handle_all
    run-writes h s [] w a = sym (append-nil (written w))
    run-writes h s (line ∷ lines) w (f, a) =
        let (reply, s') = receive host codec s line in
        let given = write_given-Accepts h reply w in
        let later = (handle_all host s' (messages codec lines)).0 in
        rw
          (
            run-cons h s line lines w,
            receive-replies s line lines f,
            lines_of-prepend reply later,
            sym (append_assoc (written w) (given_line reply) (lines_of codec later)),
            sym given.1,
          )
          (run-writes h s' lines (write_given writer codec reply w).1 a)
