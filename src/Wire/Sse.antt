-- ===== src/Wire/Sse.antt =====
-- crates/mcp-wire/src/sse.rs: Server-Sent Events, encoded and decoded as they arrive. The field
-- `data` of the source is `payload` here.
pub mod Stream
pub mod RoundTrip
use headless_db_mcp.Prelude.{
  ℕ, zero, suc, Bool, false, ◌||◌, ◌==◌, nat_eq, text_eq, Option, none, some, List, [], ◌∷◌, ◌++◌,
  Text, codes, length, if◌then◌else◌,
}
use headless_db_mcp.Strings.{split, join}

pub record SseEvent : Type 0 where
  pub event : Option Text
  pub payload : Text
  pub id : Option Text

unfoldable pub first_line : Text → Text
first_line [] = []
first_line (c ∷ s) = if c == b'\n' || c == b'\r' then [] else c ∷ first_line s

unfoldable pub encode_field : Text → Option Text → Text
encode_field name none = []
encode_field name (some value) = name ++ (first_line value ++ (b'\n' ∷ []))

unfoldable pub encode_data : List Text → Text
encode_data [] = []
encode_data (line ∷ lines) = codes "data: " ++ (line ++ (b'\n' ∷ encode_data lines))

unfoldable pub encode_sse_event : SseEvent → Text
unfolding encode_field encode_data
encode_sse_event e =
    encode_field (codes "event: ") e.event
    ++ (encode_field (codes "id: ") e.id ++ (encode_data (split b'\n' e.payload) ++ (b'\n' ∷ [])))

pub record PendingEvent : Type 0 where
  pub event : Option Text
  pub id : Option Text
  pub data_lines : List Text

abbrev pub reset : PendingEvent
reset = record { event = none; id = none; data_lines = [] }

-- `s.split_once(sep)`: what stands before and behind the first separator.
abbrev pub push_before : ℕ → Option (Text × Text) → Option (Text × Text)
push_before c none = none
push_before c (some (before, behind)) = some (c ∷ before, behind)

unfoldable pub split_once : ℕ → Text → Option (Text × Text)
split_once sep [] = none
split_once sep (c ∷ s) = if c == sep then some ([], s) else push_before c (split_once sep s)

abbrev pub field_and_value : Text → Option (Text × Text) → Text × Text
field_and_value line none = (line, [])
field_and_value line (some parts) = parts

-- `raw_value.strip_prefix(' ').unwrap_or(raw_value)`
abbrev pub strip_space : Text → Text
strip_space [] = []
strip_space (c ∷ s) = if c == b' ' then s else c ∷ s

abbrev pub set_field : PendingEvent → Text → Text → PendingEvent
set_field p field value =
    if field == codes "data"
    then record p { data_lines = p.data_lines ++ (value ∷ []) }
    else if field == codes "event"
    then record p { event = some value }
    else if field == codes "id"
    then record p { id = some value }
    else p

abbrev pub is_comment : Text → Bool
is_comment [] = false
is_comment (c ∷ s) = c == b':'

unfoldable pub apply_line : PendingEvent → Text → PendingEvent
unfolding split_once
apply_line p line =
    if is_comment line
    then p
    else (let (field, raw_value) = field_and_value line (split_once b':' line) in
        set_field p field (strip_space raw_value))

abbrev pub dispatch_lines : PendingEvent → List Text → Option SseEvent × PendingEvent
dispatch_lines p [] = (none, reset)
dispatch_lines p (line ∷ lines) =
    (some (record { event = p.event; payload = join b'\n' (line ∷ lines); id = p.id }), reset)

unfoldable pub dispatch : PendingEvent → Option SseEvent × PendingEvent
dispatch p = dispatch_lines p p.data_lines

-- `if line.ends_with('\r') { line.pop(); }`
unfoldable pub pop_return : Text → Text
pop_return [] = []
pop_return (c ∷ []) = if c == b'\r' then [] else c ∷ []
pop_return (c ∷ d ∷ s) = c ∷ pop_return (d ∷ s)

pub record SseDecoder : Type 0 where
  pub buffer : Text
  pub pending : PendingEvent

abbrev pub new : SseDecoder
new = record { buffer = []; pending = reset }

abbrev pub emit : Option SseEvent → List SseEvent → List SseEvent
emit none events = events
emit (some event) events = event ∷ events

-- The body of the loop, for one complete line without its carriage return.
unfoldable pub take_line : PendingEvent → Text → Option SseEvent × PendingEvent
take_line p [] = dispatch p
take_line p (c ∷ line) = (none, apply_line p (c ∷ line))

-- Each round takes a newline out of the buffer, so that its length bounds the rounds.
unfoldable pub feed_within : ℕ → SseDecoder → List SseEvent × SseDecoder
feed_within zero d = ([], d)
feed_within (suc fuel) d = elim (split_once b'\n' d.buffer) [
  | none ↦ ([], d)
  | some (line, rest) ↦
      let (event, p) = take_line d.pending (pop_return line) in
      let (events, d') = feed_within fuel (record { buffer = rest; pending = p }) in
      (emit event events, d')
]

unfoldable pub feed : SseDecoder → Text → List SseEvent × SseDecoder
feed d chunk =
    let buffer = d.buffer ++ chunk in
    feed_within (length buffer) (record { buffer = buffer; pending = d.pending })
