-- ===== src/Wire/Sse/RoundTrip.antt =====
-- Encoded events, and what the decoder of crates/mcp-wire/src/sse.rs reads from them.
use mathlib.Core.List.{append_assoc, append-nil}
use mathlib.Core.Option
use headless_db_mcp.Wire.Sse.{
  SseEvent, first_line, encode_field, encode_data, encode_sse_event, PendingEvent, reset,
  apply_line, dispatch, pop_return, new, take_line, feed,
}
use headless_db_mcp.Wire.Sse.Stream.{consume, consume-newline, consume-other, feed-consume}
use headless_db_mcp.Prelude.{
  ℕ, false, ◌||◌, ◌==◌, nat_eq, Option, none, some, List, [], ◌∷◌, ◌++◌, map, ◌≡◌, refl, sym, ap,
  ◌∙◌, arith, All, All-append, Text, codes, Bool-cases, inl, inr,
}
use headless_db_mcp.Strings.{split, join}
use headless_db_mcp.Strings.Splits.{Lacks, split-nonempty, split-All-Lacks, split-Lacks, join-split}

-- What the wire keeps: the first lines of `event` and `id`, and of each line of the payload all
-- but one carriage return at its end.
abbrev pub on_the_wire : SseEvent → SseEvent
on_the_wire e = record {
  event = Option.map first_line e.event;
  payload = join b'\n' (map pop_return (split b'\n' e.payload));
  id = Option.map first_line e.id;
}

pop_return-cons : (c : ℕ) (s : Text) → (c == b'\r') ≡ false → pop_return (c ∷ s) ≡ c ∷ pop_return s
unfolding pop_return
pop_return-cons c [] h = rw h
pop_return-cons c (d ∷ s) h = refl

pop_return-append : (u s : Text) → Lacks b'\r' u → pop_return (u ++ s) ≡ u ++ pop_return s
pop_return-append [] s h = refl
pop_return-append (c ∷ u) s h =
    pop_return-cons c (u ++ s) h.0 ∙ ap (◌∷◌ c) (pop_return-append u s h.1)

pop_return-Lacks : (s : Text) → Lacks b'\r' s → pop_return s ≡ s
pop_return-Lacks s h = rw (← append-nil s) (pop_return-append s [] h ∙ (unfold pop_return in refl))

first_line-Lacks : (s : Text) → Lacks b'\r' (first_line s) × Lacks b'\n' (first_line s)
unfolding first_line
first_line-Lacks [] = (tt, tt)
first_line-Lacks (c ∷ s) = elim (Bool-cases (c == b'\n' || c == b'\r')) [
  | inl e ↦ rw e (tt, tt)
  | inr e ↦ let (r, n) = first_line-Lacks s in rw e ((ground arith, r), (ground arith, n))
]

consume_part :
    (s line : Text) (p : PendingEvent) (rest : Text)
    → Lacks b'\n' s
    → consume line p (s ++ rest) ≡ consume (line ++ s) p rest
consume_part [] line p rest h = rw (append-nil line)
consume_part (c ∷ s) line p rest h =
    consume-other line p c (s ++ rest) h.0
    ∙ consume_part s (line ++ (c ∷ [])) p rest h.1
    ∙ rw (append_assoc line (c ∷ []) s)

-- A line that sets a field and does not dispatch.
consume_field :
    (c : ℕ) (line kept : Text) (p : PendingEvent) (rest : Text)
    → Lacks b'\n' (c ∷ line)
    → pop_return (c ∷ line) ≡ c ∷ kept
    → consume [] p ((c ∷ line) ++ (b'\n' ∷ rest)) ≡ consume [] (apply_line p (c ∷ kept)) rest
unfolding take_line
consume_field c line kept p rest h k =
    consume_part (c ∷ line) [] p (b'\n' ∷ rest) h ∙ consume-newline (c ∷ line) p rest ∙ rw k

module _ (p : PendingEvent) (v rest : Text) where
  consume_event :
      consume [] p (encode_field (codes "event: ") (some v) ++ rest)
      ≡ consume [] (record p { event = some (first_line v) }) rest
  unfolding encode_field apply_line
  consume_event =
      let (r, n) = first_line-Lacks v in
      ap (consume [] p) (
        append_assoc (codes "event: ") (first_line v ++ (b'\n' ∷ [])) rest
        ∙ ap (◌++◌ (codes "event: ")) (append_assoc (first_line v) (b'\n' ∷ []) rest))
      ∙ consume_field b'e' (codes "vent: " ++ first_line v) (codes "vent: " ++ first_line v) p rest
          (refl, (refl, (refl, (refl, (refl, (refl, (refl, n)))))))
          (pop_return-Lacks _ (refl, (refl, (refl, (refl, (refl, (refl, (refl, r))))))))

  consume_id :
      consume [] p (encode_field (codes "id: ") (some v) ++ rest)
      ≡ consume [] (record p { id = some (first_line v) }) rest
  unfolding encode_field apply_line
  consume_id =
      let (r, n) = first_line-Lacks v in
      ap (consume [] p) (
        append_assoc (codes "id: ") (first_line v ++ (b'\n' ∷ [])) rest
        ∙ ap (◌++◌ (codes "id: ")) (append_assoc (first_line v) (b'\n' ∷ []) rest))
      ∙ consume_field b'i' (codes "d: " ++ first_line v) (codes "d: " ++ first_line v) p rest
          (refl, (refl, (refl, (refl, n)))) (pop_return-Lacks _ (refl, (refl, (refl, (refl, r)))))

consume_data_line :
    (p : PendingEvent) (line rest : Text)
    → Lacks b'\n' line
    → consume [] p (codes "data: " ++ (line ++ (b'\n' ∷ rest)))
      ≡ consume [] (record p { data_lines = p.data_lines ++ (pop_return line ∷ []) }) rest
unfolding apply_line
consume_data_line p line rest n =
    consume_field b'd' (codes "ata: " ++ line) (codes "ata: " ++ pop_return line) p rest
      (refl, (refl, (refl, (refl, (refl, (refl, n))))))
      (pop_return-append (codes "data: ") line (refl, (refl, (refl, (refl, (refl, (refl, tt)))))))

consume_data :
    (lines : List Text) (p : PendingEvent) (rest : Text)
    → All (Lacks b'\n') lines
    → consume [] p (encode_data lines ++ rest)
      ≡ consume [] (record p { data_lines = p.data_lines ++ map pop_return lines }) rest
unfolding encode_data
consume_data [] p rest h = rw (append-nil p.data_lines)
consume_data (line ∷ lines) p rest h =
    ap (λ (t : Text). consume [] p (codes "data: " ++ t))
      (append_assoc line (b'\n' ∷ encode_data lines) rest)
    ∙ consume_data_line p line (encode_data lines ++ rest) h.0
    ∙ consume_data lines (record p { data_lines = p.data_lines ++ (pop_return line ∷ []) }) rest h.1
    ∙ rw (append_assoc p.data_lines (pop_return line ∷ []) (map pop_return lines))

-- The blank line behind a field with data.
consume_blank :
    (p : PendingEvent) (line : Text) (lines : List Text) (rest : Text)
    → p.data_lines ≡ line ∷ lines
    → consume [] p (b'\n' ∷ rest) ≡ (
      record { event = p.event; payload = join b'\n' (line ∷ lines); id = p.id }
          ∷ (consume [] reset rest).0,
      (consume [] reset rest).1,
    )
unfolding take_line dispatch pop_return
consume_blank p line lines rest e = consume-newline [] p rest ∙ rw (e, dispatch)

optional_event :
    (p : PendingEvent) (o : Option Text) (rest : Text)
    → p.event ≡ none
    → consume [] p (encode_field (codes "event: ") o ++ rest)
      ≡ consume [] (record p { event = Option.map first_line o }) rest
optional_event p none rest e =
    unfold encode_field in ap (λ (x : Option Text). consume [] (record p { event = x }) rest) e
optional_event p (some v) rest e = consume_event p v rest

optional_id :
    (p : PendingEvent) (o : Option Text) (rest : Text)
    → p.id ≡ none
    → consume [] p (encode_field (codes "id: ") o ++ rest)
      ≡ consume [] (record p { id = Option.map first_line o }) rest
optional_id p none rest e =
    unfold encode_field in ap (λ (x : Option Text). consume [] (record p { id = x }) rest) e
optional_id p (some v) rest e = consume_id p v rest

consume_encoded :
    (e : SseEvent) (rest : Text)
    → consume [] reset (encode_sse_event e ++ rest)
      ≡ (on_the_wire e ∷ (consume [] reset rest).0, (consume [] reset rest).1)
unfolding encode_sse_event
consume_encoded e rest =
    let lines : List Text = split b'\n' e.payload in
    let name : Text = encode_field (codes "event: ") e.event in
    let key : Text = encode_field (codes "id: ") e.id in
    let body : Text = encode_data lines ++ (b'\n' ∷ []) in
    let (first, others, splits) = split-nonempty b'\n' e.payload in
    ap (consume [] reset) (
      append_assoc name (key ++ body) rest
      ∙ ap (◌++◌ name) (
          append_assoc key body rest
          ∙ ap (◌++◌ key) (append_assoc (encode_data lines) (b'\n' ∷ []) rest)))
    ∙ optional_event reset e.event _ refl
    ∙ optional_id (record reset { event = Option.map first_line e.event }) e.id _ refl
    ∙ consume_data lines _ (b'\n' ∷ rest) (split-All-Lacks b'\n' e.payload)
    ∙ consume_blank _ (pop_return first) (map pop_return others) rest (ap (map pop_return) splits)
    ∙ rw splits

abbrev pub encode_all : List SseEvent → Text
encode_all [] = []
encode_all (e ∷ es) = encode_sse_event e ++ encode_all es

consume_all : (es : List SseEvent) → consume [] reset (encode_all es) ≡ (map on_the_wire es, new)
consume_all [] = unfold consume in refl
consume_all (e ∷ es) = consume_encoded e (encode_all es) ∙ rw (consume_all es)

-- A fresh decoder reads the encoding of a sequence of events back, each as the wire keeps it, and
-- is fresh again.
pub feed-encode_all : (es : List SseEvent) → feed new (encode_all es) ≡ (map on_the_wire es, new)
feed-encode_all es = feed-consume new (encode_all es) tt ∙ consume_all es

-- The event comes back as it was if `event` and `id` are single lines and no line of the payload
-- ends in a carriage return.
record SurvivesWire (e : SseEvent) : Type 0 where
  pub event : Option.map first_line e.event ≡ e.event
  pub id : Option.map first_line e.id ≡ e.id
  pub lines : All (λ line. pop_return line ≡ line) (split b'\n' e.payload)

map-kept :
    (lines : List Text) → All (λ line. pop_return line ≡ line) lines → map pop_return lines ≡ lines
map-kept [] h = refl
map-kept (line ∷ lines) h = rw (h.0, map-kept lines h.1)

-- An event whose `event` and `id` are their own first lines, and of whose payload no line ends in a
-- carriage return, is kept by the wire as it is.
SurvivesWire-on_the_wire : (e : SseEvent) → SurvivesWire e → on_the_wire e ≡ e
SurvivesWire-on_the_wire e h =
    rw (h.event, h.id, map-kept (split b'\n' e.payload) h.lines, join-split b'\n' e.payload)

pop_return-concat : (s : Text) → pop_return (s ++ (b'\r' ∷ [])) ≡ s
unfolding pop_return
pop_return-concat [] = refl
pop_return-concat (c ∷ []) = refl
pop_return-concat (c ∷ d ∷ s) = ap (◌∷◌ c) (pop_return-concat (d ∷ s))

-- A carriage return at the end of a payload without a newline is lost: the event is decoded without
-- it.
pub feed-encode_drops_return :
    (s : Text)
    → Lacks b'\n' s
    → feed new (encode_sse_event (record { event = none; payload = s ++ (b'\r' ∷ []); id = none }))
      ≡ (record { event = none; payload = s; id = none } ∷ [], new)
feed-encode_drops_return s h =
    let e : SseEvent = record { event = none; payload = s ++ (b'\r' ∷ []); id = none } in
    ap (feed new) (sym (append-nil (encode_sse_event e)))
    ∙ feed-encode_all (e ∷ [])
    ∙ rw (split-Lacks b'\n' (s ++ (b'\r' ∷ [])) (All-append _ s (b'\r' ∷ []) h (refl, tt)))
        (unfold join in rw (pop_return-concat s))
