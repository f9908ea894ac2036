-- ===== src/Wire/Sse/Stream.antt =====
-- `SseDecoder::feed` on streams that come in chunks.
use mathlib.Core.List.{append_assoc, append-nil}
use headless_db_mcp.Wire.Sse.{
  SseEvent, PendingEvent, split_once, pop_return, SseDecoder, emit, take_line, feed_within, feed,
}
use headless_db_mcp.Prelude.{
  ℕ, zero, suc, ◌≤◌, false, ◌==◌, nat_eq, nat_beq_refl, nat_beq_iff, Option, none, some, List, [],
  ◌∷◌, ◌++◌, ◌≡◌, refl, sym, ◌∙◌, arith, All-append, Text, length, length-append, if◌then◌else◌,
  Bool-cases, inl, inr,
}
use headless_db_mcp.Strings.Splits.{Lacks}

-- The part of the line that has arrived, and the event under construction.
unfoldable pub consume : Text → PendingEvent → Text → List SseEvent × SseDecoder
consume line p [] = ([], record { buffer = line; pending = p })
consume line p (c ∷ s) =
    let more = consume (line ++ (c ∷ [])) p s in
    let (event, p') = take_line p (pop_return line) in
    let rest = consume [] p' s in if c == b'\n' then (emit event rest.0, rest.1) else more

split_once-Lacks : (sep : ℕ) (s : Text) → Lacks sep s → split_once sep s ≡ none
unfolding split_once
split_once-Lacks sep [] h = refl
split_once-Lacks sep (c ∷ s) h = rw (h.0, split_once-Lacks sep s h.1)

split_once-append :
    (sep : ℕ) (s rest : Text) → Lacks sep s → split_once sep (s ++ (sep ∷ rest)) ≡ some (s, rest)
unfolding split_once
split_once-append sep [] rest h = rw (nat_beq_refl sep)
split_once-append sep (c ∷ s) rest h = rw (h.0, split_once-append sep s rest h.1)

feed_within-none :
    (fuel : ℕ) (d : SseDecoder) → split_once b'\n' d.buffer ≡ none → feed_within fuel d ≡ ([], d)
unfolding feed_within
feed_within-none zero d e = refl
feed_within-none (suc fuel) d e = rw (e, feed_within)

feed_within-some :
    (fuel : ℕ) (d : SseDecoder) (line rest : Text)
    → split_once b'\n' d.buffer ≡ some (line, rest)
    → feed_within (suc fuel) d ≡ (
        let (event, p) = take_line d.pending (pop_return line) in
        let (events, d') = feed_within fuel (record { buffer = rest; pending = p }) in
        (emit event events, d'))
unfolding feed_within
feed_within-some fuel d line rest e = rw (e, feed_within)

pub consume-newline :
    (line : Text) (p : PendingEvent) (s : Text)
    → consume line p (b'\n' ∷ s) ≡ (
        let (event, p') = take_line p (pop_return line) in
        let (events, d) = consume [] p' s in (emit event events, d))
unfolding consume
consume-newline line p s = refl

pub consume-other :
    (line : Text) (p : PendingEvent) (c : ℕ) (s : Text)
    → (c == b'\n') ≡ false
    → consume line p (c ∷ s) ≡ consume (line ++ (c ∷ [])) p s
unfolding consume
consume-other line p c s h = rw h

feed_within-consume :
    (s line : Text) (p : PendingEvent) (fuel : ℕ)
    → Lacks b'\n' line
    → length s ≤ fuel
    → feed_within fuel (record { buffer = line ++ s; pending = p }) ≡ consume line p s
feed_within-consume [] line p fuel h k =
    rw (append-nil line)
      (feed_within-none fuel _ (split_once-Lacks b'\n' line h) ∙ (unfold consume in refl))
feed_within-consume (c ∷ s) line p zero h k = elim k [ ]
feed_within-consume (c ∷ s) line p (suc fuel) h k = elim (Bool-cases (c == b'\n')) [
  | inl e ↦ rw ((nat_beq_iff c b'\n').0 e) (
      feed_within-some fuel _ line s (split_once-append b'\n' line s h)
      ∙ rw (feed_within-consume s [] (take_line p (pop_return line)).1 fuel tt (omega arith))
          (sym (consume-newline line p s)))
  | inr e ↦ rw (← append_assoc line (c ∷ []) s) (
      feed_within-consume s (line ++ (c ∷ [])) p (suc fuel) (All-append _ line (c ∷ []) h (e, tt))
        (omega arith)
      ∙ sym (consume-other line p c s e))
]

-- The decoder's buffer holds no complete line.
abbrev pub IsWaiting : SseDecoder → Type 0
IsWaiting d = Lacks b'\n' d.buffer

-- For a decoder whose buffer holds no newline, `feed` gives the events and the state that reading
-- the chunk one character at a time gives.
pub feed-consume :
    (d : SseDecoder) (chunk : Text) → IsWaiting d → feed d chunk ≡ consume d.buffer d.pending chunk
unfolding feed
feed-consume d chunk h =
    feed_within-consume chunk d.buffer d.pending (length (d.buffer ++ chunk)) h
      (omega (arith, length-append d.buffer chunk))

consume-IsWaiting :
    (s line : Text) (p : PendingEvent) → Lacks b'\n' line → IsWaiting (consume line p s).1
consume-IsWaiting [] line p h = unfold consume in h
consume-IsWaiting (c ∷ s) line p h = elim (Bool-cases (c == b'\n')) [
  | inl e ↦
      rw ((nat_beq_iff c b'\n').0 e) (
        rw (consume-newline line p s) (consume-IsWaiting s [] (take_line p (pop_return line)).1 tt))
  | inr e ↦
      rw (consume-other line p c s e)
        (consume-IsWaiting s (line ++ (c ∷ [])) p (All-append _ line (c ∷ []) h (e, tt)))
]

-- A decoder whose buffer holds no newline has none after `feed` either: every full line has been
-- taken.
pub feed-IsWaiting : (d : SseDecoder) (chunk : Text) → IsWaiting d → IsWaiting (feed d chunk).1
feed-IsWaiting d chunk h =
    rw (feed-consume d chunk h) (consume-IsWaiting chunk d.buffer d.pending h)

emit-append : (e : Option SseEvent) (xs ys : List SseEvent) → emit e (xs ++ ys) ≡ emit e xs ++ ys
emit-append none xs ys = refl
emit-append (some e) xs ys = refl

-- One text in two parts: the second part is consumed from where the first stops.
pub consume-append :
    (a b line : Text) (p : PendingEvent)
    → consume line p (a ++ b) ≡ (
        let (events, d) = consume line p a in
        let (later, d') = consume d.buffer d.pending b in (events ++ later, d'))
consume-append [] b line p = unfold consume in refl
consume-append (c ∷ a) b line p = elim (Bool-cases (c == b'\n')) [
  | inl e ↦
      let p' : PendingEvent = (take_line p (pop_return line)).1 in
      rw ((nat_beq_iff c b'\n').0 e) (
        rw (consume-newline line p (a ++ b), consume-newline line p a)
          (rw (consume-append a b [] p') (
            ground (
              arith,
              emit-append (take_line p (pop_return line)).0 (consume [] p' a).0
                  (consume (consume [] p' a).1.buffer (consume [] p' a).1.pending b).0,
            ))))
  | inr e ↦
      rw (consume-other line p c (a ++ b) e, consume-other line p c a e)
        (consume-append a b (line ++ (c ∷ [])) p)
]

-- For a decoder whose buffer holds no newline, feeding a stream in two chunks gives the events and
-- the state of feeding it at once, wherever the cut is.
pub feed-append :
    (d : SseDecoder) (a b : Text)
    → IsWaiting d
    → feed d (a ++ b)
      ≡ (let (events, d') = feed d a in let (later, d'') = feed d' b in (events ++ later, d''))
feed-append d a b h =
    feed-consume d (a ++ b) h
    ∙ consume-append a b d.buffer d.pending
    ∙ rw (← feed-consume d a h) (rw (feed-consume (feed d a).1 b (feed-IsWaiting d a h)))
