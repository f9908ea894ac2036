-- ===== src/ClickHouse/Body/Cutting.antt =====
-- What a body that arrives in parts is read as: the lines of the texts of the parts. A part that ends
-- inside of a character has another text than it would have with the rest of the character.
use headless_db_mcp.ClickHouse.Body.{
  Read, truncated, going, failed_with, is_empty, push_row, parse_row, read_lines, read_on,
  read_chunks, read_end, read_body,
}
use headless_db_mcp.ClickHouse.Request.{Http, ReqwestError}
use headless_db_mcp.Core.{CellValue, DriverResult}
use headless_db_mcp.Prelude.{
  ℕ, leb, nat_eq, text_eq, List, [], ◌∷◌, ◌++◌, map, ◌≡◌, refl, sym, ap, ◌∙◌, inl, inr, All,
  All-append, Text, length, Result, ok, err, if◌then◌else◌, Bool-cases,
}
use headless_db_mcp.Strings.{as_bytes, split}
use headless_db_mcp.Strings.Edges.{trim}
use headless_db_mcp.Strings.Going.{pieces_then, split-pieces_then}
use headless_db_mcp.Strings.Splits.{split-nonempty}
use headless_db_mcp.Strings.Utf8.{from_utf8_lossy}
use headless_db_mcp.Strings.Utf8.RoundTrip.{IsScalar, from_utf8_lossy-as_bytes}
use mathlib.Core.List.{append_assoc, append-nil}

-- The text of a body that arrives in these parts, each of which is decoded alone.
abbrev pub text_of : List (List ℕ) → Text
text_of [] = []
text_of (bytes ∷ parts) = from_utf8_lossy bytes ++ text_of parts

abbrev pub arrived : List (List ℕ) → List (Result (List ℕ) ReqwestError)
arrived parts = map ok parts

abbrev pub joined : List Text → Text
joined [] = []
joined (t ∷ texts) = t ++ joined texts

joined-IsScalar : (texts : List Text) → All (All IsScalar) texts → All IsScalar (joined texts)
joined-IsScalar [] h = tt
joined-IsScalar (t ∷ texts) h = All-append IsScalar t (joined texts) h.0 (joined-IsScalar texts h.1)

text_of-as_bytes :
    (texts : List Text) → All (All IsScalar) texts → text_of (map as_bytes texts) ≡ joined texts
text_of-as_bytes [] h = refl
text_of-as_bytes (t ∷ texts) h =
    rw (from_utf8_lossy-as_bytes t h.0, text_of-as_bytes texts h.1) refl

module _ {Client S : Type 0} (http : Http Client S) (columns : List Text) (cap : ℕ) where
  read_on-read_on :
      (f g : List (List CellValue) → Text → Read) (r : Read)
      → read_on http columns cap g (read_on http columns cap f r)
        ≡ read_on http columns cap (λ rows buffer. read_on http columns cap g (f rows buffer)) r
  read_on-read_on f g (truncated rows) = refl
  read_on-read_on f g (going rows buffer) = refl
  read_on-read_on f g (failed_with e) = refl

  -- In front of at least one more line.
  read_lines-cons :
      (rows : List (List CellValue)) (line p : Text) (ps ls : List Text)
      → ls ≡ p ∷ ps
      → read_lines http columns cap rows (line ∷ ls) ≡ (
          if is_empty (trim line)
          then read_lines http columns cap rows ls
          else push_row http columns cap
              (λ rows'. read_lines http columns cap rows' ls)
              rows
              (parse_row http columns line))
  unfolding read_lines
  read_lines-cons rows line p ps ls e = rw e refl

  pieces_then-nonempty :
      (p : Text) (ps : List Text) (y : Text)
      → (q : Text) × (qs : List Text) × (pieces_then b'\n' (p ∷ ps) y ≡ q ∷ qs)
  pieces_then-nonempty p [] y = split-nonempty b'\n' (p ++ y)
  pieces_then-nonempty p (next ∷ ps) y = (p, pieces_then b'\n' (next ∷ ps) y, refl)

  read_on-push_row :
      (f : List (List CellValue) → Text → Read) (go : List (List CellValue) → Read)
      (rows : List (List CellValue)) (r : DriverResult (List CellValue))
      → read_on http columns cap f (push_row http columns cap go rows r)
        ≡ push_row http columns cap (λ rows'. read_on http columns cap f (go rows')) rows r
  read_on-push_row f go rows (err e) = refl
  read_on-push_row f go rows (ok row) = elim (Bool-cases (leb cap (length (rows ++ (row ∷ []))))) [
    | inl e ↦ rw e refl
    | inr e ↦ rw e refl
  ]

  push_row-eq :
      (f g : List (List CellValue) → Read) (rows : List (List CellValue))
      (r : DriverResult (List CellValue))
      → ((rows' : List (List CellValue)) → f rows' ≡ g rows')
      → push_row http columns cap f rows r ≡ push_row http columns cap g rows r
  push_row-eq f g rows (err e) h = refl
  push_row-eq f g rows (ok row) h = rw (h (rows ++ (row ∷ []))) refl

  -- Reading a buffer and then what it goes on with is reading them at once.
  abbrev goes_on : Text → List (List CellValue) → Text → Read
  goes_on y rows buffer = read_lines http columns cap rows (split b'\n' (buffer ++ y))

  read_lines-pieces_then :
      (rows : List (List CellValue)) (p : Text) (ps : List Text) (y : Text)
      → read_on http columns cap (goes_on y) (read_lines http columns cap rows (p ∷ ps))
        ≡ read_lines http columns cap rows (pieces_then b'\n' (p ∷ ps) y)
  unfolding read_lines
  read_lines-pieces_then rows p [] y = refl
  read_lines-pieces_then rows p (next ∷ ps) y =
      let (q, qs, e) = pieces_then-nonempty next ps y in
      rw (read_lines-cons rows p q qs (pieces_then b'\n' (next ∷ ps) y) e)
        (elim (Bool-cases (is_empty (trim p))) [
          | inl b ↦ rw b (read_lines-pieces_then rows next ps y)
          | inr b ↦ rw b (
              read_on-push_row (goes_on y) (λ rows'. read_lines http columns cap rows' (next ∷ ps))
                rows (parse_row http columns p)
              ∙ push_row-eq _ _ rows (parse_row http columns p)
                  (λ rows'. read_lines-pieces_then rows' next ps y))
        ])

  read_lines-append :
      (rows : List (List CellValue)) (x y : Text)
      → read_on http columns cap (goes_on y) (read_lines http columns cap rows (split b'\n' x))
        ≡ read_lines http columns cap rows (split b'\n' (x ++ y))
  read_lines-append rows x y =
      let (p, ps, e) = split-nonempty b'\n' x in
      rw (split-pieces_then b'\n' x y, e) (read_lines-pieces_then rows p ps y)

  read_on-going : (r : Read) → read_on http columns cap (λ rows buffer. going rows buffer) r ≡ r
  read_on-going (truncated rows) = refl
  read_on-going (going rows buffer) = refl
  read_on-going (failed_with e) = refl

  read_on-read_chunks :
      (rows : List (List CellValue)) (x : Text) (parts : List (List ℕ))
      → read_on http columns cap
          (λ rows' buffer. read_chunks http columns cap rows' buffer (arrived parts))
          (read_lines http columns cap rows (split b'\n' x))
        ≡ read_lines http columns cap rows (split b'\n' (x ++ text_of parts))
  unfolding read_chunks
  read_on-read_chunks rows x [] =
      read_on-going _
      ∙ ap (λ x. read_lines http columns cap rows (split b'\n' x)) (sym (append-nil x))
  read_on-read_chunks rows x (bytes ∷ parts) =
      sym (
        read_on-read_on (goes_on (from_utf8_lossy bytes))
          (λ rows' buffer. read_chunks http columns cap rows' buffer (arrived parts)) _)
      ∙ ap
          (read_on http columns cap
            (λ rows' buffer. read_chunks http columns cap rows' buffer (arrived parts)))
          (read_lines-append rows x (from_utf8_lossy bytes))
      ∙ read_on-read_chunks rows (x ++ from_utf8_lossy bytes) parts
      ∙ ap (λ x. read_lines http columns cap rows (split b'\n' x))
          (append_assoc x (from_utf8_lossy bytes) (text_of parts))

  -- A body that arrives to its end is read as the lines of the texts of its parts, put one behind the
  -- other; each part is decoded alone.
  pub read_body-text_of :
      (parts : List (List ℕ))
      → read_body http columns cap (arrived parts)
        ≡ read_end http columns cap (read_lines http columns cap [] (split b'\n' (text_of parts)))
  unfolding read_body split read_lines
  read_body-text_of parts = ap (read_end http columns cap) (read_on-read_chunks [] [] parts)

  -- A body of Unicode text whose parts are each the bytes of a whole number of characters is read as
  -- if it arrived in one part: where it is cut between characters makes no difference to the rows, to
  -- whether they are cut off, or to the error.
  pub read_body-characters :
      (texts : List Text)
      → All (All IsScalar) texts
      → read_body http columns cap (arrived (map as_bytes texts))
        ≡ read_body http columns cap (arrived (as_bytes (joined texts) ∷ []))
  read_body-characters texts h =
      let whole : text_of (as_bytes (joined texts) ∷ []) ≡ joined texts =
        append-nil _ ∙ from_utf8_lossy-as_bytes (joined texts) (joined-IsScalar texts h) in
      rw
        (
          read_body-text_of (map as_bytes texts),
          read_body-text_of (as_bytes (joined texts) ∷ []),
          text_of-as_bytes texts h,
          whole,
        )
        refl
