-- ===== src/ClickHouse/Tsv/Parsing.antt =====
-- Rendered tables, and the parsing of crates/driver-clickhouse/src/tsv.rs.
use headless_db_mcp.ClickHouse.Tsv.{
  unescape_text, parse_data_cell, pop_empty_last, split_lines, texts, header_of, header_mismatch,
  parse_header, parse_row, parse_lines, parse_full,
}
use headless_db_mcp.ClickHouse.Tsv.Unescaping.{
  Renders, unescape_text-Renders, Renders-Lacks, RendersCell, parse_data_cell-Renders,
  RendersCell-Lacks,
}
use headless_db_mcp.Core.{CellValue}
use headless_db_mcp.Prelude.{
  ◌==◌, nat_eq, text_eq, List, [], ◌∷◌, ◌++◌, map, ◌≡◌, refl, ap, ◌∙◌, arith, All, All-append, Text,
  length, ok, err, if◌then◌else◌,
}
use headless_db_mcp.Strings.{split, join}
use headless_db_mcp.Strings.Splits.{Lacks, split-append, split-join}

-- The texts render the values one by one.
abbrev pub RendersAll {ℓ} : {A : Type ℓ} → (A → Text → Type 0) → List A → List Text → Type 0
RendersAll R [] [] = Unit
RendersAll R (a ∷ vs) (t ∷ ts) = R a t × RendersAll R vs ts
RendersAll R _ _ = ⊥

-- `line` holds the values, with tabs between their renderings.
pub record RendersLine {A : Type 0} (R : A → Text → Type 0) (values : List A) (line : Text)
    : Type 0 where
  pub first : Text
  pub others : List Text
  pub renders : RendersAll R values (first ∷ others)
  pub joined : line ≡ join b'\t' (first ∷ others)

abbrev pub RendersNames : List Text → Text → Type 0
RendersNames = RendersLine Renders

abbrev pub RendersRow : List CellValue → Text → Type 0
RendersRow = RendersLine RendersCell

module _ {A : Type 0} {R : A → Text → Type 0}
    (lacks : (a : A) (t : Text) → R a t → Lacks b'\t' t × Lacks b'\n' t) where
  All-Lacks :
      (vs : List A) (ts : List Text)
      → RendersAll R vs ts
      → All (Lacks b'\t') ts × All (Lacks b'\n') ts
  All-Lacks [] [] h = (tt, tt)
  All-Lacks [] (t ∷ ts) h = absurd h
  All-Lacks (a ∷ vs) [] h = absurd h
  All-Lacks (a ∷ vs) (t ∷ ts) h =
      let (x, y) = lacks a t h.0 in let (xs, ys) = All-Lacks vs ts h.1 in ((x, xs), (y, ys))

  line-split :
      {vs : List A} {line : Text} (r : RendersLine R vs line)
      → split b'\t' line ≡ r.first ∷ r.others
  line-split {vs} r =
      rw r.joined
        (split-join b'\t' r.first r.others (All-Lacks vs (r.first ∷ r.others) r.renders).0)

  join-Lacks : (ts : List Text) → All (Lacks b'\n') ts → Lacks b'\n' (join b'\t' ts)
  unfolding join
  join-Lacks [] h = tt
  join-Lacks (t ∷ []) h = h.0
  join-Lacks (t ∷ u ∷ ts) h =
      All-append _ t (b'\t' ∷ join b'\t' (u ∷ ts)) h.0 (refl, join-Lacks (u ∷ ts) h.1)

  line-Lacks : {vs : List A} {line : Text} → RendersLine R vs line → Lacks b'\n' line
  line-Lacks {vs} r =
      rw r.joined (join-Lacks (r.first ∷ r.others) (All-Lacks vs (r.first ∷ r.others) r.renders).1)

module _ {A : Type 0} {R : A → Text → Type 0} (f : Text → A)
    (reads : (a : A) (t : Text) → R a t → f t ≡ a) where
  map-reads : (vs : List A) (ts : List Text) → RendersAll R vs ts → map f ts ≡ vs
  map-reads [] [] h = refl
  map-reads [] (t ∷ ts) h = absurd h
  map-reads (a ∷ vs) [] h = absurd h
  map-reads (a ∷ vs) (t ∷ ts) h = rw (reads a t h.0, map-reads vs ts h.1)

texts-reads : {names : List Text} {line : Text} → RendersNames names line → texts line ≡ names
texts-reads {names} r = rw (line-split (λ a t h. Renders-Lacks h) r) (
    map-reads unescape_text (λ a t h. unescape_text-Renders h) names (r.first ∷ r.others) r.renders)

parse_row-reads : {row : List CellValue} {line : Text} → RendersRow row line → parse_row line ≡ row
unfolding parse_row
parse_row-reads {row} r = rw (line-split (λ a t h. RendersCell-Lacks h) r) (
    map-reads parse_data_cell (λ a t h. parse_data_cell-Renders h) row (r.first ∷ r.others)
      r.renders)

-- Every line ends in a newline.
abbrev pub unlines : List Text → Text
unlines [] = []
unlines (line ∷ lines) = line ++ (b'\n' ∷ unlines lines)

split-unlines :
    (lines : List Text) → All (Lacks b'\n') lines → split b'\n' (unlines lines) ≡ lines ++ ([] ∷ [])
split-unlines [] h = unfold split in refl
split-unlines (line ∷ lines) h =
    split-append b'\n' line _ h.0 ∙ ap (◌∷◌ line) (split-unlines lines h.1)

pop_empty_last-concat : (lines : List Text) → pop_empty_last (lines ++ ([] ∷ [])) ≡ lines
unfolding pop_empty_last
pop_empty_last-concat [] = refl
pop_empty_last-concat (line ∷ []) = refl
pop_empty_last-concat (line ∷ next ∷ lines) = ap (◌∷◌ line) (pop_empty_last-concat (next ∷ lines))

split_lines-unlines :
    (lines : List Text) → All (Lacks b'\n') lines → split_lines (unlines lines) ≡ lines
unfolding split_lines
split_lines-unlines lines h =
    ap pop_empty_last (split-unlines lines h) ∙ pop_empty_last-concat lines

parse_full_lines :
    (line : Text) (lines : List Text)
    → parse_full (unlines (line ∷ lines)) ≡ parse_lines (split_lines (unlines (line ∷ lines)))
unfolding parse_full
parse_full_lines [] lines = refl
parse_full_lines (c ∷ line) lines = refl

row_lines-Lacks :
    (rows : List (List CellValue)) (lines : List Text)
    → RendersAll RendersRow rows lines
    → All (Lacks b'\n') lines
row_lines-Lacks [] [] h = tt
row_lines-Lacks [] (l ∷ lines) h = absurd h
row_lines-Lacks (r ∷ rows) [] h = absurd h
row_lines-Lacks (r ∷ rows) (l ∷ lines) h =
    (line-Lacks (λ a t k. RendersCell-Lacks k) h.0, row_lines-Lacks rows lines h.1)

module _ {names types : List Text} {names_line types_line : Text}
    (n : RendersNames names names_line) (t : RendersNames types types_line)
    (rows : List (List CellValue)) (lines : List Text) (r : RendersAll RendersRow rows lines) where
  body_lines :
      split_lines (unlines (names_line ∷ types_line ∷ lines)) ≡ names_line ∷ types_line ∷ lines
  body_lines = split_lines-unlines _ (
    line-Lacks (λ a s k. Renders-Lacks k) n,
    (line-Lacks (λ a s k. Renders-Lacks k) t, row_lines-Lacks rows lines r),
  )

  -- A body that renders a line of names, a line of types and the rows is parsed to exactly these if
  -- there are as many types as names, and refused for the mismatch if not.
  pub parse_full-Renders : parse_full (unlines (names_line ∷ types_line ∷ lines)) ≡ (
      if length names == length types
      then ok (record { columns = names; column_type_names = types; rows = rows })
      else err header_mismatch)
  unfolding parse_lines
  parse_full-Renders =
      parse_full_lines names_line (types_line ∷ lines)
      ∙ rw body_lines (
          rw
            (
              texts-reads n,
              texts-reads t,
              map-reads parse_row (λ a s k. parse_row-reads k) rows lines r,
            )
            (ground arith))

  -- Of a body that renders a line of names, a line of types and any rows, the header is read as the
  -- names and the types if there are as many of each, and refused for the mismatch if not.
  pub parse_header-Renders :
      parse_header (unlines (names_line ∷ types_line ∷ lines))
      ≡ (if length names == length types then ok (names, types) else err header_mismatch)
  unfolding parse_header header_of
  parse_header-Renders = rw body_lines (rw (texts-reads n, texts-reads t) (ground arith))
