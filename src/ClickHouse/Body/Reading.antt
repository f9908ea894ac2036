-- ===== src/ClickHouse/Body/Reading.antt =====
-- The rows that a query of a user shows are the first of the lines of the body's parts.
use headless_db_mcp.ClickHouse.Body.{is_empty, push_row, parse_row, read_lines, read_end, read_body}
use headless_db_mcp.ClickHouse.Body.Cutting.{text_of, arrived, read_body-text_of}
use headless_db_mcp.ClickHouse.Request.{Http}
use headless_db_mcp.Core.{CellValue, DriverResult}
use headless_db_mcp.Prelude.{
  ℕ, suc, ◌-◌, ◌<◌, false, leb, nat_eq, text_eq, List, [], ◌∷◌, ◌++◌, ◌≡◌, ◌≢◌, refl, sym, ◌∙◌, inl,
  inr, arith, Text, length, length-append, ok, err, Bool-cases,
}
use headless_db_mcp.Strings.{split}
use headless_db_mcp.Strings.Splits.{split-nonempty}
use headless_db_mcp.Strings.Edges.{trim}
use headless_db_mcp.ClickHouse.Body.Shown.{
  shown, shown-skip, shown-cons, shown-err, shown-enough, shown-none, shown-last,
}

module _ {Client S : Type 0} (http : Http Client S) (columns : List Text) (cap : ℕ) where
  -- Behind the parsing of a line that is not blank.
  push_row-shown :
      (line next : Text) (lines : List Text) (rows : List (List CellValue))
      (r : DriverResult (List CellValue))
      → length rows < cap
      → is_empty (trim line) ≡ false
      → parse_row http columns line ≡ r
      → ((rows' : List (List CellValue))
          → length rows' < cap
          → read_end http columns cap (read_lines http columns cap rows' (next ∷ lines))
            ≡ shown http columns (cap - length rows') (next ∷ lines) rows')
      → read_end http columns cap (
          push_row http columns cap
            (λ rows'. read_lines http columns cap rows' (next ∷ lines))
            rows
            r)
        ≡ shown http columns (cap - length rows) (line ∷ next ∷ lines) rows
  push_row-shown line next lines rows (err failure) b e p go =
      let count : cap - length rows ≡ suc (cap - suc (length rows)) = omega (arith, b) in
      rw count (sym (shown-err http columns _ line (next ∷ lines) rows failure e p))
  push_row-shown line next lines rows (ok row) b e p go =
      let grown = length-append rows (row ∷ []) in
      let count : cap - length rows ≡ suc (cap - length (rows ++ (row ∷ []))) =
        omega (arith, grown) in
      rw (count, shown-cons http columns _ line next lines rows row e p)
        (elim (Bool-cases (leb cap (length (rows ++ (row ∷ []))))) [
          | inl full ↦
              let none_left : cap - length (rows ++ (row ∷ [])) ≡ 0 = ground arith in
              rw (full, none_left)
                (sym (shown-enough http columns (next ∷ lines) (rows ++ (row ∷ []))))
          | inr more ↦ rw more (go (rows ++ (row ∷ [])) (ground arith))
        ])

  read_end-shown :
      (rows : List (List CellValue)) (lines : List Text)
      → length rows < cap
      → lines ≢ []
      → read_end http columns cap (read_lines http columns cap rows lines)
        ≡ shown http columns (cap - length rows) lines rows
  unfolding read_lines
  read_end-shown rows [] b ne = absurd (ne refl)
  read_end-shown rows (last ∷ []) b ne =
      let count : cap - length rows ≡ suc (cap - suc (length rows)) = omega (arith, b) in
      rw count (elim (Bool-cases (is_empty (trim last))) [
        | inl e ↦ rw e (sym (shown-none http columns _ last rows e))
        | inr e ↦
            rw e (shown-last http columns cap _ last rows (parse_row http columns last) e refl)
      ])
  read_end-shown rows (line ∷ next ∷ lines) b ne = elim (Bool-cases (is_empty (trim line))) [
    | inl e ↦ rw e (
        read_end-shown rows (next ∷ lines) b (λ k. cc)
        ∙ sym (shown-skip http columns (cap - length rows) line next lines rows e))
    | inr e ↦ rw e (
        push_row-shown line next lines rows (parse_row http columns line) b e refl
          (λ rows' b'. read_end-shown rows' (next ∷ lines) b' (λ k. cc)))
  ]

  -- If the cap is not zero, and a body arrives to its end: of the lines of the texts of its parts, each
  -- decoded alone, put one behind the other, a query of a user shows the first that are not blank, as
  -- many as the cap allows, each as the cells of the named columns, or fails as the first of these
  -- that is not a row. It says that it is truncated exactly if at least as many such lines as the cap
  -- are ended by a newline.
  pub read_body-shown :
      (parts : List (List ℕ))
      → 0 < cap
      → read_body http columns cap (arrived parts)
        ≡ shown http columns cap (split b'\n' (text_of parts)) []
  read_body-shown parts b =
      let whole : cap - 0 ≡ cap = omega arith in
      let (p, ps, e) = split-nonempty b'\n' (text_of parts) in
      rw whole at (
        read_body-text_of http columns cap parts
        ∙ read_end-shown [] (split b'\n' (text_of parts)) b (rw e (λ k. cc)))
