-- ===== src/Tools/Export/Lines.antt =====
-- The dump has one line for each row.
use headless_db_mcp.Core.{CellValue}
use headless_db_mcp.Core.Results.{QueryResult}
use headless_db_mcp.Prelude.{
  ℕ, Bool, true, false, nat_eq, text_eq, Option, List, [], ◌∷◌, ◌++◌, map, ◌≡◌, refl, ap, ◌∙◌,
  All-append, Text, if◌then◌else◌,
}
use headless_db_mcp.Strings.{split}
use headless_db_mcp.Strings.Splits.{Lacks, split-append}
use headless_db_mcp.Tools.Export.{
  cell_to_json, render_cells, render_row, render_rows, render_jsonl, head_or_empty, tail,
}
use headless_db_mcp.Wire.JsonRpc.{Value, string}

module _ (parse_f64 : Text → Option ℕ) (print : Value → Text)
    (one_line : (v : Value) → Lacks b'\n' (print v)) where
  separator-Lacks : (first : Bool) → Lacks b'\n' (if first then [] else b',' ∷ [])
  separator-Lacks true = tt
  separator-Lacks false = (refl, tt)

  render_cells-Lacks :
      (first : Bool) (cells : List CellValue) (columns type_names : List Text)
      → Lacks b'\n' (render_cells parse_f64 print first cells columns type_names)
  unfolding render_cells
  render_cells-Lacks first [] columns type_names = tt
  render_cells-Lacks first (cell ∷ cells) columns type_names =
      All-append _ (if first then [] else b',' ∷ []) _ (separator-Lacks first) (
        All-append _ (print (string (head_or_empty columns))) _ (one_line _) (
          refl,
          All-append _ (print (cell_to_json parse_f64 cell (head_or_empty type_names))) _
              (one_line _) (render_cells-Lacks false cells (tail columns) (tail type_names)),
        ))

  render_row-Lacks :
      (result : QueryResult) (row : List CellValue)
      → Lacks b'\n' (render_row parse_f64 print result row)
  unfolding render_row
  render_row-Lacks result row = (
    refl,
    All-append _ (render_cells parse_f64 print true row result.columns result.column_type_names) _
        (render_cells-Lacks true row result.columns result.column_type_names) (refl, tt),
  )

  render_rows-lines :
      (result : QueryResult) (rows : List (List CellValue))
      → split b'\n' (render_rows parse_f64 print result rows)
        ≡ map (render_row parse_f64 print result) rows ++ ([] ∷ [])
  render_rows-lines result [] = unfold split in refl
  render_rows-lines result (row ∷ rows) =
      split-append b'\n' (render_row parse_f64 print result row) _ (render_row-Lacks result row)
      ∙ ap (◌∷◌ (render_row parse_f64 print result row)) (render_rows-lines result rows)

  -- Given that printed JSON has no newline in it: the lines of the dump are the objects of the rows,
  -- in their order, and an empty rest behind the last newline.
  pub render_jsonl-lines :
      (result : QueryResult)
      → split b'\n' (render_jsonl parse_f64 print result)
        ≡ map (render_row parse_f64 print result) result.rows ++ ([] ∷ [])
  unfolding render_jsonl
  render_jsonl-lines result = render_rows-lines result result.rows
