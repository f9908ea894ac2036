-- ===== src/ClickHouse/Body/Shown.antt =====
-- What a query of a user is to show of the lines of a body, apart from how the body is read.
use headless_db_mcp.ClickHouse.Body.{is_empty, push_last, parse_row}
use headless_db_mcp.ClickHouse.Request.{Http}
use headless_db_mcp.Core.{CellValue, DriverError, DriverResult}
use headless_db_mcp.Core.Results.{take, take-nil}
use headless_db_mcp.Prelude.{
  ℕ, suc, ◌<◌, Bool, true, false, leb, nat_eq, text_eq, List, [], ◌∷◌, ◌++◌, ◌≡◌, refl, sym, ap,
  arith, Text, length, ok, err, ◌>>=◌, if◌then◌else◌,
}
use headless_db_mcp.Strings.Edges.{trim}
use mathlib.Core.List.{append_assoc, append-nil}

-- The lines that are not blank.
unfoldable pub written_lines : List Text → List Text
written_lines [] = []
written_lines (line ∷ lines) =
    let rest = written_lines lines in if is_empty (trim line) then rest else line ∷ rest

-- The lines that a newline ends: all but the last.
unfoldable pub ended_lines : List Text → List Text
ended_lines [] = []
ended_lines (last ∷ []) = []
ended_lines (line ∷ next ∷ lines) = line ∷ ended_lines (next ∷ lines)

written_lines-skip :
    (line : Text) (lines : List Text)
    → is_empty (trim line) ≡ true
    → written_lines (line ∷ lines) ≡ written_lines lines
unfolding written_lines
written_lines-skip line lines e = rw e refl

written_lines-keep :
    (line : Text) (lines : List Text)
    → is_empty (trim line) ≡ false
    → written_lines (line ∷ lines) ≡ line ∷ written_lines lines
unfolding written_lines
written_lines-keep line lines e = rw e refl

ended_lines-cons :
    (line next : Text) (lines : List Text)
    → ended_lines (line ∷ next ∷ lines) ≡ line ∷ ended_lines (next ∷ lines)
unfolding ended_lines
ended_lines-cons line next lines = refl

leb-suc : (k n : ℕ) → leb k n ≡ leb (suc k) (suc n)
leb-suc k n = ground arith

leb-zero : (k : ℕ) → 0 < k → false ≡ leb k 0
leb-zero k h = ground arith

module _ {Client S : Type 0} (http : Http Client S) (columns : List Text) where
  -- Each line as a row.
  abbrev pub parse_rows : List Text → DriverResult (List (List CellValue))
  parse_rows [] = ok []
  parse_rows (line ∷ lines) = do
    row ← parse_row http columns line
    rows ← parse_rows lines
    ok (row ∷ rows)

  abbrev pub answer_with :
      List (List CellValue)
      → Bool
      → List (List CellValue)
      → DriverResult (List (List CellValue) × Bool)
  answer_with rows cut new = ok (rows ++ new, cut)

  -- What goes on from `rows` with the first `k` of the written lines, each as a row: the first that
  -- is none fails. It is cut off if `k` of the written lines are ended.
  abbrev pub shown :
      ℕ → List Text → List (List CellValue) → DriverResult (List (List CellValue) × Bool)
  shown k lines rows =
      parse_rows (take k (written_lines lines))
      >>= answer_with rows (leb k (length (written_lines (ended_lines lines))))

  -- A blank line in front.
  pub shown-skip :
      (k : ℕ) (line next : Text) (lines : List Text) (rows : List (List CellValue))
      → is_empty (trim line) ≡ true
      → shown k (line ∷ next ∷ lines) rows ≡ shown k (next ∷ lines) rows
  shown-skip k line next lines rows e =
      rw
        (
          written_lines-skip line (next ∷ lines) e,
          ended_lines-cons line next lines,
          written_lines-skip line (ended_lines (next ∷ lines)) e,
        )
        refl

  -- Behind the parsing of a written line in front.
  later_shown :
      (b : Bool) (rows : List (List CellValue)) (row : List CellValue)
      (later : DriverResult (List (List CellValue)))
      → ((later >>= λ new. ok (row ∷ new)) >>= answer_with rows b)
        ≡ (later >>= answer_with (rows ++ (row ∷ [])) b)
  later_shown b rows row (err failure) = refl
  later_shown b rows row (ok new) = ap (λ all. ok (all, b)) (sym (append_assoc rows (row ∷ []) new))

  pub shown-cons :
      (k : ℕ) (line next : Text) (lines : List Text) (rows : List (List CellValue))
      (row : List CellValue)
      → is_empty (trim line) ≡ false
      → parse_row http columns line ≡ ok row
      → shown (suc k) (line ∷ next ∷ lines) rows ≡ shown k (next ∷ lines) (rows ++ (row ∷ []))
  unfolding take
  shown-cons k line next lines rows row e p =
      rw
        (
          written_lines-keep line (next ∷ lines) e,
          ended_lines-cons line next lines,
          written_lines-keep line (ended_lines (next ∷ lines)) e,
          p,
          ← leb-suc k (length (written_lines (ended_lines (next ∷ lines)))),
        )
        (later_shown _ rows row _)

  pub shown-err :
      (k : ℕ) (line : Text) (lines : List Text) (rows : List (List CellValue))
      (failure : DriverError)
      → is_empty (trim line) ≡ false
      → parse_row http columns line ≡ err failure
      → shown (suc k) (line ∷ lines) rows ≡ err failure
  unfolding take
  shown-err k line lines rows failure e p = rw (written_lines-keep line lines e, p) refl

  -- Nothing more is wanted.
  pub shown-enough :
      (lines : List Text) (rows : List (List CellValue)) → shown 0 lines rows ≡ ok (rows, true)
  unfolding take
  shown-enough lines rows =
      let all_there : leb 0 (length (written_lines (ended_lines lines))) ≡ true = ground arith in
      rw (append-nil rows, all_there) refl

  -- The last line, which no newline ends.
  pub shown-none :
      (k : ℕ) (last : Text) (rows : List (List CellValue))
      → is_empty (trim last) ≡ true
      → shown (suc k) (last ∷ []) rows ≡ ok (rows, false)
  unfolding take written_lines ended_lines
  shown-none k last rows e =
      rw (written_lines-skip last [] e, append-nil rows, ← leb-zero (suc k) (omega arith)) refl

  pub shown-last :
      (cap k : ℕ) (last : Text) (rows : List (List CellValue)) (r : DriverResult (List CellValue))
      → is_empty (trim last) ≡ false
      → parse_row http columns last ≡ r
      → push_last http columns cap rows r ≡ shown (suc k) (last ∷ []) rows
  unfolding take written_lines ended_lines
  shown-last cap k last rows (err failure) e p = sym (shown-err k last [] rows failure e p)
  shown-last cap k last rows (ok row) e p =
      rw (written_lines-keep last [] e, take-nil k, p, ← leb-zero (suc k) (omega arith)) refl
