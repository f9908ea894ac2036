-- ===== src/Redis/Stream/Bounded.antt =====
-- The shape and the size of what a stream yields, whatever the server answers.
use headless_db_mcp.Core.{CellValue, DriverError}
use headless_db_mcp.Core.Results.{
  ColumnInfo, StreamElement, header, rows, emergency_max, take, length-take,
}
use headless_db_mcp.Prelude.{
  ℕ, zero, suc, ◌+◌, ◌-◌, ◌≤◌, ◌<◌, Bool, true, false, ◌||◌, ltb, leb, ◌==◌, nat_eq, text_eq, List,
  [], ◌∷◌, map, ◌≡◌, refl, ap, inl, inr, arith, Text, length, Result, ok, err, Bool-cases,
  Result-cases,
}
use headless_db_mcp.Redis.Query.{Client}
use headless_db_mcp.Redis.Reply.{RedisError}
use headless_db_mcp.Redis.Stream.{
  ScanSpec, Round, scanned, stopped, Streamed, fit, yield_rows, after_round, batch_round,
  scan_answered, scan_round, scan_loop, scan_command, stream_columns, stream_spec, stream_rows,
  yield_header,
}
use headless_db_mcp.Redis.Keys.{fetch_batch}
use headless_db_mcp.Redis.Schema.{column_names, columns_for, column}
use headless_db_mcp.Redis.Keys.Widths.{HaveWidth, fetch_batch-HaveWidth}

-- Batches of rows with `n` cells each, none of them empty.
abbrev pub AreBatches : ℕ → List StreamElement → Type 0
AreBatches n [] = Unit
AreBatches n (header h ∷ elements) = ⊥
AreBatches n (rows batch ∷ elements) =
    HaveWidth n batch × (0 < length batch) × AreBatches n elements

abbrev pub row_count : List StreamElement → ℕ
row_count [] = 0
row_count (header h ∷ elements) = row_count elements
row_count (rows batch ∷ elements) = length batch + row_count elements

-- A stream: nothing, or a header and then batches as wide as the header, with no more rows in all
-- than the emergency limit.
abbrev pub IsStream : List StreamElement → Type 0
IsStream [] = Unit
IsStream (rows batch ∷ elements) = ⊥
IsStream (header h ∷ elements) =
    AreBatches (length h.columns) elements × (row_count elements ≤ emergency_max)

take-HaveWidth :
    (n m : ℕ) (batch : List (List CellValue)) → HaveWidth n batch → HaveWidth n (take m batch)
unfolding take
take-HaveWidth n zero batch h = tt
take-HaveWidth n (suc m) [] h = tt
take-HaveWidth n (suc m) (row ∷ batch) h = (h.0, take-HaveWidth n m batch h.1)

module _ {Cmd S : Type 0} (client : Client Cmd S) (to_lowercase quoted : Text → Text) where
  scanned-injective :
      {b b' : List (List CellValue)} {n n' : ℕ}
      → ◌≡◌ {A = Round client to_lowercase quoted} (scanned b n) (scanned b' n')
      → b ≡ b'
  scanned-injective h = cc

module _ {Cmd S : Type 0} (client : Client Cmd S) (to_lowercase quoted : Text → Text)
    (scan : Cmd → S → Result (ℕ × List (List ℕ)) RedisError × S) where
  -- Batches that keep the total within the limit.
  abbrev Fits : ℕ → ℕ → Streamed client to_lowercase quoted → Type 0
  Fits n total (elements, ending, s) =
      AreBatches n elements × (total + row_count elements ≤ emergency_max)

  fit-HaveWidth :
      (n total : ℕ) (batch : List (List CellValue))
      → HaveWidth n batch
      → HaveWidth n (fit client to_lowercase quoted total batch)
  fit-HaveWidth n total batch h = elim (Bool-cases (ltb emergency_max (total + length batch))) [
    | inl e ↦ rw e (take-HaveWidth n (emergency_max - total) batch h)
    | inr e ↦ rw e h
  ]

  length-fit :
      (total : ℕ) (batch : List (List CellValue))
      → total ≤ emergency_max
      → total + length (fit client to_lowercase quoted total batch) ≤ emergency_max
  length-fit total batch h = elim (Bool-cases (ltb emergency_max (total + length batch))) [
    | inl e ↦ rw e (ground (arith, length-take (emergency_max - total) batch))
    | inr e ↦ rw e (ground arith)
  ]

  yield_rows-Fits :
      (n total : ℕ) (batch : List (List CellValue)) (rest : Streamed client to_lowercase quoted)
      → HaveWidth n batch
      → Fits n (total + length batch) rest
      → Fits n total (yield_rows client to_lowercase quoted batch rest)
  yield_rows-Fits n total [] (elements, ending, s) w (f, g) = (f, omega (arith, g))
  yield_rows-Fits n total (row ∷ batch) (elements, ending, s) w (f, g) =
      ((w, omega arith, f), omega (arith, g))

  after_round-Fits :
      (n total : ℕ) (loop : ℕ → ℕ → S → Streamed client to_lowercase quoted)
      (round : Round client to_lowercase quoted) (s : S)
      → total ≤ emergency_max
      → ((batch : List (List CellValue)) (next : ℕ)
          → round ≡ scanned batch next
          → HaveWidth n batch)
      → ((cursor t : ℕ) (s' : S) → t ≤ emergency_max → Fits n t (loop cursor t s'))
      → Fits n total (after_round client to_lowercase quoted scan loop total (round, s))
  after_round-Fits n total loop (stopped e) s h w f = (tt, omega (arith, h))
  after_round-Fits n total loop (scanned batch next) s h w f =
      let fitted = fit client to_lowercase quoted total batch in
      let bound = length-fit total batch h in
      yield_rows-Fits n total fitted _ (fit-HaveWidth n total batch (w batch next refl))
        (elim (Bool-cases (leb emergency_max (total + length fitted) || next == 0)) [
          | inl e ↦ rw e (tt, omega (arith, bound))
          | inr e ↦ rw e (f next (total + length fitted) s bound)
        ])

  module _ (spec : ScanSpec) (names : List Text)
      (known : column_names quoted spec.table ≡ ok names) where
    batch_round-HaveWidth :
        (cursor : ℕ) (r : Result (List (List CellValue)) DriverError × S)
        (batch : List (List CellValue)) (next : ℕ)
        → ((b : List (List CellValue)) → r.0 ≡ ok b → HaveWidth (length names) b)
        → (batch_round client to_lowercase quoted cursor r).0 ≡ scanned batch next
        → HaveWidth (length names) batch
    batch_round-HaveWidth cursor (err e, s) batch next w h = cc
    batch_round-HaveWidth cursor (ok b, s) batch next w h =
        rw (← scanned-injective client to_lowercase quoted h) (w b refl)

    scan_answered-HaveWidth :
        (r : Result (ℕ × List (List ℕ)) RedisError × S) (batch : List (List CellValue)) (next : ℕ)
        → (scan_answered client to_lowercase quoted spec.table r).0 ≡ scanned batch next
        → HaveWidth (length names) batch
    scan_answered-HaveWidth (err e, s) batch next h = cc
    scan_answered-HaveWidth (ok (cursor, keys), s) batch next h =
        batch_round-HaveWidth cursor (fetch_batch client to_lowercase quoted spec.table keys s)
          batch next
          (fetch_batch-HaveWidth client to_lowercase quoted spec.table names known keys s) h

    scan_loop-Fits :
        (fuel cursor total : ℕ) (s : S)
        → total ≤ emergency_max
        → Fits
            (length names)
            total
            (scan_loop client to_lowercase quoted scan fuel spec cursor total s)
    unfolding scan_loop scan_round
    scan_loop-Fits zero cursor total s h = (tt, omega (arith, h))
    scan_loop-Fits (suc fuel) cursor total s h = elim (Bool-cases (leb emergency_max total)) [
      | inl e ↦ rw e (tt, omega (arith, h))
      | inr e ↦ rw e (
          let r = scan (scan_command client to_lowercase quoted spec cursor) s in
          let round = scan_answered client to_lowercase quoted spec.table r in
          after_round-Fits (length names) total
            (scan_loop client to_lowercase quoted scan fuel spec) round.0 round.1 h
            (scan_answered-HaveWidth r) (scan_loop-Fits fuel))
    ]

  length-map : {A B : Type 0} (f : A → B) (l : List A) → length (map f l) ≡ length l
  length-map f [] = refl
  length-map f (a ∷ l) = ap suc (length-map f l)

  yield_header-IsStream :
      (columns : List ColumnInfo) (rest : Streamed client to_lowercase quoted)
      → Fits (length columns) 0 rest
      → IsStream (yield_header client to_lowercase quoted columns rest).0
  yield_header-IsStream columns (elements, ending, s) (f, g) =
      (rw (length-map (λ c. c.name) columns) f, omega (arith, g))

  stream_columns-IsStream :
      (fuel : ℕ) (spec : ScanSpec) (s : S)
      → IsStream
          (stream_columns client to_lowercase quoted scan fuel spec s
            (columns_for quoted spec.table)).0
  unfolding columns_for
  stream_columns-IsStream fuel spec s = elim (Result-cases (column_names quoted spec.table)) [
    | inl (names, e) ↦ rw e (
        let columns = map (column to_lowercase) names in
        let rest = scan_loop client to_lowercase quoted scan fuel spec 0 0 s in
        yield_header-IsStream columns rest (
          rw (length-map (column to_lowercase) names)
            (scan_loop-Fits spec names e fuel 0 0 s (omega arith))))
    | inr (failure, e) ↦ rw e tt
  ]

  stream_spec-IsStream :
      (fuel : ℕ) (connected : Bool) (s : S) (r : Result ScanSpec DriverError)
      → IsStream (stream_spec client to_lowercase quoted scan fuel connected s r).0
  stream_spec-IsStream fuel connected s (err e) = tt
  stream_spec-IsStream fuel false s (ok spec) = tt
  stream_spec-IsStream fuel true s (ok spec) = stream_columns-IsStream fuel spec s

  -- Whatever is written and whatever the server answers, a stream yields nothing, or a header and
  -- then batches that are not empty, each of whose rows has a cell for each column of the header,
  -- and in all at most the emergency limit of rows, after any number of scans.
  pub stream_rows-IsStream :
      (fuel : ℕ) (connected : Bool) (q : Text) (s : S)
      → IsStream (stream_rows client to_lowercase quoted scan fuel connected q s).0
  unfolding stream_rows
  stream_rows-IsStream fuel connected q s = stream_spec-IsStream fuel connected s _
