-- ===== src/Postgres/Query/Reading.antt =====
-- The portal's loop reads the rows behind the portal in their order, up to the cap.
use headless_db_mcp.Core.{CellValue, DriverResult}
use headless_db_mcp.Core.Results.{min, take, drop, length-take, length-drop, take-all, take-drop}
use headless_db_mcp.Postgres.Cells.{Row, Reader, convert_rows, row_values}
use headless_db_mcp.Postgres.Errors.{PgError, map_query_error}
use headless_db_mcp.Postgres.Query.{
  PgClient, Fetched, is_empty, set_columns, name_columns, found_columns, Looped, after_rows,
  after_batch, fetch_size, fetch_loop,
}
use mathlib.Core.List.{append_assoc, append-nil}
use headless_db_mcp.Postgres.Query.Ending.{rows-name_columns, length-convert_rows}
use headless_db_mcp.Prelude.{
  ℕ, zero, suc, ◌+◌, ◌-◌, ◌≤◌, ◌<◌, true, false, ltb, leb, nat_eq, text_eq, Option, none, some,
  List, [], ◌∷◌, ◌++◌, ◌≡◌, refl, sym, ap, ◌∙◌, inl, inr, arith, Text, length, length-append,
  Result, ok, err, Bool-cases, >>=-eq-ok, ok-injective, failing_with,
}

pub convert_rows-append :
    {Raw : Type 0} (reader : Reader Raw) (xs ys : List (Row Raw)) (us vs : List (List CellValue))
    → convert_rows reader xs ≡ ok us
    → convert_rows reader ys ≡ ok vs
    → convert_rows reader (xs ++ ys) ≡ ok (us ++ vs)
unfolding convert_rows
convert_rows-append reader [] ys us vs h k = k ∙ ap (λ us. ok (us ++ vs)) (ok-injective h)
convert_rows-append reader (row ∷ xs) ys us vs h k =
    let (cells, first, rest) = >>=-eq-ok (row_values reader row.columns row.values) _ h in
    let (others, later, made) = >>=-eq-ok (convert_rows reader xs) _ rest in
    rw (first, convert_rows-append reader xs ys others vs later k, ← ok-injective made) refl

-- The law of portals: `pending` is the rows that a portal has not given yet, and a fetch of some takes
-- the first of them.
pub record IsCursor {Raw Stmt Portal S : Type 0} (client : PgClient Raw Stmt Portal S)
    (pending : Portal → S → List (Row Raw)) : Type 0 where
  pub fetches :
      (p : Portal) (n : ℕ) (s s' : S) (batch : List (Row Raw))
      → 0 < n
      → client.query_portal p n s ≡ (ok batch, s')
      → (batch ≡ take n (pending p s)) × (pending p s' ≡ drop n (pending p s))

module _ {Raw Stmt Portal S : Type 0} (client : PgClient Raw Stmt Portal S)
    (pending : Portal → S → List (Row Raw)) (cursor : IsCursor client pending) where
  is_truncated-name_columns :
      (stmt : Stmt) (batch : List (Row Raw)) (f : Fetched)
      → (name_columns client stmt batch f).is_truncated ≡ f.is_truncated
  is_truncated-name_columns stmt batch f = elim (Bool-cases (is_empty f.columns)) [
    | inl e ↦ rw e (is_truncated-set_columns (found_columns client stmt batch))
    | inr e ↦ rw e refl
  ]
    where
      is_truncated-set_columns :
          (found : Option (List Text × List Text))
          → (set_columns found f).is_truncated ≡ f.is_truncated
      is_truncated-set_columns none = refl
      is_truncated-set_columns (some pair) = refl

  -- From `rows` on, `k` more of the rows in `left` were read, and it is known whether that was all.
  abbrev pub ReadsOn : ℕ → List (Row Raw) → List (List CellValue) → Fetched → Type 0
  ReadsOn k left rows g =
      (values : List (List CellValue)) × (convert_rows client.reader (take k left) ≡ ok values)
      × (g.rows ≡ rows ++ values)
      × (g.is_truncated ≡ leb k (length left))

  -- A batch that is all that was asked for, and what the later batches give.
  ReadsOn-full :
      (n k : ℕ) (left : List (Row Raw)) (rows values : List (List CellValue)) (g : Fetched)
      → n ≤ k
      → n ≤ length left
      → convert_rows client.reader (take n left) ≡ ok values
      → ReadsOn (k - n) (drop n left) (rows ++ values) g
      → ReadsOn k left rows g
  ReadsOn-full n k left rows values g h l first (others, later, made, truncated) = (
    values ++ others,
    ap (convert_rows client.reader) (take-drop n k left h)
        ∙ convert_rows-append client.reader (take n left) (take (k - n) (drop n left)) values others
            first later,
    made ∙ append_assoc rows values others,
    truncated ∙ ap (leb (k - n)) (length-drop n left) ∙ ground arith,
  )

  -- A batch that is shorter is the last one.
  ReadsOn-short :
      (n k : ℕ) (left : List (Row Raw)) (rows values : List (List CellValue)) (g : Fetched)
      → n ≤ k
      → length left < n
      → convert_rows client.reader (take n left) ≡ ok values
      → g.rows ≡ rows ++ values
      → g.is_truncated ≡ false
      → ReadsOn k left rows g
  ReadsOn-short n k left rows values g h l first made truncated = (
    values,
    ap (convert_rows client.reader)
          (take-all k left (omega arith) ∙ sym (take-all n left (omega arith)))
        ∙ first,
    made,
    truncated ∙ ground arith,
  )

  ReadsOn-none :
      (k : ℕ) (left : List (Row Raw)) (rows : List (List CellValue)) (g : Fetched)
      → k ≡ 0
      → g.rows ≡ rows
      → g.is_truncated ≡ true
      → ReadsOn k left rows g
  unfolding take convert_rows
  ReadsOn-none k left rows g z made truncated =
      rw z ([], refl, made ∙ sym (append-nil rows), truncated ∙ ground arith)

  looped-injective :
      {f g : Fetched} {s s' : S}
      → ◌≡◌ {A = Looped client} (some (ok f, s)) (some (ok g, s'))
      → f ≡ g
  looped-injective h = cc

  module _ (stmt : Stmt) (portal : Portal) (cap : ℕ) where
    -- How the loop's answer continues what was fetched.
    abbrev pub Reads : Fetched → S → Fetched → Type 0
    Reads f s g = ReadsOn (cap - length f.rows) (pending portal s) f.rows g

    -- Behind a batch of the first `n` of the rows in `left`.
    after_rows-ReadsOn :
        (loop : Fetched → S → Looped client) (n : ℕ) (batch left : List (Row Raw)) (f : Fetched)
        (r : DriverResult (List (List CellValue))) (s s' : S) (g : Fetched)
        → n ≤ cap - length f.rows
        → batch ≡ take n left
        → pending portal s ≡ drop n left
        → convert_rows client.reader batch ≡ r
        → f.is_truncated ≡ false
        → ((h : Fetched) → h.is_truncated ≡ false → loop h s ≡ some (ok g, s') → Reads h s g)
        → after_rows client loop n (length batch) f r s ≡ some (ok g, s')
        → ReadsOn (cap - length f.rows) left f.rows g
    after_rows-ReadsOn loop n batch left f (err e) s s' g b q p c t l h = absurd cc
    after_rows-ReadsOn loop n batch left f (ok values) s s' g b q p c t l h =
        let l_batch : length batch ≡ min n (length left) = ap (length {0}) q ∙ length-take n left in
        elim (Bool-cases (ltb (length batch) n)) [
          | inl e ↦
              let same : record f { rows = f.rows ++ values } ≡ g = looped-injective (rw e at h) in
              ReadsOn-short n (cap - length f.rows) left f.rows values g b (ground (arith, l_batch))
                (rw q at c) (ap (λ g. g.rows) (sym same)) (ap (λ g. g.is_truncated) (sym same) ∙ t)
          | inr e ↦
              let later = l (record f { rows = f.rows ++ values }) t (rw e at h) in
              let grown : length (f.rows ++ values) ≡ length f.rows + n =
                length-append f.rows values
                ∙ ap (λ k. length f.rows + k)
                    (length-convert_rows client.reader batch values c ∙ ground (arith, l_batch)) in
              let count : cap - length (f.rows ++ values) ≡ cap - length f.rows - n =
                omega (arith, grown) in
              ReadsOn-full n (cap - length f.rows) left f.rows values g b (ground (arith, l_batch))
                (rw q at c) (rw (← p, ← count) later)
        ]

    after_batch-Reads :
        (loop : Fetched → S → Looped client) (f : Fetched) (s s' : S) (g : Fetched)
        (r : Result (List (Row Raw)) PgError × S)
        → length f.rows < cap
        → f.is_truncated ≡ false
        → client.query_portal portal (fetch_size client cap f) s ≡ r
        → ((h : Fetched) (t : S)
            → h.is_truncated ≡ false
            → loop h t ≡ some (ok g, s')
            → Reads h t g)
        → after_batch client loop stmt (fetch_size client cap f) f (failing_with map_query_error r)
          ≡ some (ok g, s')
        → Reads f s g
    after_batch-Reads loop f s s' g (err e, t) b u q l h = absurd cc
    after_batch-Reads loop f s s' g (ok batch, t) b u q l h =
        let n = fetch_size client cap f in
        let (first, rest) = cursor.fetches portal n s t batch (ground arith) q in
        let named = name_columns client stmt batch f in
        let same : named.rows ≡ f.rows = rows-name_columns client stmt batch f in
        let reads =
          after_rows-ReadsOn loop n batch (pending portal s) named
            (convert_rows client.reader batch) t s' g (rw same (ground arith)) first rest refl
            (is_truncated-name_columns stmt batch f ∙ u) (λ h. l h t) h in
        rw same at reads

    pub fetch_loop-Reads :
        (fuel : ℕ) (f : Fetched) (s s' : S) (g : Fetched)
        → f.is_truncated ≡ false
        → fetch_loop client fuel stmt portal cap f s ≡ some (ok g, s')
        → Reads f s g
    unfolding fetch_loop
    fetch_loop-Reads zero f s s' g u h = absurd cc
    fetch_loop-Reads (suc fuel) f s s' g u h = elim (Bool-cases (leb cap (length f.rows))) [
      | inl e ↦
          let same : record f { is_truncated = true } ≡ g = looped-injective (rw e at h) in
          ReadsOn-none (cap - length f.rows) (pending portal s) f.rows g (ground arith)
            (ap (λ g. g.rows) (sym same)) (ap (λ g. g.is_truncated) (sym same))
      | inr e ↦
          after_batch-Reads (fetch_loop client fuel stmt portal cap) f s s' g _ (ground arith) u
            refl (λ h t. fetch_loop-Reads fuel h t s' g) (rw e at h)
    ]
