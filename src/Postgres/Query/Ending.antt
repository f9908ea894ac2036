-- ===== src/Postgres/Query/Ending.antt =====
-- The portal's loop ends, whatever the server answers.
use headless_db_mcp.Core.{CellValue, DriverResult}
use headless_db_mcp.Core.Results.{effective_cap}
use headless_db_mcp.Postgres.Cells.{Row, Reader, convert_rows, row_values}
use headless_db_mcp.Postgres.Errors.{map_query_error}
use headless_db_mcp.Postgres.Query.{
  PgClient, Fetched, nothing_fetched, is_empty, or_nothing, set_columns, name_columns,
  found_columns, Looped, after_rows, after_batch, fetch_size, fetch_loop, finish, in_transaction,
  started, open_portal, execute_user_query,
}
use headless_db_mcp.Prelude.{
  ℕ, zero, suc, ◌+◌, ◌-◌, ◌≤◌, ◌<◌, Bool, ltb, leb, nat_eq, text_eq, Option, none, some, List, [],
  ◌∷◌, ◌++◌, ◌≡◌, refl, ap, ◌∙◌, inl, inr, arith, Text, length, length-append, ok, err, Bool-cases,
  >>=-eq-ok, ok-injective, failing_with,
}

pub length-convert_rows :
    {Raw : Type 0} (reader : Reader Raw) (rows : List (Row Raw)) (values : List (List CellValue))
    → convert_rows reader rows ≡ ok values
    → length values ≡ length rows
unfolding convert_rows
length-convert_rows reader [] values h = rw (← ok-injective h) refl
length-convert_rows reader (row ∷ rows) values h =
    let (cells, first, rest) = >>=-eq-ok (row_values reader row.columns row.values) _ h in
    let (others, later, made) = >>=-eq-ok (convert_rows reader rows) _ rest in
    rw (← ok-injective made) (ap suc (length-convert_rows reader rows others later))

module _ {Raw Stmt Portal S : Type 0} (client : PgClient Raw Stmt Portal S) where
  -- Naming the columns of the first batch leaves the rows as they are.
  pub rows-name_columns :
      (stmt : Stmt) (batch : List (Row Raw)) (f : Fetched)
      → (name_columns client stmt batch f).rows ≡ f.rows
  rows-name_columns stmt batch f = elim (Bool-cases (is_empty f.columns)) [
    | inl e ↦ rw e (rows-set_columns (found_columns client stmt batch))
    | inr e ↦ rw e refl
  ]
    where
      rows-set_columns :
          (found : Option (List Text × List Text)) → (set_columns found f).rows ≡ f.rows
      rows-set_columns none = refl
      rows-set_columns (some pair) = refl

  -- The loop is over, with an answer.
  abbrev pub Ends : {A : Type 0} → Option A → Type 0
  Ends {A} o = (a : A) × (o ≡ some a)

  module _ (stmt : Stmt) (portal : Portal) (cap : ℕ) where
    after_rows-Ends :
        (loop : Fetched → S → Looped client) (n m : ℕ) (f : Fetched)
        (r : DriverResult (List (List CellValue))) (s : S)
        → ((values : List (List CellValue)) → r ≡ ok values → length values ≡ m)
        → ((g : Fetched) → n ≤ m → length g.rows ≡ length f.rows + m → Ends (loop g s))
        → Ends (after_rows client loop n m f r s)
    after_rows-Ends loop n m f (err e) s w h = (_, refl)
    after_rows-Ends loop n m f (ok values) s w h = elim (Bool-cases (ltb m n)) [
      | inl e ↦ rw e (_, refl)
      | inr e ↦ rw e (
          h (record f { rows = f.rows ++ values }) (ground arith)
            (length-append f.rows values ∙ ap (λ k. length f.rows + k) (w values refl)))
    ]

    after_batch-Ends :
        (loop : Fetched → S → Looped client) (n : ℕ) (f : Fetched)
        (r : DriverResult (List (Row Raw)) × S)
        → ((g : Fetched) (s : S) → length f.rows + n ≤ length g.rows → Ends (loop g s))
        → Ends (after_batch client loop stmt n f r)
    after_batch-Ends loop n f (err e, s) h = (_, refl)
    after_batch-Ends loop n f (ok batch, s) h =
        after_rows-Ends loop n (length batch) (name_columns client stmt batch f)
          (convert_rows client.reader batch) s (length-convert_rows client.reader batch)
          (λ g enough more. h g s (rw (more, rows-name_columns stmt batch f) (omega arith)))

    pub fetch_loop-Ends :
        (fuel : ℕ) (f : Fetched) (s : S)
        → cap - length f.rows < fuel
        → Ends (fetch_loop client fuel stmt portal cap f s)
    unfolding fetch_loop
    fetch_loop-Ends zero f s h = absurd (omega arith)
    fetch_loop-Ends (suc fuel) f s h = elim (Bool-cases (leb cap (length f.rows))) [
      | inl e ↦ rw e (_, refl)
      | inr e ↦ rw e (
          after_batch-Ends (fetch_loop client fuel stmt portal cap) (fetch_size client cap f) f
            (failing_with map_query_error (client.query_portal portal (fetch_size client cap f) s))
            (λ g s' more. fetch_loop-Ends fuel g s' (ground arith)))
    ]

  finish-Ends : (elapsed : ℕ) (o : Looped client) → Ends o → Ends (finish client elapsed o)
  finish-Ends elapsed none h = absurd cc
  finish-Ends elapsed (some (err e, s)) h = (_, refl)
  finish-Ends elapsed (some (ok f, s)) h = (_, refl)

  in_transaction-Ends :
      (elapsed cap : ℕ) (r : DriverResult (Stmt × Portal) × S)
      → Ends (in_transaction client elapsed cap r)
  in_transaction-Ends elapsed cap (err e, s) = (_, refl)
  in_transaction-Ends elapsed cap (ok (stmt, portal), s) =
      finish-Ends elapsed _
        (fetch_loop-Ends stmt portal cap (suc cap) nothing_fetched s (omega arith))

  started-Ends :
      (elapsed : ℕ) (sql : Text) (cap : ℕ) (parameters : List CellValue)
      (r : DriverResult (Unit {0}) × S)
      → Ends (started client elapsed sql cap parameters r)
  started-Ends elapsed sql cap parameters (err e, s) = (_, refl)
  started-Ends elapsed sql cap parameters (ok u, s) =
      in_transaction-Ends elapsed cap (open_portal client sql parameters s)

  -- A query of a user comes to an end, whatever the server answers, even if it answers with more or
  -- fewer rows than it was asked for.
  pub execute_user_query-Ends :
      (elapsed : ℕ) (sql : Text) (row_cap : Option ℕ) (parameters : Option (List CellValue))
      (read_only : Bool) (s : S)
      → Ends (execute_user_query client elapsed sql row_cap parameters read_only s)
  unfolding execute_user_query
  execute_user_query-Ends elapsed sql row_cap parameters read_only s =
      started-Ends elapsed sql (effective_cap row_cap) (or_nothing parameters)
        (failing_with map_query_error (client.start read_only s))
