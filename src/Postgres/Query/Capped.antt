-- ===== src/Postgres/Query/Capped.antt =====
-- What a query of a user shows of the rows behind its portal.
use headless_db_mcp.Core.{CellValue, DriverResult}
use headless_db_mcp.Core.Results.{QueryResult, effective_cap, take, length-take}
use headless_db_mcp.Postgres.Cells.{Row, convert_rows}
use headless_db_mcp.Postgres.Errors.{PgError, map_query_error}
use headless_db_mcp.Postgres.Query.{
  PgClient, Fetched, nothing_fetched, or_nothing, Looped, fetch_loop, finish, in_transaction,
  started, open_portal, result_of, execute_user_query,
}
use headless_db_mcp.Postgres.Query.Ending.{length-convert_rows}
use headless_db_mcp.Prelude.{
  ℕ, suc, ◌-◌, ◌≤◌, Bool, leb, nat_eq, text_eq, Option, none, some, List, [], ◌≡◌, refl, sym, ap,
  ◌∙◌, arith, Text, length, Result, ok, err, chain, failing_with,
}
use headless_db_mcp.Postgres.Query.Reading.{IsCursor, ReadsOn, fetch_loop-Reads}

module _ {Raw Stmt Portal S : Type 0} (client : PgClient Raw Stmt Portal S)
    (pending : Portal → S → List (Row Raw)) (cursor : IsCursor client pending) where
  -- A result against the rows behind the portal.
  pub record ShowsFirst (cap : ℕ) (left : List (Row Raw)) (result : QueryResult) : Type 0 where
    pub first_rows : convert_rows client.reader (take cap left) ≡ ok result.rows
    pub truncated : result.is_truncated ≡ leb cap (length left)
    pub affected : result.rows_affected ≡ length result.rows
    pub bounded : length result.rows ≤ cap

  ReadsOn-ShowsFirst :
      (elapsed cap : ℕ) (left : List (Row Raw)) (g : Fetched)
      → ReadsOn client pending cursor (cap - 0) left [] g
      → ShowsFirst cap left (result_of elapsed (length g.rows) g)
  ReadsOn-ShowsFirst elapsed cap left g reads =
      let whole : cap - 0 ≡ cap = omega arith in
      let (values, first, made, truncated) = rw whole at reads in
      record {
        first_rows = first ∙ ap ok (sym made);
        truncated = truncated;
        affected = refl;
        bounded =
            rw (made, length-convert_rows client.reader (take cap left) values first)
              (ground (arith, length-take cap left));
      }

  finish-commit :
      {b result : QueryResult} {s' : S} (r : Result (Unit {0}) PgError × S)
      → ◌≡◌ {A = Option (DriverResult QueryResult × S)}
          (some (chain (failing_with map_query_error r) λ u t. (ok b, t)))
          (some (ok result, s'))
      → (r ≡ (ok tt, s')) × (b ≡ result)
  finish-commit (err e, t) h = absurd cc
  finish-commit (ok u, t) h = (cc, cc)

  finish-eq-ok :
      (elapsed : ℕ) (o : Looped client) (result : QueryResult) (s' : S)
      → finish client elapsed o ≡ some (ok result, s')
      → (g : Fetched) × (s : S) × (o ≡ some (ok g, s))
        × (client.commit s ≡ (ok tt, s'))
        × (result_of elapsed (length g.rows) g ≡ result)
  finish-eq-ok elapsed none result s' h = absurd cc
  finish-eq-ok elapsed (some (err e, s)) result s' h = absurd cc
  finish-eq-ok elapsed (some (ok g, s)) result s' h =
      let (committed, made) = finish-commit (client.commit s) h in (g, s, refl, committed, made)

  -- How a query of a user that succeeds went.
  pub record Went (sql : Text) (cap : ℕ) (parameters : List CellValue) (read_only : Bool)
      (before after : S) (result : QueryResult) : Type 0 where
    pub statement : Stmt
    pub opened_portal : Portal
    pub begun : S
    pub opened : S
    pub finished : S
    pub starts : client.start read_only before ≡ (ok tt, begun)
    pub opens : open_portal client sql parameters begun ≡ (ok (statement, opened_portal), opened)
    pub shows : ShowsFirst cap (pending opened_portal opened) result
    pub commits : client.commit finished ≡ (ok tt, after)

  in_transaction-Went :
      (elapsed cap : ℕ) (sql : Text) (parameters : List CellValue) (read_only : Bool)
      (before begun after : S) (result : QueryResult) (r : DriverResult (Stmt × Portal) × S)
      → client.start read_only before ≡ (ok tt, begun)
      → open_portal client sql parameters begun ≡ r
      → in_transaction client elapsed cap r ≡ some (ok result, after)
      → Went sql cap parameters read_only before after result
  in_transaction-Went elapsed cap sql parameters read_only before begun after result (err e, s) b o
        h =
      absurd cc
  in_transaction-Went elapsed cap sql parameters read_only before begun after result
        (ok (stmt, portal), s) b o h =
      let (g, t, looped, committed, made) =
        finish-eq-ok elapsed (fetch_loop client (suc cap) stmt portal cap nothing_fetched s) result
          after h in
      let reads =
        fetch_loop-Reads client pending cursor stmt portal cap (suc cap) nothing_fetched s t g refl
          looped in
      record {
        statement = stmt;
        opened_portal = portal;
        begun = begun;
        opened = s;
        finished = t;
        starts = b;
        opens = o;
        shows = rw (← made) (ReadsOn-ShowsFirst elapsed cap (pending portal s) g reads);
        commits = committed;
      }

  started-Went :
      (elapsed cap : ℕ) (sql : Text) (parameters : List CellValue) (read_only : Bool)
      (before after : S) (result : QueryResult) (r : Result (Unit {0}) PgError × S)
      → client.start read_only before ≡ r
      → started client elapsed sql cap parameters (failing_with map_query_error r)
        ≡ some (ok result, after)
      → Went sql cap parameters read_only before after result
  started-Went elapsed cap sql parameters read_only before after result (err e, s) b h = absurd cc
  started-Went elapsed cap sql parameters read_only before after result (ok u, s) b h =
      in_transaction-Went elapsed cap sql parameters read_only before s after result
        (open_portal client sql parameters s) b refl h

  -- Given that a portal hands out its rows in order: a query of a user that succeeds has run in one
  -- transaction, read-only if it was asked to be, that was committed; it shows the first rows behind
  -- its portal, as many as the cap allows, and says that it is truncated exactly if there are at
  -- least as many rows as the cap.
  pub execute_user_query-Went :
      (elapsed : ℕ) (sql : Text) (row_cap : Option ℕ) (parameters : Option (List CellValue))
      (read_only : Bool) (s s' : S) (result : QueryResult)
      → execute_user_query client elapsed sql row_cap parameters read_only s ≡ some (ok result, s')
      → Went sql (effective_cap row_cap) (or_nothing parameters) read_only s s' result
  unfolding execute_user_query
  execute_user_query-Went elapsed sql row_cap parameters read_only s s' result h =
      started-Went elapsed (effective_cap row_cap) sql (or_nothing parameters) read_only s s' result
        (client.start read_only s) refl h
