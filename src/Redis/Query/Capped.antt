-- ===== src/Redis/Query/Capped.antt =====
-- What a capped query shows of the reply, and what a read-only one sends.
use headless_db_mcp.Core.{CellValue, DriverError}
use headless_db_mcp.Core.Results.{
  QueryResult, effective_cap, effective_cap-le, emergency_max, take, length-take, take-all,
}
use headless_db_mcp.Prelude.{
  ℕ, ◌≤◌, Bool, false, ltb, nat_eq, text_eq, Option, some, List, ◌≡◌, refl, sym, ◌∙◌, inl, inr,
  arith, Text, length, Result, ok, err, Bool-cases, >>=-eq-ok, ok-injective,
}
use headless_db_mcp.Redis.Reply.{Reply, RedisError}
use headless_db_mcp.Redis.Query.{
  Client, value_to_query_result, answer_of, send, build, execute_parameterized, cap_rows, or_none,
  allowed, execute_allowed, execute_user_query,
}

module _ {Cmd S : Type 0} (client : Client Cmd S) where
  value-untruncated : (r : Reply) → (value_to_query_result client r).is_truncated ≡ false
  unfolding value_to_query_result
  value-untruncated (Reply.array items) = refl
  value-untruncated (Reply.set items) = refl
  value-untruncated (Reply.pairs ps) = refl
  value-untruncated _ = refl

  answer-untruncated :
      (elapsed : ℕ) (r : Result Reply RedisError) (result : QueryResult)
      → answer_of client elapsed r ≡ ok result
      → result.is_truncated ≡ false
  answer-untruncated elapsed (err e) result h = cc
  answer-untruncated elapsed (ok value) result h = rw (← ok-injective h) (value-untruncated value)

  send-untruncated :
      (elapsed : ℕ) (c : Result Cmd DriverError) (s : S) (result : QueryResult)
      → (send client elapsed c s).0 ≡ ok result
      → result.is_truncated ≡ false
  send-untruncated elapsed (err e) s result h = cc
  send-untruncated elapsed (ok c) s result h =
      answer-untruncated elapsed (client.query_async c s).0 result h

  -- The rows of a capped result against those of the whole one.
  pub record IsCapped (row_cap : Option ℕ) (full result : QueryResult) : Type 0 where
    pub rows_taken : result.rows ≡ take (effective_cap row_cap) full.rows
    pub truncated : result.is_truncated ≡ ltb (effective_cap row_cap) (length full.rows)
    pub affected : result.rows_affected ≡ length result.rows
    pub bounded : length result.rows ≤ emergency_max

  cap_rows-IsCapped :
      (row_cap : Option ℕ) (full : QueryResult)
      → full.is_truncated ≡ false
      → IsCapped row_cap full (cap_rows client (effective_cap row_cap) full)
  unfolding cap_rows
  cap_rows-IsCapped row_cap full h =
      let cap = effective_cap row_cap in
      let bound = effective_cap-le row_cap in
      elim (Bool-cases (ltb cap (length full.rows))) [
        | inl e ↦ rw e (record {
          rows_taken = refl;
          truncated = sym e;
          affected = refl;
          bounded = ground (arith, length-take cap full.rows);
        })
        | inr e ↦ rw e (record {
          rows_taken = sym (take-all cap full.rows (ground arith));
          truncated = h ∙ sym e;
          affected = refl;
          bounded = ground arith;
        })
      ]

  whole-untruncated :
      (elapsed : ℕ) (q : Text) (parameters : List CellValue) (s : S) (result : QueryResult)
      → (execute_parameterized client elapsed q parameters s).0 ≡ ok result
      → result.is_truncated ≡ false
  unfolding execute_parameterized
  whole-untruncated elapsed q parameters s result h =
      send-untruncated elapsed (build client q (some parameters)) s result h

  execute_allowed-IsCapped :
      (elapsed : ℕ) (q : Text) (row_cap : Option ℕ) (parameters : Option (List CellValue)) (s : S)
      (result : QueryResult) (a : Result (Unit {0}) DriverError)
      → (execute_allowed client a elapsed q row_cap parameters s).0 ≡ ok result
      → (full : QueryResult) × ((execute_parameterized client elapsed q
            (or_none client parameters)
            s).0
          ≡ ok full)
        × IsCapped row_cap full result
  execute_allowed-IsCapped elapsed q row_cap parameters s result (err e) h = cc
  execute_allowed-IsCapped elapsed q row_cap parameters s result (ok u) h =
      let (full, sent, capped) =
        >>=-eq-ok (execute_parameterized client elapsed q (or_none client parameters) s).0 _ h in
      let whole = whole-untruncated elapsed q (or_none client parameters) s full sent in
      (full, sent, rw (← ok-injective capped) (cap_rows-IsCapped row_cap full whole))

  -- A query of a user that succeeds shows the first rows of what the command answers, as many as the
  -- cap allows, which is the given one or the emergency limit, whichever is less; the result says
  -- that it is truncated exactly if the answer has more rows than the cap, and counts the rows that
  -- it shows, which are never more than the emergency limit.
  pub execute_user_query-IsCapped :
      (read_only : Bool) (elapsed : ℕ) (q : Text) (row_cap : Option ℕ)
      (parameters : Option (List CellValue)) (s : S) (result : QueryResult)
      → (execute_user_query client read_only elapsed q row_cap parameters s).0 ≡ ok result
      → (full : QueryResult) × ((execute_parameterized client elapsed q
            (or_none client parameters)
            s).0
          ≡ ok full)
        × IsCapped row_cap full result
  unfolding execute_user_query
  execute_user_query-IsCapped read_only elapsed q row_cap parameters s result h =
      execute_allowed-IsCapped elapsed q row_cap parameters s result (allowed client read_only q) h
