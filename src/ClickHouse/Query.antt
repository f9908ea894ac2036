-- ===== src/ClickHouse/Query.antt =====
-- crates/driver-clickhouse/src/query.rs: buffered queries, and those of a user.
pub mod ReadOnly
use headless_db_mcp.ClickHouse.Body.{is_empty, read_body}
use headless_db_mcp.ClickHouse.Params.{rewrite_question_marks, build_param_query_pairs}
use headless_db_mcp.ClickHouse.Request.{
  Http, Response, ConnectedClient, World, send_request, dropping, written_rows, map_reqwest_error,
}
use headless_db_mcp.ClickHouse.Statement.{is_row_returning_statement}
use headless_db_mcp.ClickHouse.Tsv.{parse_full, parse_header}
use headless_db_mcp.Core.{CellValue, DriverError, DriverResult, driver_error, query}
use headless_db_mcp.Core.Results.{QueryResult, StreamHeader, effective_cap, take}
use headless_db_mcp.Prelude.{
  ℕ, Bool, true, false, ◌&&◌, ltb, ◌==◌, nat_eq, text_eq, Option, none, some, List, [], ◌∷◌, ◌++◌,
  Text, codes, lit, length, ok, err, ◌>>=◌, map_err, if◌then◌else◌, chain,
}
use headless_db_mcp.Strings.{decimal}
use headless_db_mcp.Wire.JsonRpc

abbrev pub tsv_format_params : List (Text × Text)
tsv_format_params =
    (codes "default_format", codes "TabSeparatedWithNamesAndTypes")
    ∷ (codes "wait_end_of_query", codes "1")
    ∷ []

unfoldable pub parameter_count_mismatch : ℕ → ℕ → DriverError
parameter_count_mismatch expected actual = driver_error query (
    lit "query has "
    ++ (decimal expected
        ++ (lit " `?` placeholder(s) but "
            ++ (decimal actual ++ lit " parameter(s) were supplied"))))

pub record TsvOutcome : Type 0 where
  pub columns : List Text
  pub column_type_names : List Text
  pub rows : List (List CellValue)
  pub written : Option ℕ

abbrev pub or_zero : Option ℕ → ℕ
or_zero none = 0
or_zero (some n) = n

unfoldable pub rows_affected_from : TsvOutcome → ℕ
rows_affected_from outcome =
    if is_empty outcome.columns && is_empty outcome.rows
    then or_zero outcome.written
    else length outcome.rows

abbrev pub outcome_result : ℕ → Bool → TsvOutcome → QueryResult
outcome_result elapsed is_truncated outcome = record {
  columns = outcome.columns;
  column_type_names = outcome.column_type_names;
  rows = outcome.rows;
  rows_affected = rows_affected_from outcome;
  execution_time = elapsed;
  is_truncated = is_truncated;
  status_message = none;
  column_meta = none;
}

-- `outcome.rows.truncate(cap)` where there are more.
unfoldable pub cap_outcome : ℕ → ℕ → TsvOutcome → QueryResult
cap_outcome elapsed cap outcome =
    if ltb cap (length outcome.rows)
    then outcome_result elapsed true (record outcome { rows = take cap outcome.rows })
    else outcome_result elapsed false outcome

-- A statement with its parameters: rewritten, and as pairs, if their numbers agree.
abbrev pub bound_at : Text × ℕ → List CellValue → DriverResult (Text × List (Text × Text))
bound_at (rewritten, placeholder_count) values =
    if placeholder_count == length values
    then (build_param_query_pairs values >>= λ pairs. ok (rewritten, pairs))
    else err (parameter_count_mismatch placeholder_count (length values))

unfoldable pub bind_question_marks :
    Text → List CellValue → DriverResult (Text × List (Text × Text))
bind_question_marks sql values = bound_at (rewrite_question_marks sql) values

abbrev pub bind_given : Text → Option (List CellValue) → DriverResult (Text × List (Text × Text))
bind_given sql none = ok (sql, [])
bind_given sql (some values) = bind_question_marks sql values

module _ {Client S : Type 0} (http : Http Client S) where
  abbrev pub outcome_of : Response → DriverResult TsvOutcome
  outcome_of response = do
    body ← map_err map_reqwest_error response.body
    parsed ← parse_full body
    ok (record {
      columns = parsed.columns;
      column_type_names = parsed.column_type_names;
      rows = parsed.rows;
      written = written_rows http response;
    })

  -- A request whose whole body is read.
  unfoldable pub run_buffered :
      ConnectedClient Client
      → Text
      → List (Text × Text)
      → World http
      → DriverResult TsvOutcome × World http
  run_buffered connected sql params w =
      chain (send_request http connected sql params w)
        λ sent w'. dropping http sent.1 (outcome_of sent.0, w')

  unfoldable pub run_tsv :
      ConnectedClient Client → Text → World http → DriverResult TsvOutcome × World http
  run_tsv connected sql w = run_buffered connected sql tsv_format_params w

  unfoldable pub run_tsv_parameterized :
      ConnectedClient Client
      → Text
      → List CellValue
      → World http
      → DriverResult TsvOutcome × World http
  run_tsv_parameterized connected sql values w =
      chain (bind_question_marks sql values, w)
        λ bound w'. run_buffered connected bound.0 (tsv_format_params ++ bound.1) w'

  unfoldable pub execute :
      ℕ → ConnectedClient Client → Text → World http → DriverResult QueryResult × World http
  execute elapsed connected sql w =
      chain (run_tsv connected sql w) λ outcome w'. (ok (outcome_result elapsed false outcome), w')

  unfoldable pub execute_parameterized :
      ℕ
      → ConnectedClient Client
      → Text
      → List CellValue
      → World http
      → DriverResult QueryResult × World http
  execute_parameterized elapsed connected sql values w =
      chain (run_tsv_parameterized connected sql values w)
        λ outcome w'. (ok (outcome_result elapsed false outcome), w')

  abbrev pub header_in : Response → DriverResult StreamHeader
  header_in response = do
    body ← map_err map_reqwest_error response.body
    parsed ← parse_header body
    ok (record { columns = parsed.0; column_type_names = parsed.1 })

  abbrev pub probe_sql : Text → Text
  probe_sql sql =
      lit "SELECT * FROM (" ++ (sql ++ lit ") LIMIT 0 FORMAT TabSeparatedWithNamesAndTypes")

  unfoldable pub fetch_probe_header :
      ConnectedClient Client
      → Text
      → List (Text × Text)
      → World http
      → DriverResult StreamHeader × World http
  fetch_probe_header connected sql extra w =
      chain (send_request http connected (probe_sql sql) extra w)
        λ sent w'. dropping http sent.1 (header_in sent.0, w')

  abbrev pub run_given :
      ConnectedClient Client
      → Text
      → Option (List CellValue)
      → World http
      → DriverResult TsvOutcome × World http
  run_given connected sql none w = run_tsv connected sql w
  run_given connected sql (some values) w = run_tsv_parameterized connected sql values w

  unfoldable pub execute_user_query_capped_buffered :
      ℕ
      → ConnectedClient Client
      → Text
      → Option ℕ
      → Option (List CellValue)
      → World http
      → DriverResult QueryResult × World http
  execute_user_query_capped_buffered elapsed connected sql row_cap parameters w =
      chain (run_given connected sql parameters w)
        λ outcome w'. (ok (cap_outcome elapsed (effective_cap row_cap) outcome), w')

  abbrev pub streamed_result : ℕ → StreamHeader → List (List CellValue) × Bool → QueryResult
  streamed_result elapsed header (rows, is_truncated) = record {
    columns = header.columns;
    column_type_names = header.column_type_names;
    rows = rows;
    rows_affected = length rows;
    execution_time = elapsed;
    is_truncated = is_truncated;
    status_message = none;
    column_meta = none;
  }

  unfoldable pub execute_user_query_capped_streaming :
      ℕ
      → ConnectedClient Client
      → Text
      → Option ℕ
      → Option (List CellValue)
      → World http
      → DriverResult QueryResult × World http
  execute_user_query_capped_streaming elapsed connected sql row_cap parameters w =
      chain (bind_given sql parameters, w)
        λ bound w1. chain (fetch_probe_header connected bound.0 bound.1 w1) λ header w2.
          chain
            (send_request http connected bound.0
              ((codes "default_format", codes "JSONEachRow") ∷ bound.1) w2)
            λ sent w3. dropping http sent.1 (
              read_body http header.columns (effective_cap row_cap) sent.0.chunks >>= λ body.
                  ok (streamed_result elapsed header body),
              w3,
            )

  unfoldable pub execute_user_query_capped :
      (ℕ → Bool)
      → ℕ
      → ConnectedClient Client
      → Text
      → Option ℕ
      → Option (List CellValue)
      → World http
      → DriverResult QueryResult × World http
  execute_user_query_capped is_alphanumeric elapsed connected sql row_cap parameters w =
      if is_row_returning_statement is_alphanumeric sql
      then execute_user_query_capped_streaming elapsed connected sql row_cap parameters w
      else execute_user_query_capped_buffered elapsed connected sql row_cap parameters w
