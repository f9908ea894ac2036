-- ===== src/ClickHouse/Tests.antt =====
-- Statements, parameters and a table of ClickHouse.
use headless_db_mcp.ClickHouse.Query.{execute_user_query_capped}
use headless_db_mcp.ClickHouse.Body.{read_body}
use headless_db_mcp.ClickHouse.Body.Cutting.{text_of, arrived, joined, read_body-characters}
use headless_db_mcp.ClickHouse.Body.Shown.{shown}
use headless_db_mcp.ClickHouse.Body.Reading.{read_body-shown}
use headless_db_mcp.ClickHouse.Query.ReadOnly.{IsTidy, IsLogging, execute_user_query_capped-IsTidy}
use headless_db_mcp.ClickHouse.Request.{Http, Response, Post, ConnectedClient, ClickHouseDriver}
use headless_db_mcp.Wire.JsonRpc.{Value, Members, get_member}
use headless_db_mcp.Wire.JsonRpc
use headless_db_mcp.ClickHouse.Ident.{quote_literal}
use headless_db_mcp.ClickHouse.Params.{
  plain, in_single_quote, push_str, rewrite_from, rewrite_question_marks, build_param_query_pairs,
}
use headless_db_mcp.ClickHouse.Params.Binding.{Binds, build_param_query_pairs-Binds}
use headless_db_mcp.ClickHouse.Params.Segments.{
  IsLiteral, Segment, outside, literal, mark, written, bound_after, marks, IsApart,
  rewrite_question_marks-written,
}
use headless_db_mcp.ClickHouse.Params.Quoted.{quote_literal_open}
use headless_db_mcp.ClickHouse.Statement.{skip_whitespace_and_comments}
use headless_db_mcp.ClickHouse.Statement.Leading.{Leads}
use headless_db_mcp.ClickHouse.Statement.Stripped.{IsBare, skip_whitespace_and_comments-Leads}
use headless_db_mcp.ClickHouse.Tsv.{header_mismatch, parse_full}
use headless_db_mcp.ClickHouse.Tsv.Parsing.{RendersNames, RendersRow, unlines, parse_full-Renders}
use headless_db_mcp.ClickHouse.Tsv.Unescaping.{done, plain, escape, is_null, is_text}
use headless_db_mcp.Core.{CellValue, null, text, bytes}
use headless_db_mcp.Strings.Utf8.{from_utf8_lossy}
use headless_db_mcp.Prelude.{
  ℕ, Bool, true, false, ◌==◌, nat_eq, text_eq, none, some, List, [], ◌∷◌, ◌++◌, map, ◌≡◌, refl, inl,
  arith, Text, codes, length, ok, err, if◌then◌else◌,
}
use headless_db_mcp.Strings.{as_bytes, join, split}

-- `SELECT ?, 'a?', ?`
abbrev two_marks : List Segment
two_marks =
    outside (codes "SELECT ") (ground arith)
    ∷ mark
    ∷ outside (codes ", ") (ground arith)
    ∷ literal (codes "a?") (IsLiteral.other refl refl (IsLiteral.other refl refl IsLiteral.done))
    ∷ outside (codes ", ") (ground arith)
    ∷ mark
    ∷ []

two_marks-IsApart : IsApart two_marks
unfolding written
two_marks-IsApart = (refl, tt)

rewrite_question_marks-written_example :
    rewrite_question_marks (written two_marks) ≡ (bound_after 0 two_marks, marks two_marks)
rewrite_question_marks-written_example = rewrite_question_marks-written two_marks two_marks-IsApart

quote_literal_open_example :
    rewrite_from plain 0 (quote_literal (codes "a" ++ (b'\\' ∷ [])) ++ codes " = ?")
    ≡ push_str
        (quote_literal (codes "a" ++ (b'\\' ∷ [])))
        (rewrite_from in_single_quote 0 (codes " = ?"))
quote_literal_open_example = quote_literal_open (codes "a") (codes " = ?") 0 (refl, tt)

abbrev two_values : List CellValue
two_values = text (codes "k") ∷ bytes (0xff ∷ []) ∷ []

build_param_query_pairs-Binds_example :
    (ps : List (Text × Text)) × (build_param_query_pairs two_values ≡ ok ps) × Binds 0 two_values ps
build_param_query_pairs-Binds_example =
    build_param_query_pairs-Binds two_values (omega arith, (omega arith, tt))

skip_whitespace_and_comments-Leads_example :
    Leads
      (skip_whitespace_and_comments (codes " /* x */ -- y\nSELECT 1"))
      (codes " /* x */ -- y\nSELECT 1")
    × IsBare (skip_whitespace_and_comments (codes " /* x */ -- y\nSELECT 1"))
skip_whitespace_and_comments-Leads_example =
    skip_whitespace_and_comments-Leads (codes " /* x */ -- y\nSELECT 1")

no_letters : ℕ → Bool
no_letters c = false

-- Two columns, a row with a tab and a NULL.
abbrev names : RendersNames (codes "a" ∷ codes "b" ∷ []) (codes "a\tb")
unfolding join
names = record {
  first = codes "a";
  others = codes "b" ∷ [];
  renders = (plain (refl, refl, refl) done, (plain (refl, refl, refl) done, tt));
  joined = refl;
}

abbrev types : RendersNames (codes "S" ∷ codes "T" ∷ []) (codes "S\tT")
unfolding join
types = record {
  first = codes "S";
  others = codes "T" ∷ [];
  renders = (plain (refl, refl, refl) done, (plain (refl, refl, refl) done, tt));
  joined = refl;
}

abbrev row : RendersRow (text (codes "\t") ∷ null ∷ []) (codes "\\t\t\\N")
unfolding join
row = record {
  first = codes "\\t";
  others = codes "\\N" ∷ [];
  renders = (is_text (escape refl (inl (refl, refl)) done), (is_null refl, tt));
  joined = refl;
}

parse_full-Renders_example :
    parse_full (unlines (codes "a\tb" ∷ codes "S\tT" ∷ codes "\\t\t\\N" ∷ [])) ≡ (
      if 2 == length (codes "S" ∷ codes "T" ∷ [])
      then ok (record {
        columns = codes "a" ∷ codes "b" ∷ [];
        column_type_names = codes "S" ∷ codes "T" ∷ [];
        rows = (text (codes "\t") ∷ null ∷ []) ∷ [];
      })
      else err header_mismatch)
parse_full-Renders_example =
    parse_full-Renders names types ((text (codes "\t") ∷ null ∷ []) ∷ []) (codes "\\t\t\\N" ∷ [])
      (row, tt)

-- A server that keeps what it is sent, and a parser to which each line is an object without fields.
abbrev answer : Response
answer = record {
  status = 200;
  status_text = codes "200 OK";
  summary = none;
  body = ok (codes "id\nUInt8\n");
  chunks = ok (as_bytes (codes "{}\n\n{")) ∷ ok (as_bytes (codes "}\n{}")) ∷ [];
}

abbrev log_http : Http (Unit {0}) (List Post)
log_http = record {
  post = λ c p s. (ok answer, p ∷ s);
  new_v4 = λ s. (codes "q1", s);
  summary_from_str = λ t. none;
  from_str = λ line. ok (JsonRpc.object JsonRpc.end);
  print = λ v. [];
}

abbrev log_posts : List Post → List Post
log_posts s = s

log_http-IsLogging : IsLogging log_http log_posts
log_http-IsLogging = record { posted = λ c p s. refl; unposted = λ s. refl }

abbrev body_parts : List (List ℕ)
body_parts = as_bytes (codes "{}\n\n{") ∷ as_bytes (codes "}\n{}") ∷ []

abbrev body_texts : List Text
body_texts = codes "{}\n{" ∷ (0xe9 ∷ []) ∷ codes "}\n" ∷ []

read_body-characters_example :
    read_body log_http (codes "id" ∷ []) 9 (arrived (map as_bytes body_texts))
    ≡ read_body log_http (codes "id" ∷ []) 9 (arrived (as_bytes (joined body_texts) ∷ []))
read_body-characters_example =
    read_body-characters log_http (codes "id" ∷ []) 9 body_texts (omega arith)

-- A character of two bytes that two parts share is lost.
text_of-shared : text_of ((0xc3 ∷ []) ∷ (0xa9 ∷ []) ∷ []) ≡ 0xfffd ∷ 0xfffd ∷ []
unfolding from_utf8_lossy
text_of-shared = refl

read_body-shown_example :
    read_body log_http (codes "id" ∷ []) 2 (arrived body_parts)
    ≡ shown log_http (codes "id" ∷ []) 2 (split b'\n' (text_of body_parts)) []
read_body-shown_example = read_body-shown log_http (codes "id" ∷ []) 2 body_parts (omega arith)

abbrev read_only_driver : ClickHouseDriver (Unit {0})
read_only_driver = record {
  config = record {
    host = codes "db";
    port = 8123;
    username = [];
    password = none;
    database = none;
    ssl = record { mode = none; ca_path = none; client_cert_path = none; client_key_path = none };
    read_only = true;
    additional_fields = [];
  };
  client = none;
  current_database = codes "default";
  server_version = none;
  active_query_id = none;
  query_timeout_seconds = some 30;
  cancel_context = none;
}

abbrev the_client : ConnectedClient (Unit {0})
the_client = record { client = tt; base_url = codes "https://db:8123" }

execute_user_query_capped-IsTidy_example :
    IsTidy log_http log_posts log_http-IsLogging [] none
      (execute_user_query_capped log_http no_letters 3 the_client
        (codes "SELECT 1")
        (some 2)
        none
        (read_only_driver, [])).1
execute_user_query_capped-IsTidy_example =
    execute_user_query_capped-IsTidy log_http log_posts log_http-IsLogging no_letters 3 the_client
      (codes "SELECT 1") (some 2) none (read_only_driver, []) refl
