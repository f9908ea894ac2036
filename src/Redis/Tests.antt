-- ===== src/Redis/Tests.antt =====
-- Command lines and replies, with a builder that collects its arguments in a list and a server that
-- always answers the same.
use headless_db_mcp.Core.{CellValue, text, bytes, null}
use headless_db_mcp.Prelude.{
  ℕ, true, false, nat_eq, text_eq, none, some, List, [], ◌∷◌, ◌++◌, map, ◌≡◌, refl, arith, Text,
  codes, length, Result, ok,
}
use headless_db_mcp.Core.Results.{emergency_max, QueryResult, take, effective_cap}
use headless_db_mcp.Redis.Query.{
  Client, execute_user_query, execute_parameterized, build, cap_rows, value_to_query_result,
}
use headless_db_mcp.Redis.Query.Capped.{IsCapped, execute_user_query-IsCapped}
use headless_db_mcp.Redis.Reply.{
  Reply, RedisError, array, and_then, none_left, bulk_string, value_to_cell,
}
use headless_db_mcp.Redis.Stream.{stream_rows}
use headless_db_mcp.Redis.Stream.Bounded.{IsStream, stream_rows-IsStream}
use headless_db_mcp.Strings.Utf8.{from_utf8_lossy}
use headless_db_mcp.Redis.Command.{
  tokenize, tokenize_from, contains, read_only_commands, require_read_only, build_command,
  bind_tokens, bind_parameter,
}
use headless_db_mcp.Redis.Command.Binding.{with_args}
use headless_db_mcp.Redis.Command.ReadOnly.{require_read_only-build_command}
use headless_db_mcp.Redis.Command.Tokens.{quoted, bare, tokenize-WritesAll}
use headless_db_mcp.Strings.{as_bytes, is_whitespace, to_ascii_upper, join}

abbrev upper : Text → Text
upper t = map to_ascii_upper t

abbrev push_arg : List (List ℕ) → List ℕ → List (List ℕ)
push_arg c a = c ++ (a ∷ [])

abbrev start : List ℕ → List (List ℕ)
start name = name ∷ []

abbrev hget : Text
hget = codes "hget ? \"a b\""

abbrev hget_tokens : List Text
hget_tokens = codes "hget" ∷ codes "?" ∷ codes "a b" ∷ []

abbrev values : List CellValue
values = text (codes "k") ∷ bytes (0xff ∷ []) ∷ []

abbrev hget_arguments : List (List ℕ)
hget_arguments = as_bytes (codes "k") ∷ as_bytes (codes "a b") ∷ []

hget-tokenize : tokenize hget ≡ ok hget_tokens
unfolding tokenize tokenize_from is_whitespace
hget-tokenize = refl

hget-permitted : require_read_only upper hget ≡ ok tt
unfolding require_read_only tokenize tokenize_from is_whitespace contains read_only_commands
hget-permitted = refl

hget-build :
    build_command push_arg upper start hget_tokens (some values)
    ≡ ok (as_bytes (codes "HGET") ∷ hget_arguments)
unfolding build_command bind_tokens bind_parameter
hget-build = refl

require_read_only-build_command_example :
    (name : Text) × (rest : List Text) × (args : List (List ℕ)) × (hget_tokens ≡ name ∷ rest)
    × (contains read_only_commands (upper name) ≡ true)
    × (length args ≡ length rest)
    × (as_bytes (codes "HGET") ∷ hget_arguments
        ≡ with_args push_arg (start (as_bytes (upper name))) args)
require_read_only-build_command_example =
    require_read_only-build_command upper push_arg start hget hget_tokens (some values) _
      hget-permitted hget-tokenize hget-build

tokenize-WritesAll_example :
    tokenize (join b' ' (codes "GET" ∷ codes "\"a b\"" ∷ [])) ≡ ok (codes "GET" ∷ codes "a b" ∷ [])
unfolding is_whitespace
tokenize-WritesAll_example =
    tokenize-WritesAll (codes "GET" ∷ codes "a b" ∷ []) (codes "GET" ∷ codes "\"a b\"" ∷ []) (
      bare (ground arith) ((refl, refl), ((refl, refl), ((refl, refl), tt))) refl,
      (quoted {q = b'"'} (refl, refl) (refl, (refl, (refl, tt))) refl, tt),
    )

-- A server with one list of three elements, and two keys.
abbrev three : Reply
three = array (
    and_then (bulk_string (97 ∷ []))
      (and_then Reply.nil (and_then (bulk_string (98 ∷ [])) none_left)))

abbrev server : Client (List (List ℕ)) ℕ
server = record {
  cmd = start;
  arg = push_arg;
  query_async = λ c s. (ok three, s);
  print = λ v. [];
  print_f64 = λ n. [];
  to_uppercase = upper;
}

abbrev lrange : Text
lrange = codes "lrange k 0 -1"

abbrev all_three : QueryResult
all_three = record {
  columns = codes "value" ∷ [];
  column_type_names = codes "text" ∷ [];
  rows = (text (codes "a") ∷ []) ∷ (null ∷ []) ∷ (text (codes "b") ∷ []) ∷ [];
  rows_affected = 3;
  execution_time = 4;
  is_truncated = false;
  status_message = none;
  column_meta = none;
}

abbrev first_two : QueryResult
first_two = record all_three {
  rows = (text (codes "a") ∷ []) ∷ (null ∷ []) ∷ [];
  rows_affected = 2;
  is_truncated = true;
}

lrange-first_two : (execute_user_query server true 4 lrange (some 2) none 0).0 ≡ ok first_two
unfolding execute_user_query execute_parameterized build tokenize tokenize_from is_whitespace
    require_read_only contains read_only_commands build_command bind_tokens bind_parameter
    value_to_query_result value_to_cell from_utf8_lossy cap_rows take effective_cap emergency_max
lrange-first_two = refl

execute_user_query-IsCapped_example :
    (full : QueryResult) × ((execute_parameterized server 4 lrange [] 0).0 ≡ ok full)
    × IsCapped server (some 2) full first_two
execute_user_query-IsCapped_example =
    execute_user_query-IsCapped server true 4 lrange (some 2) none 0 first_two lrange-first_two

abbrev scan : List (List ℕ) → ℕ → Result (ℕ × List (List ℕ)) RedisError × ℕ
scan c s = (ok (0, (107 ∷ []) ∷ (108 ∷ []) ∷ []), s)

stream_rows-IsStream_example :
    IsStream (stream_rows server (λ t. t) (λ t. t) scan 3 true (codes "list MATCH *") 0).0
stream_rows-IsStream_example =
    stream_rows-IsStream server (λ t. t) (λ t. t) scan 3 true (codes "list MATCH *") 0
