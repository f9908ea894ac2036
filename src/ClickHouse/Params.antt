-- ===== src/ClickHouse/Params.antt =====
-- crates/driver-clickhouse/src/params.rs: `?` placeholders become named parameters, and the bound
-- values travel as hex text.
mod Rounds
pub mod Segments
pub mod Quoted
pub mod Hex
pub mod Binding
use headless_db_mcp.Core.{CellValue, null, text, bytes, DriverError, query, driver_error}
use headless_db_mcp.Prelude.{
  ℕ, zero, suc, ◌+◌, ◌-◌, ◌/◌, ◌%◌, ◌==◌, nat_eq, ltb, List, [], ◌∷◌, ◌++◌, Text, codes, lit,
  Result, ok, err, ◌>>=◌, if◌then◌else◌,
}
use headless_db_mcp.Strings.{decimal, as_bytes}

-- `in_single_quote` and `in_backtick`, which are never both set.
pub data Mode : Type 0 where
  plain in_single_quote in_backtick : Mode

-- `format!("unhex({{p{placeholder_count}:String}})")`
unfoldable pub placeholder : ℕ → Text
placeholder n = codes "unhex({p" ++ (decimal n ++ codes ":String})")

abbrev pub push_str : Text → Text × ℕ → Text × ℕ
push_str s (out, n) = (s ++ out, n)

-- The loop, from the mode and the placeholders counted so far. A quoted region looks one character
-- ahead: past a backslash, or for a doubled quote.
unfoldable pub rewrite_from : Mode → ℕ → Text → Text × ℕ
rewrite_from _ n [] = ([], n)
rewrite_from plain n (c ∷ s) =
    let open_single = push_str (c ∷ []) (rewrite_from in_single_quote n s) in
    let open_backtick = push_str (c ∷ []) (rewrite_from in_backtick n s) in
    let bind = push_str (placeholder (suc n)) (rewrite_from plain (suc n) s) in
    let copy = push_str (c ∷ []) (rewrite_from plain n s) in
    if c == b'\''
    then open_single
    else if c == b'`'
    then open_backtick
    else if c == b'?'
    then bind
    else copy
rewrite_from in_single_quote n (c ∷ []) = (c ∷ [], n)
rewrite_from in_single_quote n (c ∷ d ∷ s) =
    let both = push_str (c ∷ d ∷ []) (rewrite_from in_single_quote n s) in
    let close = push_str (c ∷ []) (rewrite_from plain n (d ∷ s)) in
    let stay = push_str (c ∷ []) (rewrite_from in_single_quote n (d ∷ s)) in
    if c == b'\\' then both else if c == b'\'' then (if d == b'\'' then both else close) else stay
rewrite_from in_backtick n (c ∷ []) = (c ∷ [], n)
rewrite_from in_backtick n (c ∷ d ∷ s) =
    let both = push_str (c ∷ d ∷ []) (rewrite_from in_backtick n s) in
    let close = push_str (c ∷ []) (rewrite_from plain n (d ∷ s)) in
    let stay = push_str (c ∷ []) (rewrite_from in_backtick n (d ∷ s)) in
    if c == b'`' then (if d == b'`' then both else close) else stay

unfoldable pub rewrite_question_marks : Text → Text × ℕ
rewrite_question_marks sql = rewrite_from plain 0 sql

abbrev pub hex_digit : ℕ → ℕ
hex_digit d = if ltb d 10 then b'0' + d else b'a' + (d - 10)

-- `{byte:02x}` of each byte.
unfoldable pub to_hex : List ℕ → Text
to_hex [] = []
to_hex (b ∷ bs) = hex_digit (b / 16) ∷ hex_digit (b % 16) ∷ to_hex bs

unfoldable pub null_parameter : DriverError
null_parameter = driver_error query (
    lit
      "binding a NULL parameter is not supported yet: ClickHouse HTTP named parameters are typed (this driver types every placeholder as `String`), and making a placeholder correctly Nullable requires type information this driver does not have")

unfoldable pub param_value : CellValue → Result Text DriverError
param_value (text t) = ok (to_hex (as_bytes t))
param_value (bytes bs) = ok (to_hex bs)
param_value null = err null_parameter

-- From the number of values already paired. The first NULL ends the collection.
unfoldable pub pairs_from : ℕ → List CellValue → Result (List (Text × Text)) DriverError
pairs_from n [] = ok []
pairs_from n (value ∷ values) = do
  hex ← param_value value
  rest ← pairs_from (suc n) values
  ok ((codes "param_p" ++ decimal (suc n), hex) ∷ rest)

unfoldable pub build_param_query_pairs : List CellValue → Result (List (Text × Text)) DriverError
build_param_query_pairs values = pairs_from 0 values
