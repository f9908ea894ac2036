-- ===== src/Redis/Command.antt =====
-- crates/driver-redis/src/command.rs: a command line is split into tokens, checked against the
-- read-only allow-list, and built into a command of the `redis` crate.
pub mod Tokens
pub mod Binding
pub mod ReadOnly
use headless_db_mcp.Core.{CellValue, null, text, bytes, DriverError, driver_error, query}
use headless_db_mcp.Prelude.{
  ℕ, Bool, true, false, ◌||◌, ◌==◌, nat_eq, text_eq, Option, none, some, List, [], ◌∷◌, ◌++◌, Text,
  codes, lit, Result, ok, err, ◌>>=◌, ok_or, if◌then◌else◌,
}
use headless_db_mcp.Strings.{is_whitespace, as_bytes}

unfoldable pub unterminated : ℕ → DriverError
unterminated quote =
    driver_error query (lit "unterminated " ++ (quote ∷ lit " quote in Redis command"))

abbrev pub push_token : Text → Result (List Text) DriverError → Result (List Text) DriverError
push_token token (ok tokens) = ok (token ∷ tokens)
push_token token (err e) = err e

-- The two loops of `tokenize` over one supply of characters. The first argument is the quote that
-- the inner loop waits for; then `current` and `has_current`.
unfoldable pub tokenize_from : Option ℕ → Text → Bool → Text → Result (List Text) DriverError
tokenize_from (some quote) current has_current [] = err (unterminated quote)
tokenize_from (some quote) current has_current (c ∷ s) =
    let closed = tokenize_from none current has_current s in
    let more = tokenize_from (some quote) (current ++ (c ∷ [])) has_current s in
    if c == quote then closed else more
tokenize_from none current has_current [] = ok (if has_current then current ∷ [] else [])
tokenize_from none current has_current (c ∷ s) =
    let token = push_token current (tokenize_from none [] false s) in
    let blank = tokenize_from none current has_current s in
    let quoted = tokenize_from (some c) current true s in
    let more = tokenize_from none (current ++ (c ∷ [])) true s in
    if is_whitespace c
    then (if has_current then token else blank)
    else if c == b'"' || c == b'\''
    then quoted
    else more

unfoldable pub tokenize : Text → Result (List Text) DriverError
tokenize input = tokenize_from none [] false input

unfoldable pub read_only_commands : List Text
read_only_commands =
    codes "GET"
    ∷ codes "MGET"
    ∷ codes "GETRANGE"
    ∷ codes "STRLEN"
    ∷ codes "SUBSTR"
    ∷ codes "HGET"
    ∷ codes "HGETALL"
    ∷ codes "HMGET"
    ∷ codes "HKEYS"
    ∷ codes "HVALS"
    ∷ codes "HLEN"
    ∷ codes "HSTRLEN"
    ∷ codes "HEXISTS"
    ∷ codes "HRANDFIELD"
    ∷ codes "HSCAN"
    ∷ codes "LRANGE"
    ∷ codes "LLEN"
    ∷ codes "LINDEX"
    ∷ codes "LPOS"
    ∷ codes "SMEMBERS"
    ∷ codes "SISMEMBER"
    ∷ codes "SMISMEMBER"
    ∷ codes "SCARD"
    ∷ codes "SRANDMEMBER"
    ∷ codes "SSCAN"
    ∷ codes "SINTER"
    ∷ codes "SUNION"
    ∷ codes "SDIFF"
    ∷ codes "ZRANGE"
    ∷ codes "ZRANGEBYSCORE"
    ∷ codes "ZRANGEBYLEX"
    ∷ codes "ZREVRANGE"
    ∷ codes "ZREVRANGEBYSCORE"
    ∷ codes "ZREVRANGEBYLEX"
    ∷ codes "ZSCORE"
    ∷ codes "ZMSCORE"
    ∷ codes "ZCARD"
    ∷ codes "ZCOUNT"
    ∷ codes "ZLEXCOUNT"
    ∷ codes "ZRANK"
    ∷ codes "ZREVRANK"
    ∷ codes "ZSCAN"
    ∷ codes "ZRANDMEMBER"
    ∷ codes "XRANGE"
    ∷ codes "XREVRANGE"
    ∷ codes "XLEN"
    ∷ codes "XREAD"
    ∷ codes "XINFO"
    ∷ codes "EXISTS"
    ∷ codes "TYPE"
    ∷ codes "TTL"
    ∷ codes "PTTL"
    ∷ codes "EXPIRETIME"
    ∷ codes "PEXPIRETIME"
    ∷ codes "KEYS"
    ∷ codes "SCAN"
    ∷ codes "DBSIZE"
    ∷ codes "RANDOMKEY"
    ∷ codes "DUMP"
    ∷ codes "OBJECT"
    ∷ codes "BITCOUNT"
    ∷ codes "BITPOS"
    ∷ codes "GETBIT"
    ∷ codes "PING"
    ∷ codes "ECHO"
    ∷ codes "TIME"
    ∷ codes "COMMAND"
    ∷ codes "INFO"
    ∷ codes "MEMORY"
    ∷ []

unfoldable pub contains : List Text → Text → Bool
contains [] name = false
contains (x ∷ xs) name = x == name || contains xs name

unfoldable pub empty_command : DriverError
empty_command = driver_error query (lit "empty Redis command")

unfoldable pub not_permitted : Text → DriverError
not_permitted name =
    driver_error query (lit "read-only connection: command '" ++ (name ++ lit "' is not permitted"))

unfoldable pub missing_parameter : DriverError
missing_parameter =
    driver_error query (lit "not enough bound parameters for the `?` placeholders in this command")

unfoldable pub null_argument : DriverError
null_argument = driver_error query (lit "Redis command arguments cannot be null")

abbrev pub first : List Text → Option Text
first [] = none
first (x ∷ xs) = some x

abbrev pub or_empty : Option (List CellValue) → List CellValue
or_empty none = []
or_empty (some parameters) = parameters

abbrev pub permit : Text → Result (Unit {0}) DriverError
permit name = if contains read_only_commands name then ok tt else err (not_permitted name)

-- `to_uppercase` is `str::to_uppercase`, whose Unicode tables are not written out here.
unfoldable pub require_read_only : (Text → Text) → Text → Result (Unit {0}) DriverError
require_read_only to_uppercase q = do
  tokens ← tokenize q
  name ← ok_or (first tokens) empty_command
  permit (to_uppercase name)

-- `redis::Cmd`: `cmd` starts a command with its name, and `arg` appends one argument.
module _ {Cmd : Type 0} (arg : Cmd → List ℕ → Cmd) where
  unfoldable pub bind_parameter : Cmd → CellValue → Result Cmd DriverError
  bind_parameter c null = err null_argument
  bind_parameter c (text t) = ok (arg c (as_bytes t))
  bind_parameter c (bytes bs) = ok (arg c bs)

  -- The loop over the tokens behind the name, with the parameters that are left.
  unfoldable pub bind_tokens : Cmd → List CellValue → List Text → Result Cmd DriverError
  unfolding bind_parameter
  bind_tokens c parameters [] = ok c
  bind_tokens c [] (token ∷ tokens) =
      let word = bind_tokens (arg c (as_bytes token)) [] tokens in
      if token == codes "?" then err missing_parameter else word
  bind_tokens c (value ∷ parameters) (token ∷ tokens) =
      let word = bind_tokens (arg c (as_bytes token)) (value ∷ parameters) tokens in
      let bound = bind_parameter c value >>= λ c'. bind_tokens c' parameters tokens in
      if token == codes "?" then bound else word

  unfoldable pub build_command :
      (Text → Text) → (List ℕ → Cmd) → List Text → Option (List CellValue) → Result Cmd DriverError
  build_command to_uppercase cmd [] parameters = err empty_command
  build_command to_uppercase cmd (name ∷ tokens) parameters =
      bind_tokens (cmd (as_bytes (to_uppercase name))) (or_empty parameters) tokens
