-- ===== src/Redis/Reply.antt =====
-- crates/driver-redis/src/convert.rs and error.rs: replies and errors of the `redis` crate as the
-- types that the drivers share.
pub mod Texts
use headless_db_mcp.Core.{
  CellValue, null, text, DriverError, DriverErrorKind, driver_error, with_code, with_detail, auth,
  connection,
}
use headless_db_mcp.Prelude.{
  ℕ, Bool, true, false, nat_eq, text_eq, Option, none, some, List, [], ◌∷◌, Text, codes, ℤ,
}
use headless_db_mcp.Strings.Numerals.{print_int}
use headless_db_mcp.Strings.Utf8.{from_utf8_lossy}
use headless_db_mcp.Wire.Json.{from_i64, from_f64, number_or_null, insert_member}
use headless_db_mcp.Wire.JsonRpc
use headless_db_mcp.Wire.JsonRpc.{Value, Values, Members}

-- `redis::Value`. A float is its bits, a big number its text, and an error of the server its `Debug`
-- text; the attributes and the kind of a push, which are not read, are left out.
mutual
  pub data Reply : Type 0 where
    nil : Reply
    int : ℤ → Reply
    bulk_string : List ℕ → Reply
    simple_string : Text → Reply
    okay : Reply
    array set push : Replies → Reply
    pairs : Pairs → Reply
    attribute : Reply → Reply
    double : ℕ → Reply
    boolean : Bool → Reply
    verbatim_string big_number server_error : Text → Reply

  pub data Replies : Type 0 where
    none_left : Replies
    and_then : Reply → Replies → Replies

  pub data Pairs : Type 0 where
    no_pair : Pairs
    and_pair : Reply → Reply → Pairs → Pairs

abbrev pub items_of : Replies → List Reply
items_of none_left = []
items_of (and_then r rs) = r ∷ items_of rs

abbrev pub list_of_pairs : Pairs → List (Reply × Reply)
list_of_pairs no_pair = []
list_of_pairs (and_pair k v ps) = (k, v) ∷ list_of_pairs ps

abbrev pub print_bool : Bool → Text
print_bool true = codes "true"
print_bool false = codes "false"

-- `print` is `to_string` of a JSON value, and `print_f64` that of a float.
module _ (print : Value → Text) (print_f64 : ℕ → Text) where
  -- `json_key`, at the value and at its JSON.
  abbrev pub json_key : Reply → Value → Text
  json_key (bulk_string bytes) v = from_utf8_lossy bytes
  json_key (simple_string s) v = s
  json_key _ v = print v

  unfoldable mutual
    pub value_to_json : Reply → Value
    value_to_json nil = JsonRpc.null
    value_to_json (int i) = JsonRpc.number (from_i64 i)
    value_to_json (bulk_string bytes) = JsonRpc.string (from_utf8_lossy bytes)
    value_to_json (simple_string s) = JsonRpc.string s
    value_to_json okay = JsonRpc.string (codes "OK")
    value_to_json (array items) = JsonRpc.array (values_of items)
    value_to_json (set items) = JsonRpc.array (values_of items)
    value_to_json (push items) = JsonRpc.array (values_of items)
    value_to_json (pairs ps) = JsonRpc.object (insert_pairs ps JsonRpc.end)
    value_to_json (attribute inner) = value_to_json inner
    value_to_json (double bits) = number_or_null (from_f64 bits)
    value_to_json (boolean b) = JsonRpc.bool b
    value_to_json (verbatim_string s) = JsonRpc.string s
    value_to_json (big_number s) = JsonRpc.string s
    value_to_json (server_error s) = JsonRpc.string s

    pub values_of : Replies → Values
    values_of none_left = JsonRpc.nil
    values_of (and_then r rs) = JsonRpc.cons (value_to_json r) (values_of rs)

    pub insert_pairs : Pairs → Members → Members
    insert_pairs no_pair ms = ms
    insert_pairs (and_pair k v ps) ms =
        insert_pairs ps (insert_member (json_key k (value_to_json k)) (value_to_json v) ms)

  unfoldable pub value_to_cell : Reply → CellValue
  value_to_cell nil = null
  value_to_cell (int i) = text (print_int i)
  value_to_cell (bulk_string bytes) = text (from_utf8_lossy bytes)
  value_to_cell (simple_string s) = text s
  value_to_cell okay = text (codes "OK")
  value_to_cell (double bits) = text (print_f64 bits)
  value_to_cell (boolean b) = text (print_bool b)
  value_to_cell (verbatim_string s) = text s
  value_to_cell (big_number s) = text s
  value_to_cell (server_error s) = text s
  value_to_cell nested = text (print (value_to_json nested))

-- `items.chunks(2)`, the pairs of it.
abbrev pub chunk_pairs : List Reply → List (Reply × Reply)
chunk_pairs [] = []
chunk_pairs (r ∷ []) = []
chunk_pairs (k ∷ v ∷ rs) = (k, v) ∷ chunk_pairs rs

unfoldable pub flat_pairs : Reply → List (Reply × Reply)
flat_pairs (pairs ps) = list_of_pairs ps
flat_pairs (array items) = chunk_pairs (items_of items)
flat_pairs (set items) = chunk_pairs (items_of items)
flat_pairs _ = []

unfoldable pub array_items : Reply → List Reply
array_items (array items) = items_of items
array_items (set items) = items_of items
array_items nil = []
array_items scalar = scalar ∷ []

-- What the code reads of a `redis::RedisError`.
pub data ErrorKind : Type 0 where
  authentication_failed io_error other_kind : ErrorKind

pub record RedisError : Type 0 where
  pub kind : ErrorKind
  pub text : Text
  pub code : Option Text
  pub detail : Option Text

abbrev pub kind_of : DriverErrorKind → ErrorKind → DriverErrorKind
kind_of fallback authentication_failed = auth
kind_of fallback io_error = connection
kind_of fallback other_kind = fallback

abbrev pub or_keep : (DriverError → Text → DriverError) → Option Text → DriverError → DriverError
or_keep with_part none e = e
or_keep with_part (some part) e = with_part e part

unfoldable pub map_error : DriverErrorKind → RedisError → DriverError
map_error fallback e =
    or_keep with_detail e.detail
      (or_keep with_code e.code (driver_error (kind_of fallback e.kind) e.text))
