-- ===== src/Wire/Json.antt =====
-- What the source takes from `serde_json` as values: numbers from integers and floats, and objects
-- as they are filled.
use headless_db_mcp.Prelude.{
  ℕ, ◌-◌, ◌/◌, ◌%◌, ◌^◌, ◌==◌, nat_eq, text_eq, Option, none, some, Text, if◌then◌else◌, ℤ, pos,
  negsuc,
}
use headless_db_mcp.Sorting.{text_leb}
use headless_db_mcp.Wire.JsonRpc.{
  Value, Number, Members, null, number, pos_int, neg_int, float, member, end,
}

-- `Value::from` at `i64`.
abbrev pub from_i64 : ℤ → Number
from_i64 (pos n) = pos_int n
from_i64 (negsuc n) = neg_int n

-- `Number::from_f64` at the bits of a float: an exponent of all ones is an infinity or no number.
unfoldable pub from_f64 : ℕ → Option Number
from_f64 bits = if bits / 2 ^ 52 % 2 ^ 11 == 2 ^ 11 - 1 then none else some (float bits)

abbrev pub number_or_null : Option Number → Value
number_or_null none = null
number_or_null (some n) = number n

-- `object.insert(key, value)`: the keys are in order, and an equal key is replaced.
unfoldable pub insert_member : Text → Value → Members → Members
insert_member key value end = member key value end
insert_member key value (member k v ms) =
    let later = insert_member key value ms in
    if k == key
    then member key value ms
    else if text_leb key k
    then member key value (member k v ms)
    else member k v later
