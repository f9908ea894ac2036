-- ===== src/Registry/Attempts.antt =====
-- crates/registry/src/attempt_token.rs and connection_registry.rs. A connection id is a number;
-- the mutex makes each operation one step on the map of generations.
pub mod Fencing
use headless_db_mcp.HashMap.{Map, get, insert, remove}
use headless_db_mcp.Prelude.{
  ℕ, ◌+◌, ◌%◌, ◌^◌, Bool, true, false, ◌==◌, nat_eq, Option, none, some, List, [], ◌∷◌, arith,
}

abbrev pub Uuid : Type 0
Uuid = ℕ

abbrev pub u64_modulus : ℕ
u64_modulus = 2 ^ 64

abbrev pub wrapping_add : ℕ → ℕ → ℕ
wrapping_add a b = (a + b) % u64_modulus

pub record AttemptToken : Type 0 where
  pub connection_id : Uuid
  pub generation : ℕ

pub record ConnectionAttemptRegistry : Type 0 where
  pub generations : Map Uuid ℕ

abbrev pub new : ConnectionAttemptRegistry
new = record { generations = [] }

-- `map_or(1, |generation| generation.wrapping_add(1))`
unfoldable pub next_generation : Option ℕ → ℕ
next_generation none = 1
next_generation (some generation) = wrapping_add generation 1

unfoldable pub begin : ConnectionAttemptRegistry → Uuid → ConnectionAttemptRegistry × AttemptToken
begin r id =
    let next = next_generation (get id r.generations) in
    (
      record r { generations = insert id next r.generations },
      record { connection_id = id; generation = next },
    )

abbrev pub option_beq : Option ℕ → Option ℕ → Bool
option_beq none none = true
option_beq (some a) (some b) = a == b
option_beq _ _ = false

unfoldable pub is_current : ConnectionAttemptRegistry → AttemptToken → Bool
is_current r token = option_beq (get token.connection_id r.generations) (some token.generation)

unfoldable pub invalidate : ConnectionAttemptRegistry → Uuid → ConnectionAttemptRegistry
invalidate r id =
    let next = next_generation (get id r.generations) in
    record r { generations = insert id next r.generations }

unfoldable pub forget : ConnectionAttemptRegistry → Uuid → ConnectionAttemptRegistry
forget r id = record r { generations = remove id r.generations }

-- What the threads of the server may do to the registry between two looks of one attempt.
pub data Op : Type 0 where
  begins invalidates forgets : Uuid → Op

unfoldable pub step : ConnectionAttemptRegistry → Op → ConnectionAttemptRegistry
step r (begins id) = (begin r id).0
step r (invalidates id) = invalidate r id
step r (forgets id) = forget r id

unfoldable pub run : ConnectionAttemptRegistry → List Op → ConnectionAttemptRegistry
run r [] = r
run r (op ∷ ops) = run (step r op) ops
