-- ===== src/Registry/Attempts/Fencing.antt =====
-- Which tokens are current after which calls.
use headless_db_mcp.HashMap.{get, map_laws}
use headless_db_mcp.Prelude.{
  ℕ, ◌+◌, ◌%◌, ◌<◌, Bool, true, false, ◌==◌, nat_eq, nat_beq_iff, nat_beq_refl, Option, none, some,
  List, [], ◌∷◌, ◌≡◌, refl, arith, if◌then◌else◌,
}
use headless_db_mcp.Registry.Attempts.{
  Uuid, u64_modulus, AttemptToken, ConnectionAttemptRegistry, next_generation, begin, is_current,
  invalidate, forget, Op, begins, invalidates, forgets, step, run,
}

-- `begin` makes its own token current, retires every other token of its id, and leaves the tokens
-- of other ids as they were.
is_current-begin :
    (r : ConnectionAttemptRegistry) (id : Uuid) (t : AttemptToken)
    → is_current (begin r id).0 t ≡ (
        if id == t.connection_id then (begin r id).1.generation == t.generation else is_current r t)
unfolding begin is_current
is_current-begin r id t = simp map_laws (ground arith)

pub next_generation-lt : (o : Option ℕ) → next_generation o < u64_modulus
unfolding next_generation
next_generation-lt none = omega arith
next_generation-lt (some g) = omega arith

-- The calls that move the counter of `id`.
abbrev pub bumps : Uuid → List Op → ℕ
bumps id [] = 0
bumps id (begins j ∷ ops) = (if j == id then 1 else 0) + bumps id ops
bumps id (invalidates j ∷ ops) = (if j == id then 1 else 0) + bumps id ops
bumps id (forgets j ∷ ops) = bumps id ops

abbrev pub forgotten : Uuid → List Op → Bool
forgotten id [] = false
forgotten id (forgets j ∷ ops) = if j == id then true else forgotten id ops
forgotten id (_ ∷ ops) = forgotten id ops

-- One call moves a counter by one, modulo the width, or not at all.
get-step :
    (r : ConnectionAttemptRegistry) (op : Op) (id : Uuid) (g : ℕ)
    → get id r.generations ≡ some g
    → g < u64_modulus
    → forgotten id (op ∷ []) ≡ false
    → get id (step r op).generations ≡ some ((g + bumps id (op ∷ [])) % u64_modulus)
unfolding step begin invalidate forget next_generation
get-step r (begins j) id g e h n = simp map_laws (ground (arith, nat_beq_iff j id))
get-step r (invalidates j) id g e h n = simp map_laws (ground (arith, nat_beq_iff j id))
get-step r (forgets j) id g e h n = simp map_laws (ground (arith, nat_beq_iff j id))

forgotten-cons :
    (id : Uuid) (op : Op) (ops : List Op)
    → forgotten id (op ∷ ops) ≡ false
    → (forgotten id (op ∷ []) ≡ false) × (forgotten id ops ≡ false)
forgotten-cons id (begins j) ops h = (refl, h)
forgotten-cons id (invalidates j) ops h = (refl, h)
forgotten-cons id (forgets j) ops h = ground arith

bumps-cons :
    (id : Uuid) (op : Op) (ops : List Op) → bumps id (op ∷ ops) ≡ bumps id (op ∷ []) + bumps id ops
bumps-cons id (begins j) ops = ground arith
bumps-cons id (invalidates j) ops = ground arith
bumps-cons id (forgets j) ops = ground arith

get-run :
    (r : ConnectionAttemptRegistry) (ops : List Op) (id : Uuid) (g : ℕ)
    → get id r.generations ≡ some g
    → g < u64_modulus
    → forgotten id ops ≡ false
    → get id (run r ops).generations ≡ some ((g + bumps id ops) % u64_modulus)
unfolding run
get-run r [] id g e h n = ground arith
get-run r (op ∷ ops) id g e h n =
    let (one, later) = forgotten-cons id op ops n in
    ground (
      arith,
      get-run (step r op) ops id _ (get-step r op id g e h one) (omega arith) later,
      bumps-cons id op ops,
    )

get-begin :
    (r : ConnectionAttemptRegistry) (id : Uuid)
    → get id (begin r id).0.generations ≡ some (begin r id).1.generation
unfolding begin
get-begin r id = simp map_laws (ground (arith, nat_beq_refl id))

begin-lt : (r : ConnectionAttemptRegistry) (id : Uuid) → (begin r id).1.generation < u64_modulus
unfolding begin
begin-lt r id = next_generation-lt (get id r.generations)

begin-id : (r : ConnectionAttemptRegistry) (id : Uuid) → (begin r id).1.connection_id ≡ id
unfolding begin
begin-id r id = refl

-- After `begin` and any further calls that do not forget its id, the token is current exactly if
-- the number of `begin` and `invalidate` calls for that id is a multiple of 2 ^ 64; so none of
-- them, or a full turn of the counter.
pub is_current-run :
    (r : ConnectionAttemptRegistry) (id : Uuid) (ops : List Op)
    → forgotten id ops ≡ false
    → is_current (run (begin r id).0 ops) (begin r id).1 ≡ (bumps id ops % u64_modulus) == 0
unfolding is_current
is_current-run r id ops n = rw (begin-id r id) (
    ground
      (arith, get-run (begin r id).0 ops id _ (get-begin r id) (begin-lt r id) n, begin-lt r id))

-- `forget` retires every token of its id and touches no other id.
pub is_current-forget :
    (r : ConnectionAttemptRegistry) (id : Uuid) (t : AttemptToken)
    → is_current (forget r id) t ≡ (if id == t.connection_id then false else is_current r t)
unfolding forget is_current
is_current-forget r id t = simp map_laws (ground arith)

-- For an id without a counter: the token of its first attempt is current again after `forget` and
-- one more `begin`.
pub forget_revives_first_token :
    (r : ConnectionAttemptRegistry) (id : Uuid)
    → get id r.generations ≡ none
    → is_current (begin (forget (begin r id).0 id) id).0 (begin r id).1 ≡ true
unfolding begin forget is_current next_generation
forget_revives_first_token r id e = simp map_laws (ground (arith, nat_beq_refl id))
