-- ===== src/Registry/Sessions/Handover.antt =====
-- The outcome of `insert_if_current` in crates/registry/src/session_registry.rs.
use headless_db_mcp.HashMap.{get, get-insert}
use headless_db_mcp.Prelude.{
  ◌<◌, false, ◌==◌, ◌&&◌, nat_eq, some, List, ok, err, ◌≡◌, arith, if◌then◌else◌,
}
use headless_db_mcp.Registry.Attempts.{
  Uuid, u64_modulus, AttemptToken, ConnectionAttemptRegistry, begin, is_current, Op, run,
}
use headless_db_mcp.Registry.Attempts.Fencing.{bumps, forgotten, is_current-run}
use headless_db_mcp.Registry.Sessions.{SessionRegistry, insert_if_current}

module _ {ℓ} {S : Type ℓ} where
  -- `insert_if_current` answers with the session it replaces if the token was current at both
  -- looks, and else hands the new session back; the id of the token then maps to the new session if
  -- it was accepted, and every other id to what it had.
  pub insert_if_current_lem :
      (s : SessionRegistry S) (first second : ConnectionAttemptRegistry) (t : AttemptToken) (x : S)
      (id : Uuid)
      → let (answer, after) = insert_if_current s first second t x in
        let accepted = is_current first t && is_current second t in
        (answer ≡ (if accepted then ok (get t.connection_id s.sessions) else err x))
        × (get id after.sessions
            ≡ (if accepted && t.connection_id == id then some x else get id s.sessions))
  unfolding insert_if_current
  insert_if_current_lem s first second t x id =
      ground (arith, get-insert t.connection_id id x s.sessions)

  -- If, before the second look, `begin` or `invalidate` has been called for the id of a token since
  -- its `begin`, fewer than 2 ^ 64 times and with no `forget` of the id, the session is handed back
  -- and nothing is stored, whatever the first look saw.
  pub insert_if_current_late :
      (s : SessionRegistry S) (r : ConnectionAttemptRegistry) (id : Uuid) (ops : List Op)
      (first : ConnectionAttemptRegistry) (x : S)
      → forgotten id ops ≡ false
      → 0 < bumps id ops
      → bumps id ops < u64_modulus
      → insert_if_current s first (run (begin r id).0 ops) (begin r id).1 x ≡ (err x, s)
  unfolding insert_if_current
  insert_if_current_late s r id ops first x n some_bump few =
      ground (arith, is_current-run r id ops n)
