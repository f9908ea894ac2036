-- ===== src/Registry/Sessions.antt =====
-- crates/registry/src/session_registry.rs. The two registries have a mutex each, so
-- `insert_if_current` looks at the attempts twice, and they may have moved in between.
pub mod Handover
use headless_db_mcp.HashMap.{Map, get, insert, remove, contains_key}
use headless_db_mcp.Prelude.{Bool, nat_eq, Option, Result, ok, err, [], if◌then◌else◌, not}
use headless_db_mcp.Registry.Attempts.{Uuid, AttemptToken, ConnectionAttemptRegistry, is_current}

pub record SessionRegistry {ℓ} (S : Type ℓ) : Type ℓ where
  pub sessions : Map Uuid S

module _ {ℓ} {S : Type ℓ} where
  abbrev pub new : SessionRegistry S
  new = record { sessions = [] }

  -- `first` and `second` are the attempts at the first and at the second look.
  unfoldable pub insert_if_current :
      SessionRegistry S
      → ConnectionAttemptRegistry
      → ConnectionAttemptRegistry
      → AttemptToken
      → S
      → Result (Option S) S × SessionRegistry S
  insert_if_current s first second token session =
      if not (is_current first token)
      then (err session, s)
      else if not (is_current second token)
      then (err session, s)
      else (
        ok (get token.connection_id s.sessions),
        record s { sessions = insert token.connection_id session s.sessions },
      )

  unfoldable pub remove_session : SessionRegistry S → Uuid → Option S × SessionRegistry S
  remove_session s id = (get id s.sessions, record s { sessions = remove id s.sessions })

  unfoldable pub contains : SessionRegistry S → Uuid → Bool
  contains s id = contains_key id s.sessions
