-- ===== src/Connections/Manager.antt =====
-- crates/connections/src/manager.rs. `connect` is cut at its awaits, where other tasks may run;
-- `D` is the type of the driver handles, and a step returns the drivers that it disconnects.
pub mod Tasks
pub mod Holding
pub mod Effects
pub mod NoLeak
pub mod Connect
pub mod Solo
use headless_db_mcp.Core.{ConnectionConfig, DriverError}
use headless_db_mcp.HashMap.{Map, get, insert, remove}
use headless_db_mcp.Prelude.{
  ℕ, zero, suc, ◌-◌, ◌/◌, ltb, leb, nat_eq, text_eq, Option, none, some, List, [], ◌∷◌, map, arith,
  Text, Result, ok, err, map_err, if◌then◌else◌, ℤ, pos, negsuc,
}
use headless_db_mcp.Registry.Attempts
use headless_db_mcp.Registry.Attempts.{
  Uuid, u64_modulus, AttemptToken, ConnectionAttemptRegistry, begin, invalidate, forget,
}
use headless_db_mcp.Registry.Sessions
use headless_db_mcp.Registry.Sessions.{SessionRegistry, insert_if_current, remove_session}
use headless_db_mcp.Sorting.{sort_by_key}

-- `connected_at` is in nanoseconds since the Unix epoch.
pub record ConnectionEntry (D : Type 0) : Type 0 where
  pub driver : D
  pub database_type : Text
  pub connected_at : ℤ

pub record ConnectionSummary : Type 0 where
  pub connection_id : Uuid
  pub database_type : Text
  pub connected_at_unix_ms : ℕ

-- `duration_since(UNIX_EPOCH).unwrap_or_default().as_millis()`, then `u64::try_from` or the maximum.
unfoldable pub unix_ms : ℤ → ℕ
unix_ms (pos nanos) = let ms = nanos / 1000000 in if ltb ms u64_modulus then ms else u64_modulus - 1
unix_ms (negsuc nanos) = 0

pub data ConnectionManagerError : Type 0 where
  unknown_database_type : Text → ConnectionManagerError
  not_found superseded : Uuid → ConnectionManagerError
  driver_failed : DriverError → ConnectionManagerError

pub record ConnectionManager (D : Type 0) : Type 0 where
  pub factories : Map Text (ConnectionConfig → D)
  pub attempts : ConnectionAttemptRegistry
  pub sessions : SessionRegistry D
  pub entries : Map Uuid (ConnectionEntry D)

module _ {D : Type 0} where
  abbrev pub new : ConnectionManager D
  new = record { factories = []; attempts = Attempts.new; sessions = Sessions.new; entries = [] }

  unfoldable pub from_entry : Uuid → ConnectionEntry D → ConnectionSummary
  from_entry id entry = record {
    connection_id = id;
    database_type = entry.database_type;
    connected_at_unix_ms = unix_ms entry.connected_at;
  }

  unfoldable pub register_driver_factory :
      ConnectionManager D → Text → (ConnectionConfig → D) → ConnectionManager D
  register_driver_factory m database_type factory = record m {
    factories = insert database_type factory m.factories;
  }

  abbrev pub begin_given :
      ConnectionManager D
      → Text
      → ConnectionConfig
      → Uuid
      → Option (ConnectionConfig → D)
      → Result (AttemptToken × D) ConnectionManagerError × ConnectionManager D
  begin_given m database_type config id none = (err (unknown_database_type database_type), m)
  begin_given m database_type config id (some factory) =
      let (attempts, token) = begin m.attempts id in
      (ok (token, factory config), record m { attempts = attempts })

  -- Up to the await of `driver.connect()`. `id` is the new random id.
  unfoldable pub begin_connect :
      ConnectionManager D
      → Text
      → ConnectionConfig
      → Uuid
      → Result (AttemptToken × D) ConnectionManagerError × ConnectionManager D
  begin_connect m database_type config id =
      begin_given m database_type config id (get database_type m.factories)

  -- Behind that await: a driver that did not connect is dropped.
  unfoldable pub after_open :
      ConnectionManager D
      → Uuid
      → Result (Unit {0}) DriverError
      → Result (Unit {0}) ConnectionManagerError × ConnectionManager D
  after_open m id (ok u) = (ok u, m)
  after_open m id (err e) =
      (err (driver_failed e), record m { attempts = invalidate m.attempts id })

  abbrev pub settle : Uuid → Result (Option D) D → Result (Unit {0}) ConnectionManagerError × List D
  settle id (ok none) = (ok tt, [])
  settle id (ok (some previous)) = (ok tt, previous ∷ [])
  settle id (err orphaned) = (err (superseded id), orphaned ∷ [])

  -- `first` is what the attempts were at the first look of `insert_if_current`.
  unfoldable pub finish_connect :
      ConnectionManager D
      → ConnectionAttemptRegistry
      → AttemptToken
      → D
      → (Result (Unit {0}) ConnectionManagerError × List D) × ConnectionManager D
  finish_connect m first token driver =
      let (answer, sessions) = insert_if_current m.sessions first m.attempts token driver in
      (settle token.connection_id answer, record m { sessions = sessions })

  unfoldable pub insert_entry : ConnectionManager D → Uuid → D → Text → ℤ → ConnectionManager D
  insert_entry m id driver database_type now = record m {
    entries =
        insert id (record { driver = driver; database_type = database_type; connected_at = now })
          m.entries;
  }

  abbrev pub disconnected :
      (D → Result (Unit {0}) DriverError)
      → Option (ConnectionEntry D)
      → Result (Unit {0}) ConnectionManagerError × List D
  disconnected disconnect none = (ok tt, [])
  disconnected disconnect (some entry) =
      (map_err driver_failed (disconnect entry.driver), entry.driver ∷ [])

  -- The argument in front is what the drivers answer to `disconnect`.
  unfoldable pub disconnect :
      (D → Result (Unit {0}) DriverError)
      → ConnectionManager D
      → Uuid
      → (Result (Unit {0}) ConnectionManagerError × List D) × ConnectionManager D
  disconnect answers m id =
      let (session, sessions) = remove_session m.sessions id in
      (
        disconnected answers (get id m.entries),
        record m {
          entries = remove id m.entries;
          sessions = sessions;
          attempts = forget m.attempts id;
        },
      )

  abbrev pub driver_of : Uuid → Option (ConnectionEntry D) → Result D ConnectionManagerError
  driver_of id (some entry) = ok entry.driver
  driver_of id none = err (not_found id)

  unfoldable pub get_driver : ConnectionManager D → Uuid → Result D ConnectionManagerError
  get_driver m id = driver_of id (get id m.entries)

  unfoldable pub list_connections : ConnectionManager D → List ConnectionSummary
  list_connections m =
      sort_by_key leb (λ s. s.connection_id) (map (λ entry. from_entry entry.0 entry.1) m.entries)

  abbrev pub status_of :
      Uuid → Option (ConnectionEntry D) → Result ConnectionSummary ConnectionManagerError
  status_of id (some entry) = ok (from_entry id entry)
  status_of id none = err (not_found id)

  unfoldable pub status :
      ConnectionManager D → Uuid → Result ConnectionSummary ConnectionManagerError
  status m id = status_of id (get id m.entries)
