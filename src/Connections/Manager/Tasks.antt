-- ===== src/Connections/Manager/Tasks.antt =====
-- The manager with the `connect` calls that are under way. Each step is what one task does between
-- two awaits, so that a run is any interleaving of them.
use headless_db_mcp.Connections.Manager.{
  ConnectionManager, begin_connect, after_open, finish_connect, insert_entry, disconnect,
  ConnectionManagerError,
}
use headless_db_mcp.Core.{ConnectionConfig, DriverError}
use headless_db_mcp.HashMap.{Map, get, insert, remove}
use headless_db_mcp.Prelude.{
  nat_eq, text_eq, none, some, List, [], ◌∷◌, ◌++◌, ◌≡◌, Text, Result, ok, err, ℤ,
}
use headless_db_mcp.Registry.Attempts.{Uuid, AttemptToken, ConnectionAttemptRegistry}

-- `opening` awaits the driver's `connect`, `opened` has a connected driver, and `stored` has it in
-- the session registry.
pub data Phase : Type 0 where
  opening opened stored : Phase

pub record Task (D : Type 0) : Type 0 where
  pub token : AttemptToken
  pub driver : D
  pub database_type : Text
  pub phase : Phase

-- `live` holds each driver that has connected, with the id it was opened under, and `released` each
-- driver that has been asked to disconnect.
pub record System (D : Type 0) : Type 0 where
  pub manager : ConnectionManager D
  pub tasks : Map Uuid (Task D)
  pub live : List (Uuid × D)
  pub released : List D

module _ {D : Type 0} where
  abbrev pub at_phase : Phase → Task D → Task D
  at_phase phase t = record t { phase = phase }

  pub data Step (s : System D) : System D → Type 0 where
    starts :
        (database_type : Text) (config : ConnectionConfig) (id : Uuid) {token : AttemptToken}
        {driver : D} {m : ConnectionManager D}
        → get id s.tasks ≡ none
        → get id s.manager.entries ≡ none
        → begin_connect s.manager database_type config id ≡ (ok (token, driver), m)
        → Step s (record s {
          manager = m;
          tasks =
              insert id
                (record {
                  token = token;
                  driver = driver;
                  database_type = database_type;
                  phase = opening;
                })
                s.tasks;
        })
    opens :
        (id : Uuid) {t : Task D}
        → get id s.tasks ≡ some t
        → t.phase ≡ opening
        → Step s (record s {
          manager = (after_open s.manager id (ok tt)).1;
          tasks = insert id (at_phase opened t) s.tasks;
          live = (id, t.driver) ∷ s.live;
        })
    open_fails :
        (id : Uuid) {t : Task D} (e : DriverError)
        → get id s.tasks ≡ some t
        → t.phase ≡ opening
        → Step s
            (record s { manager = (after_open s.manager id (err e)).1; tasks = remove id s.tasks })
    finishes :
        (id : Uuid) {t : Task D} (first : ConnectionAttemptRegistry) {ds : List D}
        {m : ConnectionManager D}
        → get id s.tasks ≡ some t
        → t.phase ≡ opened
        → finish_connect s.manager first t.token t.driver ≡ ((ok tt, ds), m)
        → Step s (record s {
          manager = m;
          tasks = insert id (at_phase stored t) s.tasks;
          released = ds ++ s.released;
        })
    loses :
        (id : Uuid) {t : Task D} (first : ConnectionAttemptRegistry) {e : ConnectionManagerError}
        {ds : List D} {m : ConnectionManager D}
        → get id s.tasks ≡ some t
        → t.phase ≡ opened
        → finish_connect s.manager first t.token t.driver ≡ ((err e, ds), m)
        → Step s (record s { manager = m; tasks = remove id s.tasks; released = ds ++ s.released })
    installs :
        (id : Uuid) {t : Task D} (now : ℤ)
        → get id s.tasks ≡ some t
        → t.phase ≡ stored
        → Step s (record s {
          manager = insert_entry s.manager id t.driver t.database_type now;
          tasks = remove id s.tasks;
        })
    disconnects :
        (answers : D → Result (Unit {0}) DriverError) (id : Uuid)
        → Step s (record s {
          manager = (disconnect answers s.manager id).1;
          released = (disconnect answers s.manager id).0.1 ++ s.released;
        })

  -- Any number of steps.
  pub data Steps (s : System D) : System D → Type 0 where
    stop : Steps s s
    more : {middle after : System D} → Steps s middle → Step middle after → Steps s after

  -- Nothing has been asked of the manager.
  abbrev pub idle : ConnectionManager D → System D
  idle m = record { manager = m; tasks = []; live = []; released = [] }
