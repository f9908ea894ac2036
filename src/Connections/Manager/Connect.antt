-- ===== src/Connections/Manager/Connect.antt =====
-- `connect` as a whole, when no other task runs between its awaits.
use headless_db_mcp.Connections.Manager.{
  ConnectionManager, ConnectionManagerError, begin_connect, after_open, finish_connect,
  insert_entry,
}
use headless_db_mcp.Core.{ConnectionConfig, DriverError}
use headless_db_mcp.Prelude.{nat_eq, text_eq, List, [], Text, Result, ok, err, ℤ}
use headless_db_mcp.Registry.Attempts.{Uuid, AttemptToken}

-- The result, the drivers that were disconnected, and the manager.
abbrev pub Connected : Type 0 → Type 0
Connected D = (Result Uuid ConnectionManagerError × List D) × ConnectionManager D

module _ {D : Type 0} where
  module _ (id : Uuid) (driver : D) (database_type : Text) (now : ℤ) where
    abbrev pub connect_finished :
        Result (Unit {0}) ConnectionManagerError → List D → ConnectionManager D → Connected D
    connect_finished (err e) ds m = ((err e, ds), m)
    connect_finished (ok u) ds m = ((ok id, ds), insert_entry m id driver database_type now)

    abbrev pub connect_opened :
        AttemptToken → Result (Unit {0}) ConnectionManagerError → ConnectionManager D → Connected D
    connect_opened token (err e) m = ((err e, []), m)
    connect_opened token (ok u) m =
        let ((r, ds), m') = finish_connect m m.attempts token driver in connect_finished r ds m'

  -- `opens` is what each driver answers to `connect`, and `now` the time.
  module _ (opens : D → Result (Unit {0}) DriverError) where
    abbrev pub connect_begun :
        Uuid
        → Text
        → ℤ
        → Result (AttemptToken × D) ConnectionManagerError
        → ConnectionManager D
        → Connected D
    connect_begun id database_type now (err e) m = ((err e, []), m)
    connect_begun id database_type now (ok (token, driver)) m =
        let (r, m') = after_open m id (opens driver) in
        connect_opened id driver database_type now token r m'

    unfoldable pub connect : ConnectionManager D → Text → ConnectionConfig → Uuid → ℤ → Connected D
    connect m database_type config id now =
        let (r, m') = begin_connect m database_type config id in
        connect_begun id database_type now r m'
