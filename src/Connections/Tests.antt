-- ===== src/Connections/Tests.antt =====
-- A manager whose drivers are numbers, in runs with and without a lost race.
use headless_db_mcp.Connections.Manager.{
  ConnectionManager, begin_connect, after_open, finish_connect, disconnect, new,
}
use headless_db_mcp.Connections.Manager.Holding.{Kept}
use headless_db_mcp.Connections.Manager.NoLeak.{Steps-Kept}
use headless_db_mcp.Connections.Manager.Tasks.{
  System, Steps, stop, more, starts, opens, loses, disconnects, idle,
}
use headless_db_mcp.Core.{ConnectionConfig, DriverError}
use headless_db_mcp.HashMap.{get, insert, remove}
use headless_db_mcp.Prelude.{
  ℕ, false, nat_eq, text_eq, none, [], ◌∷◌, ◌≡◌, refl, All, codes, Result, ok,
}
use headless_db_mcp.Registry.Attempts.{begin, is_current, next_generation, forget}
use headless_db_mcp.Registry.Sessions.{insert_if_current, remove_session}

abbrev config : ConnectionConfig
config = record {
  host = [];
  port = 0;
  username = [];
  password = none;
  database = none;
  ssl = record { mode = none; ca_path = none; client_cert_path = none; client_key_path = none };
  read_only = false;
  additional_fields = [];
}

abbrev ready : ConnectionManager ℕ
ready = record new { factories = (codes "Mock", λ c. 5) ∷ [] }

abbrev healthy : ℕ → Result (Unit {0}) DriverError
healthy d = ok tt

-- `disconnect` overtakes a `connect` that is under way.
abbrev Lost : Type 0
Lost = (after : System ℕ) × Steps (idle ready) after × (after.live ≡ (9, 5) ∷ [])

abbrev lost : Lost
unfolding get insert remove begin_connect begin next_generation disconnect remove_session forget
    finish_connect insert_if_current is_current after_open
lost = (
  _,
  more
      (more (more (more stop (starts (codes "Mock") config 9 refl refl refl)) (opens 9 refl refl))
        (disconnects healthy 9))
      (loses 9 (begin ready.attempts 9).0 refl refl refl),
  refl,
)

Steps-Kept_example : All (Kept lost.0) lost.0.live
Steps-Kept_example = Steps-Kept ready refl lost.1
