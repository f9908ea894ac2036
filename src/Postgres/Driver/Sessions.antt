-- ===== src/Postgres/Driver/Sessions.antt =====
-- What a driver holds through any sequence of its methods.
use headless_db_mcp.Core.{CellValue, ConnectionConfig, DriverResult}
use headless_db_mcp.Postgres.Config.{PgConfig, Connector, build_config, connector_of}
use headless_db_mcp.Postgres.Errors.{map_connect_error}
use headless_db_mcp.Postgres.Driver.{
  PostgresDriver, Postgres, new, not_connected_error, connect_with_config, refresh_session_caches,
  install, connect, disconnect, switch_database, keep_schema, switch_schema, execute,
  execute_parameterized, execute_user_query, stream_rows, apply_query_timeout, cancel_query,
}
use headless_db_mcp.Prelude.{
  ℕ, nat_eq, text_eq, Option, none, some, List, [], ◌∷◌, ◌≡◌, refl, ap, Text, ok, err, chain-eq-ok,
  failing_with-eq-ok,
}

module _ {Cert Anchor EndEntity C T Raw Stmt Portal S : Type 0}
    (postgres : Postgres Cert Anchor EndEntity C T Raw Stmt Portal S) where
  -- A call of a method that may change the driver.
  pub data Op : Type 0 where
    connects disconnects : Op
    switches_database switches_schema : Text → Op

  abbrev pub step : Op → PostgresDriver C T × S → PostgresDriver C T × S
  step connects (d, s) = (connect postgres d s).1
  step disconnects (d, s) = (disconnect postgres d, s)
  step (switches_database database) (d, s) = (switch_database postgres d database s).1
  step (switches_schema schema) (d, s) = (switch_schema postgres d schema s).1

  unfoldable pub run : List Op → PostgresDriver C T × S → PostgresDriver C T × S
  run [] state = state
  run (op ∷ ops) state = run ops (step op state)

  module _ (Cancels : T → C → Type 0) where
    -- Nothing, or a client with the token that cancels its queries.
    abbrev pub ArePaired : Option C → Option T → Type 0
    ArePaired none none = Unit
    ArePaired none (some token) = ⊥
    ArePaired (some c) none = ⊥
    ArePaired (some c) (some token) = Cancels token c

    pub record IsHeld (config : ConnectionConfig) (d : PostgresDriver C T) : Type 0 where
      pub paired : ArePaired d.client d.cancel_token
      pub configured : d.config ≡ config

    module _
        (opens : (wire : PgConfig) (connector : Connector Anchor) (s s' : S) (c : C) (token : T)
          → postgres.open_session wire connector s ≡ (ok (c, token), s')
          → Cancels token c) where
      opened-Cancels :
          (config : ConnectionConfig) (s s' : S) (c : C) (token : T)
          → connect_with_config postgres config s ≡ (ok (c, token), s')
          → Cancels token c
      unfolding connect_with_config
      opened-Cancels config s s' c token h =
          let (connector, t, chosen, opened) =
            chain-eq-ok (connector_of postgres.tls config, s) _ h in
          opens (build_config config) connector t s' c token
            (failing_with-eq-ok map_connect_error _ opened)

      install-IsHeld :
          (config : ConnectionConfig) (d : PostgresDriver C T) (r : DriverResult (C × T) × S)
          → ((c : C) (token : T) → r.0 ≡ ok (c, token) → Cancels token c)
          → IsHeld config d
          → IsHeld config (install postgres d r).1.0
      unfolding refresh_session_caches
      install-IsHeld config d (err e, s) f h = h
      install-IsHeld config d (ok (c, token), s) f h = record {
        paired = f c token refl;
        configured = h.configured;
      }

      keep_schema-IsHeld :
          (config : ConnectionConfig) (d : PostgresDriver C T) (schema : Text)
          (r : DriverResult (Unit {0}) × S)
          → IsHeld config d
          → IsHeld config (keep_schema postgres d schema r).1.0
      keep_schema-IsHeld config d schema (err e, s) h = h
      keep_schema-IsHeld config d schema (ok u, s) h = record {
        paired = h.paired;
        configured = h.configured;
      }

      opened-fits :
          (config : ConnectionConfig) (s : S) (c : C) (token : T)
          → (connect_with_config postgres config s).0 ≡ ok (c, token)
          → Cancels token c
      opened-fits config s c token h =
          opened-Cancels config s (connect_with_config postgres config s).1 c token
            (ap (λ r. (r, (connect_with_config postgres config s).1)) h)

      step-IsHeld :
          (config : ConnectionConfig) (op : Op) (d : PostgresDriver C T) (s : S)
          → IsHeld config d
          → IsHeld config (step op (d, s)).0
      unfolding connect disconnect switch_database switch_schema
      step-IsHeld config connects d s h =
          install-IsHeld config d (connect_with_config postgres d.config s) (opened-fits d.config s)
            h
      step-IsHeld config disconnects d s h = record { paired = tt; configured = h.configured }
      step-IsHeld config (switches_database database) d s h =
          install-IsHeld config d
            (connect_with_config postgres (record d.config { database = some database }) s)
            (opened-fits (record d.config { database = some database }) s) h
      step-IsHeld config (switches_schema schema) d s h = keep_schema-IsHeld config d schema _ h

      run-holds :
          (config : ConnectionConfig) (ops : List Op) (state : PostgresDriver C T × S)
          → IsHeld config state.0
          → IsHeld config (run ops state).0
      unfolding run
      run-holds config [] state h = h
      run-holds config (op ∷ ops) (d, s) h =
          run-holds config ops (step op (d, s)) (step-IsHeld config op d s h)

      -- Given that a session is opened with the token that cancels its queries: through any sequence of
      -- calls on a new driver, successful or not, it holds either nothing or a client with the token of
      -- that same client, and keeps the settings that it was made with.
      pub run-IsHeld :
          (config : ConnectionConfig) (ops : List Op) (s : S)
          → IsHeld config (run ops (new config, s)).0
      unfolding new
      run-IsHeld config ops s =
          run-holds config ops (new config, s) (record { paired = tt; configured = refl })

  -- The error of a driver without a connection, from each method, with nothing sent.
  pub record RefusesAll (d : PostgresDriver C T) : Type 0 where
    pub executes :
        (elapsed : ℕ) (sql : Text) (s : S)
        → execute postgres elapsed d sql s ≡ (err not_connected_error, s)
    pub executes_parameterized :
        (elapsed : ℕ) (sql : Text) (parameters : List CellValue) (s : S)
        → execute_parameterized postgres elapsed d sql parameters s ≡ (err not_connected_error, s)
    pub queries :
        (elapsed : ℕ) (sql : Text) (row_cap : Option ℕ) (parameters : Option (List CellValue))
        (s : S)
        → execute_user_query postgres elapsed d sql row_cap parameters s
          ≡ some (err not_connected_error, s)
    pub streams :
        (sql : Text) (s : S)
        → stream_rows postgres d sql s ≡ some ([], (err not_connected_error, s))
    pub sets_timeout :
        (seconds : ℕ) (s : S)
        → apply_query_timeout postgres d seconds s ≡ (err not_connected_error, s)
    pub switches :
        (schema : Text) (s : S)
        → switch_schema postgres d schema s ≡ (err not_connected_error, (d, s))
    pub cancels : (s : S) → cancel_query postgres d s ≡ (err not_connected_error, s)

  -- A driver that was disconnected answers each method with the error for there being no connection,
  -- and sends nothing, not even a request to cancel.
  pub disconnect-RefusesAll : (d : PostgresDriver C T) → RefusesAll (disconnect postgres d)
  unfolding disconnect execute execute_parameterized execute_user_query stream_rows
      apply_query_timeout switch_schema cancel_query
  disconnect-RefusesAll d = record {
    executes = λ elapsed sql s. refl;
    executes_parameterized = λ elapsed sql parameters s. refl;
    queries = λ elapsed sql row_cap parameters s. refl;
    streams = λ sql s. refl;
    sets_timeout = λ seconds s. refl;
    switches = λ schema s. refl;
    cancels = λ s. refl;
  }
