-- ===== src/Connections/Manager/Solo.antt =====
-- What the manager answers and shows after each of its operations.
use mathlib.Core.List.{Perm}
use headless_db_mcp.Connections.Manager.{
  ConnectionEntry, ConnectionManager, ConnectionManagerError, driver_failed, not_found,
  begin_connect, after_open, finish_connect, insert_entry, disconnect, disconnected, settle,
  driver_of, get_driver, list_connections, from_entry,
}
use headless_db_mcp.Connections.Manager.Connect.{
  connect, connect_begun, connect_opened, connect_finished,
}
use headless_db_mcp.Core.{ConnectionConfig, DriverError}
use headless_db_mcp.HashMap.{get, insert, get-insert, get-remove}
use headless_db_mcp.Prelude.{
  Bool, true, false, leb, ◌==◌, nat_eq, text_eq, Option, none, some, List, [], ◌∷◌, map, ◌≡◌, refl,
  ap, ◌∙◌, ◌⊎◌, inl, inr, arith, Text, Result, ok, err, map_err, if◌then◌else◌, ℤ,
}
use headless_db_mcp.Registry.Attempts.{Uuid, AttemptToken, begin, is_current, run}
use headless_db_mcp.Registry.Attempts.Fencing.{is_current-run}
use headless_db_mcp.Registry.Sessions.Handover.{insert_if_current_lem}
use headless_db_mcp.Sorting.Sorted.{IsSorted, sort_by_key-perm, sort_by_key-IsSorted}

module _ {D : Type 0} where
  driver_of-if :
      (j : Uuid) (b : Bool) (o p : Option (ConnectionEntry D))
      → driver_of j (if b then o else p) ≡ (if b then driver_of j o else driver_of j p)
  driver_of-if j true o p = refl
  driver_of-if j false o p = refl

  disconnected_lem :
      (answers : D → Result (Unit {0}) DriverError) (id : Uuid) (o : Option (ConnectionEntry D))
      → (driver_of id o ≡ err (not_found id)) × (disconnected answers o ≡ (ok tt, []))
        ⊎ ((d : D) × (driver_of id o ≡ ok d)
            × (disconnected answers o ≡ (map_err driver_failed (answers d), d ∷ [])))
  disconnected_lem answers id none = inl (refl, refl)
  disconnected_lem answers id (some entry) = inr (entry.driver, refl, refl)

  -- After `disconnect` its id has no driver and no entry and every other id has the driver it had;
  -- the driver of the id, if there was one, is the one that was disconnected, and else the call
  -- succeeds and disconnects none.
  pub disconnect-get_driver :
      (answers : D → Result (Unit {0}) DriverError) (m : ConnectionManager D) (id j : Uuid)
      → let (outcome, after) = disconnect answers m id in
        (get_driver after j ≡ (if id == j then err (not_found j) else get_driver m j))
        × ((get_driver m id ≡ err (not_found id)) × (outcome ≡ (ok tt, []))
            ⊎ ((d : D) × (get_driver m id ≡ ok d)
                × (outcome ≡ (map_err driver_failed (answers d), d ∷ []))))
  unfolding disconnect get_driver
  disconnect-get_driver answers m id j = (
    ap (driver_of j) (get-remove id j m.entries) ∙ driver_of-if j (id == j) none (get j m.entries),
    disconnected_lem answers id (get id m.entries),
  )

  -- The connections are listed in the order of their ids, one for each entry.
  list_connections-IsSorted :
      (m : ConnectionManager D)
      → IsSorted leb (λ s. s.connection_id) (list_connections m)
        × Perm (list_connections m) (map (λ entry. from_entry entry.0 entry.1) m.entries)
  unfolding list_connections
  list_connections-IsSorted m =
      (sort_by_key-IsSorted leb _ (λ x y h. ground arith) _, sort_by_key-perm leb _ _)

  module _ (opens : D → Result (Unit {0}) DriverError) (m : ConnectionManager D)
      (database_type : Text) (config : ConnectionConfig) (id : Uuid) (now : ℤ) where
    finished_lem :
        (driver : D) (r : Result (Unit {0}) ConnectionManagerError) (ds : List D)
        (now_held : ConnectionManager D)
        → r ≡ ok tt
        → let (outcome, after) = connect_finished id driver database_type now r ds now_held in
          (outcome.0 ≡ ok id)
          × (after.entries
              ≡ insert id
                  (record { driver = driver; database_type = database_type; connected_at = now })
                  now_held.entries)
    unfolding insert_entry
    finished_lem driver (ok u) ds now_held h = (refl, refl)
    finished_lem driver (err e) ds now_held h = cc

    settle_accepted :
        (key : Uuid) (accepted : Bool) (o : Option D) (driver : D)
        → accepted ≡ true
        → (settle key (if accepted then ok o else err driver)).0 ≡ ok tt
    settle_accepted key true none driver h = refl
    settle_accepted key true (some previous) driver h = refl
    settle_accepted key false o driver h = cc

    opened_lem :
        (driver : D) (held : ConnectionManager D) (token : AttemptToken)
        → is_current held.attempts token ≡ true
        → let (outcome, after) = connect_opened id driver database_type now token (ok tt) held in
          (outcome.0 ≡ ok id)
          × (after.entries
              ≡ insert id
                  (record { driver = driver; database_type = database_type; connected_at = now })
                  held.entries)
    unfolding finish_connect
    opened_lem driver held token h = finished_lem driver _ _ _ (
        rw (insert_if_current_lem held.sessions held.attempts held.attempts token driver 0).0
          (settle_accepted token.connection_id _ _ driver (rw h refl)))

    begun : ConnectionManager D
    begun = record m { attempts = (begin m.attempts id).0 }

    connect_known :
        (factory : ConnectionConfig → D)
        → get database_type m.factories ≡ some factory
        → connect opens m database_type config id now
          ≡ connect_begun opens id database_type now
              (ok ((begin m.attempts id).1, factory config))
              begun
    unfolding connect begin_connect begun
    connect_known factory e = rw e refl

    token_current : is_current (begin m.attempts id).0 (begin m.attempts id).1 ≡ true
    unfolding run
    token_current = is_current-run m.attempts id [] refl ∙ ground arith

    begun_lem :
        (driver : D) (j : Uuid) (r : Result (Unit {0}) DriverError)
        → opens driver ≡ r
        → let (outcome, after) =
            connect_begun opens id database_type now (ok ((begin m.attempts id).1, driver)) begun in
          (r ≡ ok tt)
            × (outcome.0 ≡ ok id)
            × (get_driver after j ≡ (if id == j then ok driver else get_driver m j))
          ⊎ ((e : DriverError) × (r ≡ err e)
              × (outcome.0 ≡ err (driver_failed e))
              × (get_driver after j ≡ get_driver m j))
    unfolding after_open begun get_driver
    begun_lem driver j (err e) h = rw h (inr (e, refl, refl, refl))
    begun_lem driver j (ok u) h =
        let (answer, entries) = opened_lem driver begun (begin m.attempts id).1 token_current in
        rw h (
          inl (
            refl,
            answer,
            ap (driver_of j) (ap (get j) entries ∙ get-insert id j _ m.entries)
                ∙ driver_of-if j (id == j) _ (get j m.entries),
          ))

    -- Without another task in between, `connect` with the name of a factory answers its id if the
    -- driver connects, and then the id has that driver; if not, it answers the driver's error. Every
    -- other id has the driver it had, as has the id itself if the driver does not connect.
    pub connect-get_driver :
        (factory : ConnectionConfig → D) (j : Uuid)
        → get database_type m.factories ≡ some factory
        → let (outcome, after) = connect opens m database_type config id now in
          (opens (factory config) ≡ ok tt)
            × (outcome.0 ≡ ok id)
            × (get_driver after j ≡ (if id == j then ok (factory config) else get_driver m j))
          ⊎ ((e : DriverError) × (opens (factory config) ≡ err e)
              × (outcome.0 ≡ err (driver_failed e))
              × (get_driver after j ≡ get_driver m j))
    connect-get_driver factory j e =
        rw (connect_known factory e) (begun_lem (factory config) j _ refl)
