-- ===== src/Connections/Manager/Effects.antt =====
-- What the parts of the operations do to the entries, and which drivers they disconnect.
use mathlib.Core.List.{Mem, mem-cons_self}
use headless_db_mcp.Connections.Manager.{
  ConnectionEntry, ConnectionManager, ConnectionManagerError, begin_connect, begin_given,
  after_open, finish_connect, disconnect, disconnected, settle,
}
use headless_db_mcp.Connections.Manager.Holding.{IsConnected, TaskHolds, EntryHolds}
use headless_db_mcp.Connections.Manager.Tasks.{opening, Task, System}
use headless_db_mcp.Core.{ConnectionConfig, DriverError}
use headless_db_mcp.HashMap.{get, remove}
use headless_db_mcp.Prelude.{
  Bool, true, false, nat_eq, text_eq, Option, none, some, List, [], ◌∷◌, ◌++◌, ◌≡◌, refl, sym, ap,
  ◌∙◌, ◌⊎◌, inl, inr, Text, Result, ok, err, if◌then◌else◌,
}
use headless_db_mcp.Registry.Attempts.{Uuid, AttemptToken, ConnectionAttemptRegistry}
use headless_db_mcp.Registry.Sessions.Handover.{insert_if_current_lem}

left_of : {A : Type 0} → A ⊎ ⊥ → A
left_of (inl a) = a
left_of (inr b) = absurd b

module _ {D : Type 0} where
  begin_given_entries :
      (m : ConnectionManager D) (database_type : Text) (config : ConnectionConfig) (id : Uuid)
      (factory : Option (ConnectionConfig → D))
      → (begin_given m database_type config id factory).1.entries ≡ m.entries
  begin_given_entries m database_type config id none = refl
  begin_given_entries m database_type config id (some factory) = refl

  pub begin_connect_entries :
      (m : ConnectionManager D) (database_type : Text) (config : ConnectionConfig) (id : Uuid)
      → (begin_connect m database_type config id).1.entries ≡ m.entries
  unfolding begin_connect
  begin_connect_entries m database_type config id =
      begin_given_entries m database_type config id (get database_type m.factories)

  pub after_open_entries :
      (m : ConnectionManager D) (id : Uuid) (r : Result (Unit {0}) DriverError)
      → (after_open m id r).1.entries ≡ m.entries
  unfolding after_open
  after_open_entries m id (ok u) = refl
  after_open_entries m id (err e) = refl

  pub finish_connect_entries :
      (m : ConnectionManager D) (first : ConnectionAttemptRegistry) (token : AttemptToken)
      (driver : D)
      → (finish_connect m first token driver).1.entries ≡ m.entries
  unfolding finish_connect
  finish_connect_entries m first token driver = refl

  settle_refused :
      (id : Uuid) (accepted : Bool) (driver : D) (o : Option D) (e : ConnectionManagerError)
      (ds : List D)
      → settle id (if accepted then ok o else err driver) ≡ (err e, ds)
      → ds ≡ driver ∷ []
  settle_refused id true driver none e ds h = cc
  settle_refused id true driver (some p) e ds h = cc
  settle_refused id false driver o e ds h = ap (λ x. x.1) (sym h)

  pub finish_connect_refused :
      (m : ConnectionManager D) (first : ConnectionAttemptRegistry) (token : AttemptToken)
      (driver : D) (e : ConnectionManagerError) (ds : List D)
      → (finish_connect m first token driver).0 ≡ (err e, ds)
      → ds ≡ driver ∷ []
  unfolding finish_connect
  finish_connect_refused m first token driver e ds h =
      settle_refused token.connection_id _ driver _ e ds (
        ap (settle token.connection_id)
          (sym (insert_if_current_lem m.sessions first m.attempts token driver 0).0)
        ∙ h)

  pub disconnect_entries :
      (answers : D → Result (Unit {0}) DriverError) (m : ConnectionManager D) (id : Uuid)
      → (disconnect answers m id).1.entries ≡ remove id m.entries
  unfolding disconnect
  disconnect_entries answers m id = refl

  disconnected_entry :
      (answers : D → Result (Unit {0}) DriverError) (o : Option (ConnectionEntry D)) (d : D)
      → EntryHolds o d
      → (disconnected answers o).1 ≡ d ∷ []
  disconnected_entry answers none d h = absurd h
  disconnected_entry answers (some entry) d h = rw h refl

  disconnect_entry :
      (answers : D → Result (Unit {0}) DriverError) (m : ConnectionManager D) (id : Uuid) (d : D)
      → EntryHolds (get id m.entries) d
      → (disconnect answers m id).0.1 ≡ d ∷ []
  unfolding disconnect
  disconnect_entry answers m id d h = disconnected_entry answers (get id m.entries) d h

  pub nothing_held :
      (o : Option (Task D)) (entry : Option (ConnectionEntry D)) (d : D)
      → o ≡ none
      → entry ≡ none
      → ¬ (TaskHolds o d ⊎ EntryHolds entry d)
  nothing_held none none d e f (inl h) = h
  nothing_held none none d e f (inr h) = h
  nothing_held (some t) entry d e f h = cc
  nothing_held none (some entry) d e f h = cc

  pub task_held :
      (o : Option (Task D)) (entry : Option (ConnectionEntry D)) (t : Task D) (d : D)
      → o ≡ some t
      → entry ≡ none
      → TaskHolds o d ⊎ EntryHolds entry d
      → IsConnected t.phase × (t.driver ≡ d)
  task_held o entry t d e f h = left_of (rw (e, f) at h)

  pub opening_holds : (t : Task D) → t.phase ≡ opening → ¬ IsConnected t.phase
  opening_holds t p h = rw p at h

  pub released_now :
      (s : System D) (ds : List D) (driver d : D)
      → ds ≡ driver ∷ []
      → driver ≡ d
      → Mem d (ds ++ s.released)
  released_now s ds driver d e h = rw (e, h) mem-cons_self

  pub held_or_released :
      (answers : D → Result (Unit {0}) DriverError) (s : System D) (id : Uuid) (d : D)
      → TaskHolds (get id s.tasks) d ⊎ EntryHolds (get id s.manager.entries) d
      → Mem d ((disconnect answers s.manager id).0.1 ++ s.released)
        ⊎ TaskHolds (get id s.tasks) d
        ⊎ EntryHolds none d
  held_or_released answers s id d (inl h) = inr (inl h)
  held_or_released answers s id d (inr h) =
      inl (released_now s _ d d (disconnect_entry answers s.manager id d h) refl)
