-- ===== src/Connections/Manager/NoLeak.antt =====
-- The drivers that have connected, over the steps of the manager.
use mathlib.Core.List.{Mem, mem-append_right}
use headless_db_mcp.Connections.Manager.{
  ConnectionManager, ConnectionManagerError, finish_connect, insert_entry, disconnect,
}
use headless_db_mcp.Connections.Manager.Effects.{
  begin_connect_entries, after_open_entries, finish_connect_entries, finish_connect_refused,
  disconnect_entries, nothing_held, task_held, opening_holds, released_now, held_or_released,
}
use headless_db_mcp.Connections.Manager.Holding.{
  Frame, IsConnected, TaskHolds, EntryHolds, Kept, IsSound, IsSound-Frame, IsSound-Frame_opened,
}
use headless_db_mcp.Connections.Manager.Tasks.{
  opened, at_phase, Task, System, Step, starts, opens, open_fails, finishes, loses, installs,
  disconnects, Steps, stop, more, idle,
}
use headless_db_mcp.Core.{DriverError}
use headless_db_mcp.HashMap.{
  insert, get, remove, get-insert_same, get-insert_other, get-remove_same, get-remove_other,
}
use headless_db_mcp.Prelude.{
  ℤ, nat_eq, text_eq, none, some, List, [], ◌++◌, ◌≡◌, refl, sym, ap, ◌∙◌, ◌⊎◌, inl, inr, All,
  Result, ok, err,
}
use headless_db_mcp.Registry.Attempts.{Uuid, ConnectionAttemptRegistry}

module _ {D : Type 0} where
  -- A step that puts the task of an id without an entry, or drops it.
  module _ (s : System D) (m : ConnectionManager D) (id : Uuid) (live : List (Uuid × D))
      (ds : List D) (same : m.entries ≡ s.manager.entries)
      (unused : get id s.manager.entries ≡ none) where
    Frame-put :
        (t : Task D)
        → ((d : D)
            → TaskHolds (get id s.tasks) d ⊎ EntryHolds (get id s.manager.entries) d
            → TaskHolds (some t) d)
        → Frame s
            (record {
              manager = m;
              tasks = insert id t s.tasks;
              live = live;
              released = ds ++ s.released;
            })
            id
    Frame-put t keeps = record {
      task = some t;
      entry = none;
      grows = λ d h. mem-append_right ds h;
      tasks = λ j h. get-insert_other id j t s.tasks h;
      entries = λ j h. ap (get j) same;
      task_here = get-insert_same id t s.tasks;
      entry_here = ap (get id) same ∙ unused;
      keeps = λ d h. inr (inl (keeps d h));
      apart_here = λ u h. refl;
    }

    Frame-drop :
        ((d : D)
          → TaskHolds (get id s.tasks) d ⊎ EntryHolds (get id s.manager.entries) d
          → Mem d (ds ++ s.released))
        → Frame s
            (record {
              manager = m;
              tasks = remove id s.tasks;
              live = live;
              released = ds ++ s.released;
            })
            id
    Frame-drop keeps = record {
      task = none;
      entry = none;
      grows = λ d h. mem-append_right ds h;
      tasks = λ j h. get-remove_other id j s.tasks h;
      entries = λ j h. ap (get j) same;
      task_here = get-remove_same id s.tasks;
      entry_here = ap (get id) same ∙ unused;
      keeps = λ d h. inl (keeps d h);
      apart_here = λ u h. refl;
    }

  Frame-insert_entry :
      (s : System D) (id : Uuid) (t : Task D) (now : ℤ)
      → ((d : D)
          → TaskHolds (get id s.tasks) d ⊎ EntryHolds (get id s.manager.entries) d
          → t.driver ≡ d)
      → Frame s
          (record s {
            manager = insert_entry s.manager id t.driver t.database_type now;
            tasks = remove id s.tasks;
          })
          id
  unfolding insert_entry
  Frame-insert_entry s id t now keeps = record {
    task = none;
    entry =
        some (record { driver = t.driver; database_type = t.database_type; connected_at = now });
    grows = λ d h. h;
    tasks = λ j h. get-remove_other id j s.tasks h;
    entries = λ j h. get-insert_other id j _ s.manager.entries h;
    task_here = get-remove_same id s.tasks;
    entry_here = get-insert_same id _ s.manager.entries;
    keeps = λ d h. inr (inr (keeps d h));
    apart_here = λ u h. cc;
  }

  Frame-disconnect :
      (answers : D → Result (Unit {0}) DriverError) (s : System D) (id : Uuid)
      → Frame s
          (record s {
            manager = (disconnect answers s.manager id).1;
            released = (disconnect answers s.manager id).0.1 ++ s.released;
          })
          id
  Frame-disconnect answers s id = record {
    task = get id s.tasks;
    entry = none;
    grows = λ d h. mem-append_right (disconnect answers s.manager id).0.1 h;
    tasks = λ j h. refl;
    entries = λ j h.
        ap (get j) (disconnect_entries answers s.manager id)
        ∙ get-remove_other id j s.manager.entries h;
    task_here = refl;
    entry_here =
        ap (get id) (disconnect_entries answers s.manager id)
        ∙ get-remove_same id s.manager.entries;
    keeps = λ d h. held_or_released answers s id d h;
    apart_here = λ u h. refl;
  }

  -- The task of an id has what is held of it.
  held_by :
      (s : System D) (id : Uuid) (t : Task D) (d : D)
      → IsSound s
      → get id s.tasks ≡ some t
      → TaskHolds (get id s.tasks) d ⊎ EntryHolds (get id s.manager.entries) d
      → IsConnected t.phase × (t.driver ≡ d)
  held_by s id t d i e h =
      task_held (get id s.tasks) (get id s.manager.entries) t d e (i.apart id t e) h

  finish_entries :
      (s : System D) (first : ConnectionAttemptRegistry) (t : Task D)
      {r : Result (Unit {0}) ConnectionManagerError × List D} {m : ConnectionManager D}
      → finish_connect s.manager first t.token t.driver ≡ (r, m)
      → m.entries ≡ s.manager.entries
  finish_entries s first t f =
      ap (λ x. x.1.entries) (sym f) ∙ finish_connect_entries s.manager first t.token t.driver

  IsSound-Step : {s after : System D} → Step s after → IsSound s → IsSound after
  IsSound-Step {s} (starts database_type config id {token} {driver} {m} free unused e) i =
      IsSound-Frame s _ id
        (Frame-put s m id s.live []
          (ap (λ x. x.1.entries) (sym e) ∙ begin_connect_entries s.manager database_type config id)
          unused _
          (λ d h.
            absurd (nothing_held (get id s.tasks) (get id s.manager.entries) d free unused h)))
        i refl
  IsSound-Step {s} (opens id {t} e p) i =
      IsSound-Frame_opened s _ id
        (Frame-put s _ id _ [] (after_open_entries s.manager id (ok tt)) (i.apart id t e) _
          (λ d h. absurd (opening_holds t p (held_by s id t d i e h).0)))
        t.driver i refl (rw (get-insert_same id (at_phase opened t) s.tasks) (tt, refl))
  IsSound-Step {s} (open_fails id {t} r e p) i =
      IsSound-Frame s _ id
        (Frame-drop s _ id _ [] (after_open_entries s.manager id (err r)) (i.apart id t e)
          (λ d h. absurd (opening_holds t p (held_by s id t d i e h).0)))
        i refl
  IsSound-Step {s} (finishes id {t} first {ds} {m} e p f) i =
      IsSound-Frame s _ id
        (Frame-put s m id _ ds (finish_entries s first t f) (i.apart id t e) _
          (λ d h. (tt, (held_by s id t d i e h).1)))
        i refl
  IsSound-Step {s} (loses id {t = t} first {e = x} {ds = ds} {m = m} e p f) i =
      IsSound-Frame s _ id
        (Frame-drop s m id _ ds (finish_entries s first t f) (i.apart id t e) (λ d h.
          released_now s ds t.driver d
            (finish_connect_refused s.manager first t.token t.driver x ds (ap (λ y. y.0) f))
            (held_by s id t d i e h).1))
        i refl
  IsSound-Step {s} (installs id {t} now e p) i =
      IsSound-Frame s _ id (Frame-insert_entry s id t now (λ d h. (held_by s id t d i e h).1)) i
        refl
  IsSound-Step {s} (disconnects answers id) i =
      IsSound-Frame s _ id (Frame-disconnect answers s id) i refl

  IsSound-Steps : {s after : System D} → Steps s after → IsSound s → IsSound after
  IsSound-Steps stop i = i
  IsSound-Steps (more steps one) i = IsSound-Step one (IsSound-Steps steps i)

  -- From a manager with no entry, after any interleaving of the parts of `connect` and `disconnect`
  -- calls in which no id is started that has a `connect` under way or an entry, each driver that
  -- has connected has been asked to disconnect, or is held by a `connect` that is still under way,
  -- or is the driver of the entry of its id.
  pub Steps-Kept :
      (m : ConnectionManager D) {after : System D}
      → m.entries ≡ []
      → Steps (idle m) after
      → All (Kept after) after.live
  unfolding get
  Steps-Kept m e steps = (IsSound-Steps steps (record { kept = tt; apart = λ id t h. cc })).kept
