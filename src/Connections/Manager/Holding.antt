-- ===== src/Connections/Manager/Holding.antt =====
-- Who holds a driver: the invariant of the manager and the steps that concern one id.
use mathlib.Core.List.{Mem}
use headless_db_mcp.Connections.Manager.{ConnectionEntry}
use headless_db_mcp.Connections.Manager.Tasks.{Phase, opening, Task, System}
use headless_db_mcp.HashMap.{get}
use headless_db_mcp.Prelude.{
  false, ◌==◌, nat_eq, text_eq, nat_beq_iff, Option, none, some, List, [], ◌∷◌, ◌≡◌, sym, ◌∙◌, ◌⊎◌,
  inl, inr, All, Bool-cases,
}
use headless_db_mcp.Registry.Attempts.{Uuid}

abbrev pub IsConnected : Phase → Type 0
IsConnected opening = ⊥
IsConnected _ = Unit

module _ {D : Type 0} where
  -- The task or the entry has the driver.
  abbrev pub TaskHolds : Option (Task D) → D → Type 0
  TaskHolds none d = ⊥
  TaskHolds (some t) d = IsConnected t.phase × (t.driver ≡ d)

  abbrev pub EntryHolds : Option (ConnectionEntry D) → D → Type 0
  EntryHolds none d = ⊥
  EntryHolds (some entry) d = entry.driver ≡ d

  -- The driver has been asked to disconnect, or a `connect` under way or the entry of its id has it.
  abbrev pub Kept : System D → Uuid × D → Type 0
  Kept s (id, d) =
      Mem d s.released ⊎ TaskHolds (get id s.tasks) d ⊎ EntryHolds (get id s.manager.entries) d

  pub record IsSound (s : System D) : Type 0 where
    pub kept : All (Kept s) s.live
    pub apart : (id : Uuid) (t : Task D) → get id s.tasks ≡ some t → get id s.manager.entries ≡ none

  -- A step that changes what is known of one id only.
  pub record Frame (s after : System D) (id : Uuid) : Type 0 where
    pub grows : (d : D) → Mem d s.released → Mem d after.released
    pub tasks : (j : Uuid) → (id == j) ≡ false → get j after.tasks ≡ get j s.tasks
    pub entries :
        (j : Uuid) → (id == j) ≡ false → get j after.manager.entries ≡ get j s.manager.entries
    pub task : Option (Task D)
    pub entry : Option (ConnectionEntry D)
    pub task_here : get id after.tasks ≡ task
    pub entry_here : get id after.manager.entries ≡ entry
    pub keeps :
        (d : D)
        → TaskHolds (get id s.tasks) d ⊎ EntryHolds (get id s.manager.entries) d
        → Mem d after.released ⊎ TaskHolds task d ⊎ EntryHolds entry d
    pub apart_here : (t : Task D) → task ≡ some t → entry ≡ none

  Kept-other :
      (s after : System D) (id : Uuid) (f : Frame s after id) (j : Uuid) (d : D)
      → (id == j) ≡ false
      → Kept s (j, d)
      → Kept after (j, d)
  Kept-other s after id f j d e (inl m) = inl (f.grows d m)
  Kept-other s after id f j d e (inr h) = rw (f.tasks j e, f.entries j e) (inr h)

  Kept-here :
      (s after : System D) (id : Uuid) (f : Frame s after id) (d : D)
      → Kept s (id, d)
      → Kept after (id, d)
  Kept-here s after id f d (inl m) = inl (f.grows d m)
  Kept-here s after id f d (inr h) = rw (f.task_here, f.entry_here) (f.keeps d h)

  Kept-Frame :
      (s after : System D) (id : Uuid) (f : Frame s after id) (j : Uuid) (d : D)
      → Kept s (j, d)
      → Kept after (j, d)
  Kept-Frame s after id f j d k = elim (Bool-cases (id == j)) [
    | inl e ↦
        rw (sym ((nat_beq_iff id j).0 e))
          (Kept-here s after id f d (rw (sym ((nat_beq_iff id j).0 e)) at k))
    | inr e ↦ Kept-other s after id f j d e k
  ]

  Kept-All :
      (s after : System D) (id : Uuid) (f : Frame s after id) (live : List (Uuid × D))
      → All (Kept s) live
      → All (Kept after) live
  Kept-All s after id f [] h = tt
  Kept-All s after id f ((j, d) ∷ live) h =
      (Kept-Frame s after id f j d h.0, Kept-All s after id f live h.1)

  apart_after :
      (s after : System D) (id : Uuid) (f : Frame s after id)
      → IsSound s
      → (j : Uuid) (t : Task D) → get j after.tasks ≡ some t
      → get j after.manager.entries ≡ none
  apart_after s after id f i j t e = elim (Bool-cases (id == j)) [
    | inl h ↦
        rw (sym ((nat_beq_iff id j).0 h)) (
          f.entry_here
          ∙ f.apart_here t (sym f.task_here ∙ (rw (sym ((nat_beq_iff id j).0 h)) at e)))
    | inr h ↦ f.entries j h ∙ i.apart j t (sym (f.tasks j h) ∙ e)
  ]

  pub IsSound-Frame :
      (s after : System D) (id : Uuid)
      → Frame s after id
      → IsSound s
      → after.live ≡ s.live
      → IsSound after
  IsSound-Frame s after id f i e = record {
    kept = rw e (Kept-All s after id f s.live i.kept);
    apart = apart_after s after id f i;
  }

  -- The same for a step that opens the driver that its task has.
  pub IsSound-Frame_opened :
      (s after : System D) (id : Uuid) (f : Frame s after id) (d : D)
      → IsSound s
      → after.live ≡ (id, d) ∷ s.live
      → TaskHolds (get id after.tasks) d
      → IsSound after
  IsSound-Frame_opened s after id f d i e h = record {
    kept = rw e (inr (inl h), Kept-All s after id f s.live i.kept);
    apart = apart_after s after id f i;
  }
