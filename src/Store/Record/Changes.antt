-- ===== src/Store/Record/Changes.antt =====
-- One statement of a change: servers in OUTAGE and their incidents before and after it.
use voxellink_monitor.Common.{
  ℕ, String, ◌≡◌, refl, inl, inr, false, none, List, [], ◌∷◌, Option-cases,
}
use voxellink_monitor.Domain.{PublicStatus, outage, Outcome, status_eq}
use voxellink_monitor.Store.Tables.{ServerRow, IncidentRow, opened, Db}
use voxellink_monitor.Store.Record.{latest_open, set_status, open_incident, resolve_incident}
use voxellink_monitor.Store.Record.Shown.{
  HasOpen, IsPrimaryKey, IsShown, IsFresh, OthersHaveOpen, OnlyOthers, moved-OthersHaveOpen,
  moved-OnlyOthers, opened-HasOpen, latest_open-IsOf, closed-HasOpen, closed-IsPrimaryKey,
}

module _ (uuid : String) where
  abbrev pub Before : Db → Type 0
  Before db = IsShown db × IsFresh uuid db

  -- After the change of the row to OUTAGE, and before the incident is there.
  abbrev pub Opening : String → Db → Type 0
  Opening id db =
      OthersHaveOpen id db.incidents db.servers × IsPrimaryKey db.incidents × IsFresh uuid db

-- After the change of the row to another status.
abbrev pub Closing : String → Db → Type 0
Closing id db = OnlyOthers id db.incidents db.servers × IsPrimaryKey db.incidents

pub set_status-Opening :
    (uuid : String) (now : ℕ) (id : String) (at : ℕ) (w : Db)
    → Before uuid w
    → Opening uuid id (set_status now id outage at w)
unfolding set_status
set_status-Opening uuid now id at w ((h, u), f) =
    (moved-OthersHaveOpen now id outage at w.incidents w.servers h, u, f)

pub set_status-Closing :
    (now : ℕ) (id : String) (next : PublicStatus) (at : ℕ) (w : Db)
    → status_eq next outage ≡ false
    → IsShown w
    → Closing id (set_status now id next at w)
unfolding set_status
set_status-Closing now id next at w e (h, u) =
    (moved-OnlyOthers now id next at w.incidents w.servers e h, u)

pub open_incident-IsShown :
    (uuid id : String) (reason : Outcome) (started_at at : ℕ) (w : Db)
    → Opening uuid id w
    → IsShown (open_incident uuid id reason started_at at w)
unfolding open_incident
open_incident-IsShown uuid id reason started_at at w (h, u, f) = (
  opened-HasOpen
      (record {
        id = uuid;
        server_id = id;
        state = opened;
        reason = reason;
        started_at = started_at;
        confirmed_at = at;
        recovery_started_at = none;
        resolved_at = none;
      })
      w.incidents w.servers refl h,
  (f, u),
)

pub OnlyOthers-HasOpen :
    (id : String) (incidents : List IncidentRow) (rows : List ServerRow)
    → OnlyOthers id incidents rows
    → HasOpen incidents rows
OnlyOthers-HasOpen id incidents [] h = tt
OnlyOthers-HasOpen id incidents (s ∷ rows) (h, k) =
    ((λ down. (h down).1), OnlyOthers-HasOpen id incidents rows k)

pub Closing-IsShown : (id : String) (w : Db) → Closing id w → IsShown w
Closing-IsShown id w (h, u) = (OnlyOthers-HasOpen id w.incidents w.servers h, u)

pub resolve_incident-IsShown :
    (id : String) (recovery at : ℕ) (w : Db)
    → Closing id w
    → IsShown (resolve_incident id recovery at w)
unfolding resolve_incident
resolve_incident-IsShown id recovery at w (h, u) =
    elim (Option-cases (latest_open id w.incidents)) [
      | inl e ↦ rw (resolve_incident, e) (Closing-IsShown id w (h, u))
      | inr (i, e) ↦
          let (o, _) = latest_open-IsOf id w.incidents i u e in
          rw (resolve_incident, e)
            (
              closed-HasOpen id recovery at i w.incidents w.servers o h,
              closed-IsPrimaryKey id recovery at i w.incidents u,
            )
    ]
