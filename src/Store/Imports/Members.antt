-- ===== src/Store/Imports/Members.antt =====
-- What an import commits, and what it leaves alone.
use voxellink_monitor.Common.{ℕ, String, ◌≡◌, refl, List, [], ◌∷◌, arith}
use voxellink_monitor.Domain.{ServerMember, ImportedServer}
use voxellink_monitor.Store.Tables.{Db}
use voxellink_monitor.Store.Session.{Session, change}
use voxellink_monitor.Store.Session.Atomic.{
  IsQuiet, IsAtomic, atomic_rules, bind-IsQuiet, statement-IsQuiet,
}
use voxellink_monitor.Store.Session.Invariants.{
  Leaves, Maintains, pure-Maintains, statement-Maintains, bind-Maintains, maintain_rules, begun,
}
use voxellink_monitor.Store.Imports.{
  upsert_row, delete_members, insert_member, insert_members, upsert_voxellink_server,
}

insert_members-IsQuiet : (id : String) (ms : List ServerMember) → IsQuiet (insert_members id ms)
unfolding insert_members
insert_members-IsQuiet id [] = search atomic_rules
insert_members-IsQuiet id (m ∷ rest) =
    bind-IsQuiet _ _ (statement-IsQuiet _) (λ _. insert_members-IsQuiet id rest)

-- If UpsertVoxelLinkServer returns an error, whichever call failed, the committed database is as it
-- was.
pub upsert_voxellink_server-IsAtomic :
    (uuid : String) (now : ℕ) (i : ImportedServer) → IsAtomic (upsert_voxellink_server uuid now i)
unfolding upsert_voxellink_server
upsert_voxellink_server-IsAtomic uuid now i = search (atomic_rules, insert_members-IsQuiet) depth 12

-- What Monitor owns: the observations, the incidents, the reports, the queue and the rollups.
pub record SameMonitoring (a b : Db) : Type 0 where
  pub checks : a.checks ≡ b.checks
  pub incidents : a.incidents ≡ b.incidents
  pub reports : a.reports ≡ b.reports
  pub pending : a.pending ≡ b.pending
  pub windows : a.windows ≡ b.windows
  pub channels : a.channels ≡ b.channels
  pub quarters : a.quarters ≡ b.quarters
  pub hours : a.hours ≡ b.hours
  pub days : a.days ≡ b.days
  pub report_quarters : a.report_quarters ≡ b.report_quarters

pub SameMonitoring-refl : (a : Db) → SameMonitoring a a
SameMonitoring-refl a = record {
  checks = refl;
  incidents = refl;
  reports = refl;
  pending = refl;
  windows = refl;
  channels = refl;
  quarters = refl;
  hours = refl;
  days = refl;
  report_quarters = refl;
}

module _ (db : Db) where
  abbrev Same : Db → Type 0
  Same w = SameMonitoring w db

  upsert_row-Same :
      (uuid : String) (now : ℕ) (i : ImportedServer) (w : Db)
      → Same w
      → Leaves Same (upsert_row uuid now i w)
  unfolding upsert_row
  upsert_row-Same uuid now i w h = ground arith

  insert_member-Same :
      (id : String) (m : ServerMember) (w : Db) → Same w → Leaves Same (insert_member id m w)
  unfolding insert_member
  insert_member-Same id m w h = ground arith

  insert_members-Same :
      (id : String) (ms : List ServerMember) → Maintains Same (insert_members id ms)
  unfolding insert_members
  insert_members-Same id [] = pure-Maintains tt
  insert_members-Same id (m ∷ rest) =
      bind-Maintains _ _ (statement-Maintains _ (insert_member-Same id m))
        (λ _. insert_members-Same id rest)

  delete_members-Same : (id : String) (w : Db) → Same w → Leaves Same (change (delete_members id) w)
  unfolding delete_members
  delete_members-Same id w h = ground arith

-- An import never touches the checks, the incidents, the reports, the queue, the maintenance
-- windows, the channels or the rollups, whether it succeeds or fails.
pub upsert_voxellink_server-SameMonitoring :
    (uuid : String) (now : ℕ) (i : ImportedServer) (s : Session)
    → SameMonitoring (upsert_voxellink_server uuid now i s).1.stored s.stored
unfolding upsert_voxellink_server
upsert_voxellink_server-SameMonitoring uuid now i s =
    begun {P = Same s.stored} _
      (λ u.
        search (maintain_rules, upsert_row-Same, insert_members-Same, delete_members-Same) depth 12)
      s (SameMonitoring-refl s.stored)
