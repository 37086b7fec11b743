-- ===== src/Scenarios/Histories.antt =====
-- A database that the program reaches.
use voxellink_monitor.Common.{ℕ, zero, suc, ◌≡◌, refl, true, [], ◌∷◌, any}
use voxellink_monitor.Domain.{
  unknown, outage, status_timeout, CheckResult, ImportedServer, status_eq,
}
use voxellink_monitor.Store.Tables.{Db, ServerRow, empty}
use voxellink_monitor.Store.Session.{connected}
use voxellink_monitor.Store.Checks.{insert_check, recent_failures, earliest_recent_failure}
use voxellink_monitor.Store.Imports.{upsert_voxellink_server, insert_member}
use voxellink_monitor.Store.Record.{record_check, set_status, open_incident}
use voxellink_monitor.Store.Record.Shown.{IsShown, IsFresh}
use voxellink_monitor.Store.History.{imported, observed, IsReached, created, reached_by}
use voxellink_monitor.Store.History.Outages.{reached-IsShown}
use voxellink_monitor.Scenarios.Data.{lobby, seen}

abbrev listing : ImportedServer
listing = record {
  external_id = "lobby";
  name = "Lobby";
  hostname = "play.example";
  port = 25565;
  transport = "DIRECT";
  members = record { discord_user_id = "d1"; role = "owner" } ∷ [];
}

-- The listing is imported, and the server answers none of three probes.
abbrev listed : Db
listed = (upsert_voxellink_server "u1" 0 listing (connected empty)).1.stored

abbrev after_one : CheckResult → Db → Db
after_one r db = (record_check "i1" 5 (lobby unknown) r (connected db)).1.stored

abbrev failed : ℕ → Db
failed zero = listed
failed (suc n) = after_one (seen status_timeout (suc n)) (failed n)

all-IsFresh : IsFresh "i1" (failed 0) × IsFresh "i1" (failed 1) × IsFresh "i1" (failed 2)
unfolding upsert_voxellink_server record_check insert_member insert_check recent_failures
all-IsFresh = (refl, refl, refl)

abbrev one_more :
    (n : ℕ) → IsFresh "i1" (failed n) → IsReached (failed n) → IsReached (failed (suc n))
one_more n f r =
    reached_by r
      (observed "i1" 5 (lobby unknown) (seen status_timeout (suc n)) (connected (failed n)) f)

failed-IsReached : IsReached (failed 3)
failed-IsReached = one_more 2 all-IsFresh.2 (
    one_more 1 all-IsFresh.1
      (one_more 0 all-IsFresh.0 (reached_by created (imported "u1" 0 listing (connected empty)))))

in_outage : any (λ (s : ServerRow). status_eq s.status outage) (failed 3).servers ≡ true
unfolding upsert_voxellink_server record_check insert_check insert_member recent_failures
    earliest_recent_failure set_status open_incident
in_outage = refl

reached-IsShown_example : IsShown (failed 3)
reached-IsShown_example = reached-IsShown (failed 3) failed-IsReached
