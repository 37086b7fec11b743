-- ===== src/Store/History.antt =====
-- The writes of the program on its database, one after the other.
pub mod Statements
pub mod Rollups
pub mod Outages
use voxellink_monitor.Common.{ℕ, String, Bool, ℤ}
use voxellink_monitor.Domain.{Server, CheckResult, UserReport, ImportedServer}
use voxellink_monitor.Store.Tables.{Db, empty}
use voxellink_monitor.Store.Session.{Session}
use voxellink_monitor.Store.Record.{record_check}
use voxellink_monitor.Store.Record.Shown.{IsFresh}
use voxellink_monitor.Store.Reports.{record_user_report}
use voxellink_monitor.Store.Notices.{mark_state_notification_delivered}
use voxellink_monitor.Store.Imports.{upsert_voxellink_server}
use voxellink_monitor.Store.Owner.{
  set_enabled_for_discord_member, set_notification_channel_for_discord_member,
  schedule_maintenance_for_discord_member,
}
use voxellink_monitor.Store.Retention.{run_retention}

-- One operation that writes, on a session in which any of its calls may fail. The uuid of a new
-- incident is that of none before.
pub data Write : Db → Db → Type 0 where
  observed :
      (uuid : String) (now : ℕ) (server : Server) (r : CheckResult) (s : Session)
      → IsFresh uuid s.stored
      → Write s.stored (record_check uuid now server r s).1.stored
  reported :
      (now : ℕ) (report : UserReport) (s : Session)
      → Write s.stored (record_user_report now report s).1.stored
  delivered :
      (now id : ℕ) (s : Session)
      → Write s.stored (mark_state_notification_delivered now id s).1.stored
  imported :
      (uuid : String) (now : ℕ) (i : ImportedServer) (s : Session)
      → Write s.stored (upsert_voxellink_server uuid now i s).1.stored
  switched :
      (now : ℕ) (id user : String) (enabled : Bool) (s : Session)
      → Write s.stored (set_enabled_for_discord_member now id user enabled s).1.stored
  channelled :
      (id user channel : String) (s : Session)
      → Write s.stored (set_notification_channel_for_discord_member id user channel s).1.stored
  scheduled :
      (id user : String) (starts_at ends_at : ℕ) (s : Session)
      → Write s.stored
          (schedule_maintenance_for_discord_member id user starts_at ends_at s).1.stored
  retained : (year now : ℕ) (s : Session) → Write s.stored (run_retention year now s).1.stored

-- A database that comes from the empty one by writes.
pub data IsReached : Db → Type 0 where
  created : IsReached empty
  reached_by : {before after : Db} → IsReached before → Write before after → IsReached after
