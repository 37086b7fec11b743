-- ===== src/Store/History/Outages.antt =====
-- Every database that the program can reach.
use voxellink_monitor.Store.Tables.{Db}
use voxellink_monitor.Store.Record.Shown.{IsShown}
use voxellink_monitor.Store.Record.Backed.{record_check-IsShown}
use voxellink_monitor.Store.History.{
  Write, observed, reported, delivered, imported, switched, channelled, scheduled, retained,
  IsReached, created, reached_by,
}
use voxellink_monitor.Store.History.Rollups.{run_retention-IsShown}
use voxellink_monitor.Store.History.Statements.{
  record_user_report-IsShown, upsert_voxellink_server-IsShown,
  mark_state_notification_delivered-IsShown, set_enabled_for_discord_member-IsShown,
  set_notification_channel_for_discord_member-IsShown,
  schedule_maintenance_for_discord_member-IsShown,
}

pub write-IsShown : {before after : Db} → Write before after → IsShown before → IsShown after
write-IsShown (observed uuid now server r s f) h = record_check-IsShown uuid now server r s f h
write-IsShown (reported now report s) h = record_user_report-IsShown now report s h
write-IsShown (delivered now id s) h = mark_state_notification_delivered-IsShown now id s h
write-IsShown (imported uuid now i s) h = upsert_voxellink_server-IsShown uuid now i s h
write-IsShown (switched now id user enabled s) h =
    set_enabled_for_discord_member-IsShown now id user enabled s h
write-IsShown (channelled id user channel s) h =
    set_notification_channel_for_discord_member-IsShown id user channel s h
write-IsShown (scheduled id user starts_at ends_at s) h =
    schedule_maintenance_for_discord_member-IsShown id user starts_at ends_at s h
write-IsShown (retained year now s) h = run_retention-IsShown year now s h

-- In every database that the writes of the program lead to, whichever of their calls failed, each
-- row in OUTAGE has an open incident of its server, and no two incidents have one id.
pub reached-IsShown : (db : Db) → IsReached db → IsShown db
reached-IsShown _ created = (tt, tt)
reached-IsShown _ (reached_by r w) = write-IsShown w (reached-IsShown _ r)
