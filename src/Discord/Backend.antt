-- ===== src/Discord/Backend.antt =====
-- The store behind the bot, as cmd/monitor/main.go wires it. The ids that the bot hands on are those
-- of rows.
use voxellink_monitor.Common.{ℕ}
use voxellink_monitor.Store.Session.{Error, Session}
use voxellink_monitor.Store.Reports.{record_user_report}
use voxellink_monitor.Store.Snapshots.{
  snapshot_by_external_id, snapshot_by_discord_channel, recent_incidents,
}
use voxellink_monitor.Store.Uptime.{uptime_24h}
use voxellink_monitor.Discord.Bot.{Queries}

unfoldable pub queries : ℕ → Queries Error Session
unfolding record_user_report snapshot_by_external_id snapshot_by_discord_channel recent_incidents
    uptime_24h
queries now = record {
  snapshot_by_external_id = snapshot_by_external_id now;
  snapshot_by_discord_channel = snapshot_by_discord_channel now;
  uptime_24h = uptime_24h now;
  recent_incidents = recent_incidents;
  record_user_report = record_user_report now;
}
