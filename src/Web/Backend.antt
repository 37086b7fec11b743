-- ===== src/Web/Backend.antt =====
-- The store behind the pages, as cmd/monitor/main.go wires it. An id in a request is a text that the
-- store casts to a uuid.
use voxellink_monitor.Common.{ℕ, String, Bool, false, Option, none, some, Result, err}
use voxellink_monitor.Domain.{Server, UserReport, CrowdSignal}
use voxellink_monitor.Store.Session.{
  Error, violation, Session, Tx, statement, begin, alone, ◌>>=◌, ◌>>◌,
}
use voxellink_monitor.Store.Reports.{record_user_report}
use voxellink_monitor.Store.Owner.{
  servers_for_discord_member, set_enabled_for_discord_member,
  set_notification_channel_for_discord_member, schedule_maintenance_for_discord_member,
}
use voxellink_monitor.Store.Snapshots.{
  snapshot_by_id, public_snapshots, recent_incidents, crowd_signal_now,
}
use voxellink_monitor.Store.Uptime.{uptime_24h}
use voxellink_monitor.Web.Request.{Repository}

-- `$1::uuid`, a parameter of the one statement of a call
abbrev pub with_uuid : {A : Type 0} → Option String → (String → Tx A) → Tx A
with_uuid none f = alone (λ db. err violation)
with_uuid (some id) f = f id

-- In RecordUserReport the cast is in the first statement of its transaction.
abbrev pub report_with_uuid : ℕ → Option String → UserReport → Tx CrowdSignal
report_with_uuid now none report = do begin; statement (λ db. err violation)
report_with_uuid now (some id) report = record_user_report now (record report { server_id = id })

-- `uuid` reads a text as a uuid, in the one spelling that the tables have. `collates` is the order of
-- ORDER BY name. `importer` is the importer of VoxelLink's listings over the same store.
unfoldable pub backend :
    (String → Option String)
    → (String → String → Bool)
    → (String → Session → Result Error Server × Session)
    → ℕ
    → Repository Error Session
unfolding record_user_report servers_for_discord_member set_enabled_for_discord_member
    set_notification_channel_for_discord_member schedule_maintenance_for_discord_member
    snapshot_by_id public_snapshots recent_incidents crowd_signal_now uptime_24h alone ◌>>=◌
backend uuid collates importer now = record {
  servers_for_discord_member = λ user. servers_for_discord_member collates now user;
  snapshot_by_id = λ id. with_uuid (uuid id) (snapshot_by_id now);
  public_snapshots = public_snapshots collates now;
  uptime_24h = λ id. with_uuid (uuid id) (uptime_24h now);
  recent_incidents = λ id limit. with_uuid (uuid id) (λ u. recent_incidents u limit);
  record_user_report = λ report. report_with_uuid now (uuid report.server_id) report;
  crowd_signal = λ id. with_uuid (uuid id) (crowd_signal_now now);
  set_enabled = λ id user enabled.
      with_uuid (uuid id) (λ u. set_enabled_for_discord_member now u user enabled);
  set_notification_channel = λ id user channel.
      with_uuid (uuid id) (λ u. set_notification_channel_for_discord_member u user channel);
  schedule_maintenance = λ id user starts_at ends_at.
      with_uuid (uuid id) (λ u. schedule_maintenance_for_discord_member u user starts_at ends_at);
  import_server = importer;
  is_canceled = λ e. false;
}
