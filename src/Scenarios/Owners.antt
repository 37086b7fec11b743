-- ===== src/Scenarios/Owners.antt =====
-- Settings of an owner, and what a page shows.
use voxellink_monitor.Common.{
  ◌+◌, ◌*◌, ◌≤◌, ◌<◌, ◌≡◌, refl, ◌↔◌, true, false, ◌&&◌, [], ◌∷◌, arith, str_eq, ok, filter, any,
  All,
}
use voxellink_monitor.Domain.{Server, operational, success, connect_timeout}
use voxellink_monitor.Store.Tables.{Db, day, second}
use voxellink_monitor.Store.Session.{connected}
use voxellink_monitor.Store.Servers.{enabled_rows}
use voxellink_monitor.Store.Owner.{
  set_enabled_for_discord_member, set_notification_channel_for_discord_member,
  schedule_maintenance_for_discord_member,
}
use voxellink_monitor.Store.Owner.Roles.{Refuses, settings_need_role}
use voxellink_monitor.Store.Owner.Windows.{with_window, OnlyRecorded, scheduled_maintenance}
use voxellink_monitor.Store.Snapshots.{snapshot_by_id}
use voxellink_monitor.Store.Snapshots.Latest.{Shows, snapshot-record_check}
use voxellink_monitor.Store.Record.{record_check}
use voxellink_monitor.Store.Uptime.{uptime_of_day, in_last_day, is_counted}
use voxellink_monitor.Store.Uptime.Bounds.{is_missed, uptime_of_day_bounds}
use voxellink_monitor.Store.Tables.{ServerRow}
use voxellink_monitor.Scenarios.Data.{lobby, seen, with_lobby}

-- The owner of the lobby, and one who only looks on.
abbrev pub with_owner : Db
with_owner = record (with_lobby operational) {
  members =
      (record { server_id = "u1"; discord_user_id = "d1"; role = "owner"; source = "voxellink" })
      ∷ (record { server_id = "u1"; discord_user_id = "d2"; role = "viewer"; source = "voxellink" })
      ∷ [];
}

settings_need_role_example :
    let s = connected with_owner in
    Refuses s (set_enabled_for_discord_member day "u1" "d2" false s)
    × Refuses s (set_notification_channel_for_discord_member "u1" "d2" "c1" s)
    × Refuses s (schedule_maintenance_for_discord_member "u1" "d2" day (2 * day) s)
settings_need_role_example =
    settings_need_role day "u1" "d2" false "c1" day (2 * day) (connected with_owner) refl

scheduled_maintenance_example :
    let db = with_window "u1" "d1" (30 * day) (31 * day) with_owner in
    (schedule_maintenance_for_discord_member "u1" "d1" (30 * day) (31 * day) (connected with_owner)
      ≡ (ok tt, record (connected with_owner) { stored = db }))
    × (any (λ (v : Server). str_eq v.id "u1") (enabled_rows (30 * day + second) db)
        ≡ any (λ (s : ServerRow). s.enabled && str_eq s.id "u1") with_owner.servers)
    × All
        (OnlyRecorded "i1"
          (30 * day + second)
          "u1"
          "d1"
          (30 * day)
          (31 * day)
          (seen connect_timeout 0)
          with_owner)
        (enabled_rows (30 * day + second) db)
scheduled_maintenance_example =
    scheduled_maintenance "i1" (30 * day + second) "u1" "d1" (30 * day) (31 * day)
      (seen connect_timeout 0) with_owner refl refl (omega arith) (omega arith)

snapshot-record_check_example :
    Shows "i1"
      (30 * day)
      (lobby operational)
      (seen success 0)
      with_owner
      (30 * day)
      (snapshot_by_id
        (30 * day)
        "u1"
        (record_check "i1"
          (30 * day)
          (lobby operational)
          (seen success 0)
          (connected with_owner)).1).0
snapshot-record_check_example =
    snapshot-record_check "i1" (30 * day) (lobby operational) (seen success 0) with_owner (30 * day)
      refl (ground arith)

uptime_of_day_bounds_example :
    let uptime = uptime_of_day day "u1" with_owner in
    let rows = filter (in_last_day "u1" day) with_owner.checks in
    (0 < uptime.whole)
    × (uptime.part ≤ uptime.whole)
    × ((uptime.part ≡ uptime.whole)
        ↔ ((any (is_counted with_owner) rows ≡ true) × (any (is_missed with_owner) rows ≡ false)))
uptime_of_day_bounds_example = uptime_of_day_bounds with_owner day "u1"
