-- ===== src/Store/Owner/Windows.antt =====
-- What the settings of an owner do to the next pass of the scheduler.
use voxellink_monitor.Common.{
  ℕ, ◌≤◌, ◌<◌, String, ◌≡◌, refl, ◌∙◌, Bool, true, false, ◌&&◌, List, [], ◌∷◌, arith, str_eq,
  eq_iff, ok, ltb, length, filter, any, All,
}
use voxellink_monitor.Domain.{maintenance, CheckResult, Server}
use voxellink_monitor.Store.Tables.{ServerRow, Db, server_exists}
use voxellink_monitor.Store.Session.{connected, ◌>>=◌}
use voxellink_monitor.Store.Servers.{to_server, shown_status, enabled_rows}
use voxellink_monitor.Store.Servers.Sorted.{
  All-sort_by, All-map_rows, All-of, any-sort_by, any-map_rows, any-filter,
}
use voxellink_monitor.Store.Checks.{with_check}
use voxellink_monitor.Store.Record.{record_check}
use voxellink_monitor.Store.Record.Policy.{recorded, record_check_lem}
use voxellink_monitor.Store.Owner.{may_manage, add_window, schedule_maintenance_for_discord_member}
use voxellink_monitor.Store.Owner.Roles.{is_row, IsOnce, managed_all}

-- What a schedule commits.
abbrev pub with_window : String → String → ℕ → ℕ → Db → Db
with_window id user starts_at ends_at db = record db {
  windows =
      (record { server_id = id; starts_at = starts_at; ends_at = ends_at; created_by = user })
      ∷ db.windows;
}

scheduled :
    (id user : String) (starts_at ends_at : ℕ) (db : Db)
    → may_manage id user db ≡ true
    → IsOnce id db
    → starts_at < ends_at
    → schedule_maintenance_for_discord_member id user starts_at ends_at (connected db)
      ≡ (ok tt, record (connected db) { stored = with_window id user starts_at ends_at db })
unfolding schedule_maintenance_for_discord_member add_window
scheduled id user starts_at ends_at db manager once ordered =
    let o : ltb starts_at ends_at ≡ true = ground arith in
    rw (◌>>=◌, managed_all id user db manager db.servers, once, o) refl

any_of_length :
    {A : Type 0} (p : A → Bool) (xs : List A) → length (filter p xs) ≡ 1 → any p xs ≡ true
any_of_length p [] h = absurd (omega arith)
any_of_length p (x ∷ xs) h = ground (arith, any_of_length p xs)

module _ (uuid : String) (now : ℕ) (id user : String) (starts_at ends_at : ℕ) (r : CheckResult)
    (db : Db) where
  abbrev pub OnlyRecorded : Server → Type 0
  OnlyRecorded v =
      str_eq v.id id ≡ true
      → (v.status ≡ maintenance)
        × (record_check uuid now v r (connected (with_window id user starts_at ends_at db)) ≡ (
          ok (false, maintenance),
          connected (with_check v.id r (with_window id user starts_at ends_at db)),
        ))

  abbrev RowRecorded : ServerRow → Type 0
  RowRecorded s =
      OnlyRecorded (to_server (shown_status now (with_window id user starts_at ends_at db) s) s)

  row_recorded :
      (s : ServerRow) → server_exists id db ≡ true → starts_at ≤ now → now < ends_at → RowRecorded s
  unfolding recorded
  row_recorded s known begun open_yet e =
      let w = with_window id user starts_at ends_at db in
      let same : s.id ≡ id = (eq_iff s.id id).0 e in
      let shown : shown_status now w s ≡ maintenance = ground (arith, eq_iff id s.id) in
      let k : server_exists s.id w ≡ true = rw same known in
      (shown, record_check_lem uuid now (to_server (shown_status now w s) s) r w k ∙ rw shown refl)

  -- On a server that refuses no call, a manager of a server that is there may schedule a maintenance
  -- that has begun and is not over. A pass over what that commits, before the end, lists the server
  -- exactly if it is enabled, in MAINTENANCE, and of what it observes of it stores the check and
  -- nothing else.
  pub scheduled_maintenance :
      may_manage id user db ≡ true
      → IsOnce id db
      → starts_at ≤ now
      → now < ends_at
      → let db' = with_window id user starts_at ends_at db in
        (schedule_maintenance_for_discord_member id user starts_at ends_at (connected db)
          ≡ (ok tt, record (connected db) { stored = db' }))
        × (any (λ (v : Server). str_eq v.id id) (enabled_rows now db')
            ≡ any (λ (s : ServerRow). s.enabled && str_eq s.id id) db.servers)
        × All OnlyRecorded (enabled_rows now db')
  unfolding enabled_rows
  scheduled_maintenance manager once begun open_yet = (
    scheduled id user starts_at ends_at db manager once (omega arith),
    any-map_rows (λ (v : Server). str_eq v.id id) _ _
        ∙ any-sort_by (λ (s : ServerRow). str_eq s.id id)
            (λ (a b : ServerRow). ltb a.created_at b.created_at)
            (filter (λ (s : ServerRow). s.enabled) db.servers)
        ∙ any-filter (λ (s : ServerRow). str_eq s.id id) (λ (s : ServerRow). s.enabled) db.servers,
    All-map_rows OnlyRecorded _ _ (
        All-sort_by RowRecorded (λ (a b : ServerRow). ltb a.created_at b.created_at)
          (filter (λ (s : ServerRow). s.enabled) db.servers)
          (All-of RowRecorded
            (λ s. row_recorded s (any_of_length (is_row id) db.servers once) begun open_yet)
            (filter (λ (s : ServerRow). s.enabled) db.servers))),
  )
