-- ===== src/Store/Owner.antt =====
-- ServersForDiscordMember, SetEnabledForDiscordMember, SetNotificationChannelForDiscordMember and
-- ScheduleMaintenanceForDiscordMember of postgres.go: what owners and managers may see and set.
pub mod Roles
pub mod Windows
use voxellink_monitor.Common.{
  ℕ, zero, suc, ◌+◌, ◌-◌, ◌*◌, ◌/◌, ◌%◌, ◌^◌, ◌≤◌, ◌<◌, bit_and, bit_or, min, max, String, ◌≡◌,
  refl, sym, ap, ◌∙◌, subst, ◌≢◌, ◌↔◌, ◌⊎◌, inl, inr, Bool, true, false, not, ◌&&◌, ◌||◌, Option,
  none, some, List, [], ◌∷◌, ◌++◌, arith, str_eq, eq_iff, Result, ok, err, Result-cases, ℤ, pos,
  negsuc, ltb, leb, ◌==◌, if◌then◌else◌, ltb→lt, leb→le, ==_iff, Bool-cases, Option-cases, length,
  take, drop, head?, filter, any, update_where, All, length-append, length-take-le,
  length-filter-le, length-update_where, is_empty, drop-nil, Pointwise, take-append, drop-append,
}
use voxellink_monitor.Domain.{
  PublicStatus, operational, degraded, outage, maintenance, unknown, Outcome, success, dns_failure,
  connection_refused, connect_timeout, status_timeout, connection_reset, invalid_status_response,
  probe_error, UserReportType, connection, login, timeout, lag, other, CheckResult, Server,
  ServerMember, ImportedServer, UserReport, CrowdSignal, PendingStateNotification, status_eq,
  outcome_eq, is_failure,
}
use voxellink_monitor.Store.Tables.{ServerRow, MemberRow, ChannelRow, WindowRow, Db}
use voxellink_monitor.Store.Session.{
  Error, violation, no_rows, Session, Tx, pure, raise, query, alone, ◌>>=◌,
}
use voxellink_monitor.Store.Servers.{to_server, shown_status, map_rows, sort_by}

-- m.role IN ('owner', 'manager')
abbrev pub is_manager : MemberRow → Bool
is_manager m = str_eq m.role "owner" || str_eq m.role "manager"

abbrev pub is_manager_of : String → String → MemberRow → Bool
is_manager_of id user m = str_eq m.server_id id && (str_eq m.discord_user_id user && is_manager m)

-- EXISTS (SELECT 1 FROM server_members ...)
abbrev pub may_manage : String → String → Db → Bool
may_manage id user db = any (is_manager_of id user) db.members

-- The rows of the server, if the user may manage it.
abbrev pub managed : String → String → Db → ServerRow → Bool
managed id user db s = str_eq s.id id && may_manage s.id user db

-- ORDER BY s.name: `before` is the order of the database's collation. A user is a member of a
-- server once, so the join gives each server once.
unfoldable pub managed_servers : (String → String → Bool) → ℕ → String → Db → List Server
unfolding sort_by
managed_servers before now user db =
    map_rows (λ (s : ServerRow). to_server (shown_status now db s) s)
      (sort_by (λ (a b : ServerRow). before a.name b.name)
        (filter (λ (s : ServerRow). may_manage s.id user db) db.servers))

unfoldable pub servers_for_discord_member : (String → String → Bool) → ℕ → String → Tx (List Server)
unfolding alone managed_servers
servers_for_discord_member before now user = alone (query (managed_servers before now user))

-- RowsAffected() != 1
unfoldable pub one_row : ℕ → Tx (Unit {0})
unfolding pure raise
one_row n = if n == 1 then pure tt else raise no_rows

unfoldable pub set_enabled : ℕ → String → String → Bool → Db → Result Error (ℕ × Db)
set_enabled now id user enabled db = ok (
  length (filter (managed id user db) db.servers),
  record db {
    servers =
        update_where (managed id user db)
          (λ (s : ServerRow). record s { enabled = enabled; updated_at = now }) db.servers;
  },
)

-- ON CONFLICT (server_id) DO UPDATE; the channel is unique over the servers.
unfoldable pub put_channel : String → String → Db → Result Error Db
put_channel id channel db =
    if any (λ (c : ChannelRow). str_eq c.channel_id channel && not (str_eq c.server_id id))
      db.channels
    then err violation
    else if any (λ (c : ChannelRow). str_eq c.server_id id) db.channels
    then ok (record db {
      channels =
          update_where (λ (c : ChannelRow). str_eq c.server_id id)
            (λ (c : ChannelRow). record c { channel_id = channel; enabled = true }) db.channels;
    })
    else ok (record db {
      channels = (record { server_id = id; channel_id = channel; enabled = true }) ∷ db.channels;
    })

abbrev counted : ℕ → Result Error Db → Result Error (ℕ × Db)
counted n (ok db) = ok (n, db)
counted n (err e) = err e

unfoldable pub set_channel : String → String → String → Db → Result Error (ℕ × Db)
unfolding put_channel
set_channel id user channel db =
    let n = length (filter (managed id user db) db.servers) in
    if n == 0 then ok (0, db) else counted n (put_channel id channel db)

-- CHECK (ends_at > starts_at)
unfoldable pub add_window : String → String → ℕ → ℕ → Db → Result Error (ℕ × Db)
add_window id user starts_at ends_at db =
    let n = length (filter (managed id user db) db.servers) in
    if n == 0
    then ok (0, db)
    else if ltb starts_at ends_at
    then ok (
      n,
      record db {
        windows =
            (record { server_id = id; starts_at = starts_at; ends_at = ends_at; created_by = user })
            ∷ db.windows;
      },
    )
    else err violation

unfoldable pub set_enabled_for_discord_member : ℕ → String → String → Bool → Tx (Unit {0})
unfolding ◌>>=◌ one_row set_enabled
set_enabled_for_discord_member now id user enabled = do
  n ← alone (set_enabled now id user enabled)
  one_row n

unfoldable pub set_notification_channel_for_discord_member :
    String → String → String → Tx (Unit {0})
unfolding ◌>>=◌ one_row set_channel
set_notification_channel_for_discord_member id user channel = do
  n ← alone (set_channel id user channel)
  one_row n

unfoldable pub schedule_maintenance_for_discord_member : String → String → ℕ → ℕ → Tx (Unit {0})
unfolding ◌>>=◌ one_row add_window
schedule_maintenance_for_discord_member id user starts_at ends_at = do
  n ← alone (add_window id user starts_at ends_at)
  one_row n
