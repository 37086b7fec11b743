-- ===== src/Store/Snapshots.antt =====
-- The snapshots and RecentIncidents of postgres.go, and CrowdSignal for the pages.
pub mod Latest
use voxellink_monitor.Common.{
  ℕ, zero, suc, ◌+◌, ◌-◌, ◌*◌, ◌/◌, ◌%◌, ◌^◌, ◌≤◌, ◌<◌, bit_and, bit_or, min, max, String, ◌≡◌,
  refl, sym, ap, ◌∙◌, subst, ◌≢◌, ◌↔◌, ◌⊎◌, inl, inr, Bool, true, false, not, ◌&&◌, ◌||◌, Option,
  none, some, List, [], ◌∷◌, ◌++◌, arith, str_eq, eq_iff, Result, ok, err, Result-cases, ℤ, pos,
  negsuc, ltb, leb, ◌==◌, if◌then◌else◌, ltb→lt, leb→le, ==_iff, Bool-cases, Option-cases, length,
  take, drop, head?, filter, any, update_where, All, length-append, length-take-le,
  length-filter-le, length-update_where, is_empty, drop-nil, Pointwise, take-append, drop-append,
}
use voxellink_monitor.Domain.{
  PublicStatus, operational, degraded, outage, maintenance, unknown, Outcome, success, dns_failure,
  connection_refused, connect_timeout, status_timeout, connection_reset, invalid_status_response,
  probe_error, UserReportType, connection, login, timeout, lag, other, CheckResult, Server,
  ServerMember, ImportedServer, ServerSnapshot, Incident, UserReport, CrowdSignal,
  PendingStateNotification, status_eq, outcome_eq, is_failure,
}
use voxellink_monitor.Store.Tables.{
  ServerRow, CheckRow, ChannelRow, IncidentRow, IncidentState, opened, resolved, Db,
}
use voxellink_monitor.Store.Session.{Error, no_rows, Tx, query, alone}
use voxellink_monitor.Store.Checks.{recent}
use voxellink_monitor.Store.Signal.{crowd_signal}
use voxellink_monitor.Store.Servers.{to_server, shown_status, map_rows, sort_by}

-- LEFT JOIN LATERAL (... ORDER BY checked_at DESC, id DESC LIMIT 1)
unfoldable pub latest_check : String → Db → Option CheckRow
unfolding recent
latest_check id db = head? (recent db id 1)

abbrev latency_of : Option ℕ → ℕ
latency_of none = 0
latency_of (some ms) = ms * 1000000

-- scanSnapshot: what is NULL leaves the zero value, which is `none` here for an instant and an
-- outcome.
unfoldable pub scan_snapshot : Server → Option CheckRow → ServerSnapshot
scan_snapshot server none = record {
  server = server;
  last_checked_at = none;
  last_outcome = none;
  latency = 0;
}
scan_snapshot server (some c) = record {
  server = server;
  last_checked_at = some c.checked_at;
  last_outcome = some c.outcome;
  latency = latency_of c.latency_ms;
}

unfoldable pub snapshot_of : ℕ → Db → ServerRow → ServerSnapshot
unfolding scan_snapshot latest_check
snapshot_of now db s = scan_snapshot (to_server (shown_status now db s) s) (latest_check s.id db)

-- QueryRow: the first row, or pgx.ErrNoRows
abbrev pub first_row : {A : Type 0} → Db → List A → Result Error (A × Db)
first_row db [] = err no_rows
first_row db (x ∷ xs) = ok (x, db)

-- `snapshot`, whose clause picks the rows of the servers
unfoldable pub snapshot : ℕ → (Db → List ServerRow) → Tx ServerSnapshot
unfolding alone snapshot_of
snapshot now clause = alone (λ db. first_row db (map_rows (snapshot_of now db) (clause db)))

unfoldable pub snapshot_by_external_id : ℕ → String → Tx ServerSnapshot
unfolding snapshot
snapshot_by_external_id now external_id = snapshot now (λ db.
    filter
      (λ (s : ServerRow).
        str_eq s.external_source "voxellink" && str_eq s.external_server_id external_id)
      db.servers)

unfoldable pub snapshot_by_id : ℕ → String → Tx ServerSnapshot
unfolding snapshot
snapshot_by_id now id = snapshot now (λ db. filter (λ (s : ServerRow). str_eq s.id id) db.servers)

-- JOIN discord_notification_channels, where a channel is unique
unfoldable pub snapshot_by_discord_channel : ℕ → String → Tx ServerSnapshot
unfolding snapshot
snapshot_by_discord_channel now channel = snapshot now (λ db.
    filter
      (λ (s : ServerRow).
        any
          (λ (c : ChannelRow).
            str_eq c.server_id s.id && (str_eq c.channel_id channel && c.enabled))
          db.channels)
      db.servers)

unfoldable pub public_rows : (String → String → Bool) → ℕ → Db → List ServerSnapshot
unfolding sort_by snapshot_of
public_rows before now db = map_rows (snapshot_of now db) (
    sort_by (λ (a b : ServerRow). before a.name b.name)
      (filter (λ (s : ServerRow). s.enabled) db.servers))

unfoldable pub public_snapshots : (String → String → Bool) → ℕ → Tx (List ServerSnapshot)
unfolding alone public_rows
public_snapshots before now = alone (query (public_rows before now))

abbrev pub to_incident : IncidentRow → Incident
to_incident i = record {
  id = i.id;
  server_id = i.server_id;
  is_open = elim i.state [ opened ↦ true | resolved ↦ false ];
  reason = i.reason;
  started_at = i.started_at;
  confirmed_at = i.confirmed_at;
  resolved_at = i.resolved_at;
}

-- ORDER BY started_at DESC LIMIT
unfoldable pub incident_rows : String → ℕ → Db → List Incident
unfolding sort_by
incident_rows id limit db = map_rows to_incident (
    take limit (
      sort_by (λ (a b : IncidentRow). ltb b.started_at a.started_at)
        (filter (λ (i : IncidentRow). str_eq i.server_id id) db.incidents)))

unfoldable pub recent_incidents : String → ℕ → Tx (List Incident)
unfolding alone incident_rows
recent_incidents id limit = alone (query (incident_rows id limit))

-- CrowdSignal: of now, and not of the instant of a check
unfoldable pub crowd_signal_now : ℕ → String → Tx CrowdSignal
unfolding alone crowd_signal
crowd_signal_now now id = alone (query (crowd_signal id now))
