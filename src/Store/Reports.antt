-- ===== src/Store/Reports.antt =====
-- RecordUserReport of postgres.go: one report of a player, and the status that it may change.
pub mod Dedup
pub mod Unique
pub mod Once
use voxellink_monitor.Common.{
  ℕ, zero, suc, ◌+◌, ◌-◌, ◌*◌, ◌/◌, ◌%◌, ◌^◌, ◌≤◌, ◌<◌, bit_and, bit_or, min, max, String, ◌≡◌,
  refl, sym, ap, ◌∙◌, subst, ◌≢◌, ◌↔◌, ◌⊎◌, inl, inr, Bool, true, false, not, ◌&&◌, ◌||◌, Option,
  none, some, List, [], ◌∷◌, ◌++◌, arith, str_eq, eq_iff, Result, ok, err, Result-cases, ℤ, pos,
  negsuc, ltb, leb, ◌==◌, if◌then◌else◌, ltb→lt, leb→le, ==_iff, Bool-cases, Option-cases, length,
  take, drop, head?, filter, any, update_where, All, length-append, length-take-le,
  length-filter-le, length-update_where, is_empty,
}
use voxellink_monitor.Domain.{
  PublicStatus, operational, degraded, outage, maintenance, unknown, Outcome, success, dns_failure,
  connection_refused, connect_timeout, status_timeout, connection_reset, invalid_status_response,
  probe_error, UserReportType, connection, login, timeout, lag, other, CheckResult, Server,
  ServerMember, ImportedServer, UserReport, CrowdSignal, PendingStateNotification, status_eq,
  outcome_eq, is_failure,
}
use Prim.Native.String.{count}
use voxellink_monitor.Store.Tables.{ServerRow, ReportRow, PendingRow, Db, day, server_exists}
use voxellink_monitor.Store.Session.{
  Error, violation, Session, Tx, pure, statement, query, begin, commit, ◌>>=◌, ◌>>◌, when, change,
}
use voxellink_monitor.Store.Signal.{crowd_signal}

-- UNIQUE (server_id, reporter_hash, reported_day)
abbrev pub same_reporter : UserReport → ReportRow → Bool
same_reporter report r =
    str_eq r.server_id report.server_id
    && (str_eq r.reporter_hash report.reporter_hash && r.reported_day == report.at / day)

abbrev pub report_row : UserReport → ReportRow
report_row report = record {
  server_id = report.server_id;
  reported_at = report.at;
  reported_day = report.at / day;
  report_type = report.kind;
  reporter_hash = report.reporter_hash;
  detail = report.detail;
}

-- INSERT INTO user_reports ... ON CONFLICT DO NOTHING: the check on the detail comes first, the
-- foreign key last.
unfoldable pub insert_report : UserReport → Db → Result Error (Unit {0} × Db)
insert_report report db =
    if ltb 280 (count report.detail)
    then err violation
    else if any (same_reporter report) db.reports
    then ok (tt, db)
    else if server_exists report.server_id db
    then ok (tt, record db { reports = report_row report ∷ db.reports })
    else err violation

abbrev pub degradable : String → ServerRow → Bool
degradable id s = str_eq s.id id && status_eq s.status operational

-- UPDATE monitored_servers SET status = 'DEGRADED' ... AND status = 'OPERATIONAL', with RowsAffected
unfoldable pub degrade : ℕ → String → ℕ → Db → Result Error (ℕ × Db)
degrade now id at db = ok (
  length (filter (degradable id) db.servers),
  record db {
    servers =
        update_where (degradable id)
          (λ (s : ServerRow). record s {
            status = degraded;
            status_changed_at = at;
            updated_at = now;
          })
          db.servers;
  },
)

unfoldable pub queue_degraded : String → ℕ → Db → Db
queue_degraded id at db = record db {
  pending =
      (record {
        id = db.pending_serial;
        server_id = id;
        state = degraded;
        outcome = success;
        created_at = at;
        delivered_at = none;
      })
      ∷ db.pending;
  pending_serial = db.pending_serial + 1;
}

unfoldable pub degrade_and_queue : ℕ → UserReport → Tx (Unit {0})
unfolding ◌>>=◌ when degrade queue_degraded
degrade_and_queue now report = do
  affected ← statement (degrade now report.server_id report.at)
  when (affected == 1) (statement (change (queue_degraded report.server_id report.at)))

unfoldable pub record_user_report : ℕ → UserReport → Tx CrowdSignal
unfolding ◌>>=◌ when insert_report degrade_and_queue
record_user_report now report = do
  begin
  statement (insert_report report)
  signal ← statement (query (crowd_signal report.server_id report.at))
  when signal.anomalous (degrade_and_queue now report)
  commit
  pure signal
