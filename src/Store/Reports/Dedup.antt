-- ===== src/Store/Reports/Dedup.antt =====
-- What RecordUserReport commits.
use voxellink_monitor.Common.{
  ℕ, ◌+◌, ◌/◌, ◌≤◌, ◌<◌, String, ◌≡◌, inl, inr, Bool, true, ◌&&◌, none, List, ◌∷◌, arith, str_eq,
  ok, err, ◌==◌, if◌then◌else◌, Bool-cases, length, filter, any, update_where,
}
use voxellink_monitor.Domain.{degraded, operational, success, status_eq, UserReport}
use voxellink_monitor.Store.Reports.Once.{is_of, counted_row}
use Prim.Native.String.{count}
use voxellink_monitor.Store.Tables.{ServerRow, Db, server_exists, day}
use voxellink_monitor.Store.Session.{violation, connected, ◌>>=◌}
use voxellink_monitor.Store.Session.Atomic.{IsQuiet, IsAtomic, atomic_rules}
use voxellink_monitor.Store.Signal.{crowd_signal}
use voxellink_monitor.Store.Reports.{
  insert_report, degrade, queue_degraded, degrade_and_queue, record_user_report,
}

degrade_and_queue-IsQuiet : (now : ℕ) (report : UserReport) → IsQuiet (degrade_and_queue now report)
unfolding degrade_and_queue
degrade_and_queue-IsQuiet now report = search atomic_rules

-- If RecordUserReport returns an error, whichever call failed, the committed database is as it was.
pub record_user_report-IsAtomic :
    (now : ℕ) (report : UserReport) → IsAtomic (record_user_report now report)
unfolding record_user_report
record_user_report-IsAtomic now report = search (atomic_rules, degrade_and_queue-IsQuiet) depth 12

-- The report is in the table of its server, reporter and day.
abbrev pub has_reported : UserReport → Db → Bool
has_reported report db =
    any (is_of report.server_id report.reporter_hash (report.at / day)) db.reports

-- The table with the report in it, once.
abbrev pub with_report : UserReport → Db → Db
with_report report db =
    if has_reported report db then db else record db { reports = counted_row report ∷ db.reports }

-- The rows of the server that are OPERATIONAL.
abbrev pub is_operational : String → ServerRow → Bool
is_operational id s = str_eq s.id id && status_eq s.status operational

abbrev degraded_rows : ℕ → UserReport → List ServerRow → List ServerRow
degraded_rows now report = update_where (is_operational report.server_id) (λ (s : ServerRow).
    record s { status = degraded; status_changed_at = report.at; updated_at = now })

insert_report-ok :
    (report : UserReport) (db : Db)
    → server_exists report.server_id db ≡ true
    → count report.detail ≤ 280
    → insert_report report db ≡ ok (tt, with_report report db)
unfolding insert_report
insert_report-ok report db known short = ground arith

-- The queue with a notice of DEGRADED as its newest, under the next id.
abbrev pub with_notice : UserReport → Db → Db
with_notice report db = record db {
  pending =
      (record {
        id = db.pending_serial;
        server_id = report.server_id;
        state = degraded;
        outcome = success;
        created_at = report.at;
        delivered_at = none;
      })
      ∷ db.pending;
  pending_serial = db.pending_serial + 1;
}

-- The database that RecordUserReport commits.
unfoldable pub reported : ℕ → UserReport → Db → Db
reported now report db =
    let w = with_report report db in
    if (crowd_signal report.server_id report.at w).anomalous
    then (let changed = record w { servers = degraded_rows now report w.servers } in
        if length (filter (is_operational report.server_id) w.servers) == 1
        then with_notice report changed
        else changed)
    else w

-- On a server that refuses no call, RecordUserReport of a known server and a detail of at most 280
-- characters succeeds. It returns the signal with the report counted, once a day and reporter.
-- Upon an anomaly it degrades the server if that is OPERATIONAL, and then queues one notification.
pub record_user_report_lem :
    (now : ℕ) (report : UserReport) (db : Db)
    → server_exists report.server_id db ≡ true
    → count report.detail ≤ 280
    → record_user_report now report (connected db) ≡ (
      ok (crowd_signal report.server_id report.at (with_report report db)),
      connected (reported now report db),
    )
unfolding record_user_report reported queue_degraded degrade
record_user_report_lem now report db known short =
    let w = with_report report db in
    rw (◌>>=◌, insert_report-ok report db known short)
      (elim (Bool-cases (crowd_signal report.server_id report.at w).anomalous) [
        | inl e ↦ ground arith
        | inr e ↦ ground arith
      ])

-- A report with more than 280 characters of detail is an error, and nothing is written.
pub long_report_refused :
    (now : ℕ) (report : UserReport) (db : Db)
    → 280 < count report.detail
    → ((record_user_report now report (connected db)).0 ≡ err violation)
      × ((record_user_report now report (connected db)).1.stored ≡ db)
unfolding record_user_report
long_report_refused now report db long = ground arith
