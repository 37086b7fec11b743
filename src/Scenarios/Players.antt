-- ===== src/Scenarios/Players.antt =====
-- Reports of players.
use voxellink_monitor.Domain.{operational, outage}
use voxellink_monitor.Common.{◌+◌, ◌*◌, ◌≤◌, ◌≡◌, refl, ◌↔◌, true, arith, ok}
use voxellink_monitor.Crowd.{Average, evaluate}
use voxellink_monitor.Crowd.Threshold.{evaluate-anomalous}
use voxellink_monitor.Store.Session.{connected}
use voxellink_monitor.Store.Signal.{crowd_signal}
use voxellink_monitor.Store.Reports.{record_user_report}
use voxellink_monitor.Store.Reports.Dedup.{with_report, reported, record_user_report_lem}
use voxellink_monitor.Store.Reports.Unique.{
  IsUnique, record_user_report-IsUnique, record_user_report_again,
}
use voxellink_monitor.Scenarios.Data.{troubled, report_by}

-- A third of a report a day: the threshold is three.
abbrev quiet_week : Average
quiet_week = record { total = 1; days = 3 }

evaluate-anomalous_example :
    ((evaluate 3 quiet_week).anomalous ≡ true) ↔ ((3 ≤ 3) × (1 * 3 + 3 * 2 ≤ 3 * 3))
evaluate-anomalous_example = evaluate-anomalous 3 quiet_week (omega arith)

three_suffice : (evaluate 3 quiet_week).anomalous ≡ true
unfolding evaluate
three_suffice = refl

record_user_report_lem_example :
    let db = troubled operational in
    record_user_report 0 (report_by "d") (connected db) ≡ (
      ok (crowd_signal "u1" (report_by "d").at (with_report (report_by "d") db)),
      connected (reported 0 (report_by "d") db),
    )
record_user_report_lem_example =
    record_user_report_lem 0 (report_by "d") (troubled operational) refl (omega arith)

record_user_report-IsUnique_example :
    IsUnique (record_user_report 0 (report_by "a") (connected (troubled outage))).1.stored.reports
record_user_report-IsUnique_example =
    record_user_report-IsUnique 0 (report_by "a") (connected (troubled outage))
      (refl, (refl, (refl, tt)))

record_user_report_again_example :
    (record_user_report 0 (report_by "a") (connected (troubled outage))).1.stored.reports
    ≡ (troubled outage).reports
record_user_report_again_example =
    record_user_report_again 0 (report_by "a") (connected (troubled outage)) refl
