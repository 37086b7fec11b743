-- ===== src/Store/History/Rollups.antt =====
-- RunRetention of postgres.go: its statements, servers in OUTAGE and their incidents.
use voxellink_monitor.Common.{ℕ, arith}
use voxellink_monitor.Store.Tables.{Db}
use voxellink_monitor.Store.Session.{Session}
use voxellink_monitor.Store.Session.Invariants.{Leaves, begun, maintain_rules}
use voxellink_monitor.Store.Record.Shown.{IsShown}
use voxellink_monitor.Store.Retention.{
  roll_up_quarters, roll_up_hours, roll_up_reports, roll_up_days, delete_checks, delete_quarters,
  delete_hours, delete_reports, delete_report_quarters, run_retention,
}

roll_up_days-IsShown : (now : ℕ) (w : Db) → IsShown w → Leaves IsShown (roll_up_days now w)
unfolding roll_up_days
roll_up_days-IsShown now w h = ground arith

rolled_up-IsShown :
    (now : ℕ) (w : Db)
    → IsShown w
    → IsShown (roll_up_quarters now w)
      × IsShown (roll_up_hours now w)
      × IsShown (roll_up_reports now w)
unfolding roll_up_quarters roll_up_hours roll_up_reports
rolled_up-IsShown now w h = (h, h, h)

deleted-IsShown :
    (year now : ℕ) (w : Db)
    → IsShown w
    → Leaves IsShown (delete_checks now w)
      × Leaves IsShown (delete_quarters now w)
      × Leaves IsShown (delete_hours year now w)
      × IsShown (delete_reports now w)
      × IsShown (delete_report_quarters now w)
unfolding delete_checks delete_quarters delete_hours delete_reports delete_report_quarters
deleted-IsShown year now w h = (h, h, h, h, h)

pub run_retention-IsShown :
    (year now : ℕ) (s : Session) → IsShown s.stored → IsShown (run_retention year now s).1.stored
unfolding run_retention
run_retention-IsShown year now s h =
    let up = rolled_up-IsShown now in
    let down = deleted-IsShown year now in
    begun {P = IsShown} _
      (λ u.
        search
          (
            maintain_rules,
            (λ (w : Db) (k : IsShown w). (up w k).0),
            (λ (w : Db) (k : IsShown w). (up w k).1),
            (λ (w : Db) (k : IsShown w). (up w k).2),
            roll_up_days-IsShown now,
            (λ (w : Db) (k : IsShown w). (down w k).0),
            (λ (w : Db) (k : IsShown w). (down w k).1),
            (λ (w : Db) (k : IsShown w). (down w k).2),
            (λ (w : Db) (k : IsShown w). (down w k).3),
            (λ (w : Db) (k : IsShown w). (down w k).4),
          )
          depth 24)
      s h
