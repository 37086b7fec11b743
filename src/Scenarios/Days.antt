-- ===== src/Scenarios/Days.antt =====
-- Days that the retention sums up.
use voxellink_monitor.Common.{
  ℕ, zero, suc, ◌+◌, ◌*◌, ◌<◌, ◌≡◌, refl, true, false, not, none, some, List, [], ◌∷◌, ok, pos,
  length, filter, any, arith,
}
use voxellink_monitor.Domain.{operational, Outcome, success, status_timeout}
use voxellink_monitor.Store.Tables.{CheckRow, Db, second, hour, day}
use voxellink_monitor.Store.Session.{connected}
use voxellink_monitor.Store.Retention.{
  roll_up_quarters, roll_up_hours, day_of, RetentionStats, run_retention, roll_up_days,
  roll_up_reports, delete_checks, delete_quarters, delete_hours, delete_report_quarters,
  delete_reports,
}
use voxellink_monitor.Store.Retention.Rollup.{old_check, overflows, run_retention_lem}
use voxellink_monitor.Store.Retention.Repeat.{
  after, in_bucket, counted, in_checks, retention_forgets,
}
use voxellink_monitor.Scenarios.Data.{with_lobby}

-- Twelve successes in a maintenance window, and one failure after it, on a day that is over.
abbrev check_at : Outcome → ℕ → CheckRow
check_at outcome at = record {
  id = 0;
  server_id = "u1";
  checked_at = at;
  outcome = outcome;
  latency_ms = some 20;
  players_online = pos 0;
  players_max = pos 0;
  error_detail = none;
}

abbrev in_window : ℕ → List CheckRow
in_window zero = []
in_window (suc n) = check_at success (30 * day + n * 60 * second) ∷ in_window n

abbrev maintained : Db
maintained = record (with_lobby operational) {
  checks = check_at status_timeout (30 * day + 2 * hour) ∷ in_window 12;
  windows =
      (record {
        server_id = "u1";
        starts_at = 30 * day;
        ends_at = 30 * day + hour;
        created_by = "d1";
      })
      ∷ [];
}

abbrev next_noon : ℕ
next_noon = 31 * day + 12 * hour

maintained-overflows : overflows next_noon maintained ≡ true
unfolding roll_up_quarters roll_up_hours day_of
maintained-overflows = refl

-- The same day without the window.
abbrev unannounced : Db
unannounced = record maintained { windows = [] }

unannounced_fits : overflows next_noon unannounced ≡ false
unfolding roll_up_quarters roll_up_hours day_of
unannounced_fits = refl

run_retention_lem_example :
    let (r, s) = run_retention (365 * day) next_noon (connected unannounced) in
    (stats : RetentionStats) × (r ≡ ok stats)
    × (s.stored.checks ≡ filter (λ (c : CheckRow). not (old_check next_noon c)) unannounced.checks)
    × (stats.raw_deleted + length s.stored.checks ≡ length unannounced.checks)
    × (s.stored.servers ≡ unannounced.servers)
    × (s.stored.incidents ≡ unannounced.incidents)
    × (s.stored.pending ≡ unannounced.pending)
run_retention_lem_example = run_retention_lem (365 * day) next_noon unannounced unannounced_fits

-- Two checks of one quarter of an hour; the first is thirty days old when the retention runs.
abbrev cut : Db
cut = record (with_lobby operational) {
  checks = check_at success (30 * day + 60 * second) ∷ check_at success (30 * day) ∷ [];
}

abbrev first_run : ℕ
first_run = 60 * day + 30 * second

abbrev second_run : ℕ
second_run = 61 * day

cut_fits :
    let left = after (365 * day) first_run cut in
    (overflows first_run cut ≡ false)
    × (overflows second_run left ≡ false)
    × (any (in_bucket (check_at success (30 * day))) left.checks ≡ true)
unfolding after run_retention roll_up_quarters roll_up_hours day_of roll_up_days roll_up_reports
    delete_checks delete_quarters delete_hours delete_report_quarters delete_reports
cut_fits = (refl, refl, refl)

retention_forgets_example :
    let c = check_at success (30 * day) in
    let left = after (365 * day) first_run cut in
    (counted c left ≡ in_checks c cut ∷ [])
    × (counted c (after (365 * day) second_run left) ≡ in_checks c left ∷ [])
    × (in_checks c left < in_checks c cut)
retention_forgets_example =
    retention_forgets (365 * day) first_run (365 * day) second_run cut (check_at success (30 * day))
      cut_fits.0 cut_fits.1 (omega arith) (omega arith) (omega arith) refl cut_fits.2
