-- ===== src/Store/Retention/Rollup.antt =====
-- What a run of the retention commits.
use voxellink_monitor.Common.{
  ℕ, ◌+◌, ◌*◌, ◌≡◌, refl, Bool, true, false, not, List, [], ◌∷◌, arith, ok, err, length, filter,
  any,
}
use voxellink_monitor.Store.Tables.{CheckRow, DailyRow, Db, day}
use voxellink_monitor.Store.Session.{violation, connected, ◌>>=◌}
use voxellink_monitor.Store.Session.Atomic.{IsAtomic, atomic_rules}
use voxellink_monitor.Store.Retention.{
  RetentionStats, roll_up_quarters, roll_up_hours, roll_up_reports, roll_up_days, fits_numeric,
  daily_rows, delete_reports, delete_report_quarters, expired, delete_checks, delete_quarters,
  delete_hours, run_retention,
}

-- If RunRetention returns an error, whichever call failed, the committed database is as it was.
pub run_retention-IsAtomic : (year now : ℕ) → IsAtomic (run_retention year now)
unfolding run_retention
run_retention-IsAtomic year now = search atomic_rules depth 24

-- The database of the daily rollup: the two rollups before it are done.
abbrev pub rolled_up : ℕ → Db → Db
rolled_up now db = roll_up_hours now (roll_up_quarters now db)

-- Some day has an uptime of 1000 percent or more.
abbrev pub overflows : ℕ → Db → Bool
overflows now db = any (λ (d : DailyRow). not (fits_numeric d)) (daily_rows now (rolled_up now db))

abbrev pub old_check : ℕ → CheckRow → Bool
old_check now c = expired now (30 * day) c.checked_at

length-filter-not :
    {A : Type 0} (p : A → Bool) (xs : List A)
    → length (filter p xs) + length (filter (λ x. not (p x)) xs) ≡ length xs
length-filter-not p [] = refl
length-filter-not p (x ∷ xs) = ground (arith, length-filter-not p xs)

pub daily_rows-reports :
    (now : ℕ) (w : Db) → daily_rows now (roll_up_reports now w) ≡ daily_rows now w
unfolding roll_up_reports
daily_rows-reports now w = refl

-- On a server that refuses no call, a day whose uptime comes out at 1000 percent or more makes
-- RunRetention fail and commit nothing.
pub run_retention_overflow :
    (year now : ℕ) (db : Db)
    → overflows now db ≡ true
    → let (r, s) = run_retention year now (connected db) in (r ≡ err violation) × (s.stored ≡ db)
unfolding run_retention roll_up_days
run_retention_overflow year now db e =
    rw (◌>>=◌, daily_rows-reports now (rolled_up now db), e) (refl, refl)

-- On a server that refuses no call, and with no day's uptime at 1000 percent or more, RunRetention
-- succeeds. Of the checks exactly those older than 30 days are gone and counted; the servers, the
-- incidents and the queue are as they were.
pub run_retention_lem :
    (year now : ℕ) (db : Db)
    → overflows now db ≡ false
    → let (r, s) = run_retention year now (connected db) in
      (stats : RetentionStats) × (r ≡ ok stats)
      × (s.stored.checks ≡ filter (λ (c : CheckRow). not (old_check now c)) db.checks)
      × (stats.raw_deleted + length s.stored.checks ≡ length db.checks)
      × (s.stored.servers ≡ db.servers)
      × (s.stored.incidents ≡ db.incidents)
      × (s.stored.pending ≡ db.pending)
unfolding run_retention roll_up_days delete_checks delete_quarters delete_hours roll_up_quarters
    roll_up_hours roll_up_reports delete_reports delete_report_quarters
run_retention_lem year now db e =
    rw (◌>>=◌, daily_rows-reports now (rolled_up now db), e)
      (_, refl, refl, length-filter-not (old_check now) db.checks, refl, refl, refl)
