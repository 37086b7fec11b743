-- ===== src/Store/Retention.antt =====
-- RunRetention of postgres.go: the rollups of each resolution, then the deletions.
pub mod Rollup
pub mod Groups
pub mod Repeat
use voxellink_monitor.Common.{
  ℕ, zero, suc, ◌+◌, ◌-◌, ◌*◌, ◌/◌, ◌%◌, ◌^◌, ◌≤◌, ◌<◌, bit_and, bit_or, min, max, String, ◌≡◌,
  refl, sym, ap, ◌∙◌, subst, ◌≢◌, ◌↔◌, ◌⊎◌, inl, inr, Bool, true, false, not, ◌&&◌, ◌||◌, Option,
  none, some, List, [], ◌∷◌, ◌++◌, arith, str_eq, eq_iff, Result, ok, err, Result-cases, ℤ, pos,
  negsuc, ltb, leb, ◌==◌, if◌then◌else◌, ltb→lt, leb→le, ==_iff, Bool-cases, Option-cases, length,
  take, drop, head?, filter, any, update_where, All, length-append, length-take-le,
  length-filter-le, length-update_where, is_empty, drop-nil, Pointwise, take-append, drop-append,
}
use voxellink_monitor.Domain.{
  PublicStatus, operational, degraded, outage, maintenance, unknown, Outcome, success, dns_failure,
  connection_refused, connect_timeout, status_timeout, connection_reset, invalid_status_response,
  probe_error, UserReportType, connection, login, timeout, lag, other, CheckResult, Server,
  ServerMember, ImportedServer, UserReport, CrowdSignal, PendingStateNotification, status_eq,
  outcome_eq, is_failure,
}
use voxellink_monitor.Store.Tables.{
  CheckRow, ReportRow, AggregateRow, ReportAggregateRow, DailyRow, Db, quarter, hour, day, floor_to,
  in_maintenance,
}
use voxellink_monitor.Store.Session.{
  Error, violation, Session, Tx, pure, statement, change, begin, commit, ◌>>=◌, ◌>>◌,
}

-- sum and max over rows, NULL of no value
abbrev pub sum_of : {A : Type 0} → (A → ℕ) → List A → ℕ
sum_of f [] = 0
sum_of f (x ∷ xs) = f x + sum_of f xs

abbrev pub max_of : {A : Type 0} → (A → Option ℕ) → List A → Option ℕ
max_of f [] = none
max_of f (x ∷ xs) = elim (f x) [
  | none ↦ max_of f xs
  | some a ↦ elim (max_of f xs) [ none ↦ some a | some b ↦ some (max a b) ]
]

-- round(a / b)::integer, NULL where b is 0
abbrev pub round_div : ℕ → ℕ → Option ℕ
round_div a b = if b == 0 then none else some ((a * 2 + b) / (b * 2))

abbrev pub latency_or_zero : Option ℕ → ℕ
latency_or_zero none = 0
latency_or_zero (some n) = n

-- GROUP BY server_id and a bucket: the members of the group of one row
module _ {A : Type 0} (server : A → String) (bucket : A → ℕ) where
  abbrev pub same_group : A → A → Bool
  same_group x y = str_eq (server y) (server x) && bucket y == bucket x

  -- One aggregate for each group, computed from its members.
  abbrev pub group : {B : Type 0} → (A → List A → B) → List A → List A → List B
  group agg all [] = []
  group agg all (x ∷ xs) =
      if any (same_group x) xs
      then group agg all xs
      else agg x (filter (same_group x) all) ∷ group agg all xs

-- INSERT ... ON CONFLICT DO UPDATE: a row of the same key is replaced.
abbrev pub replace : {B : Type 0} → (B → B → Bool) → List B → List B → List B
replace same [] table = table
replace same (b ∷ bs) table = b ∷ filter (λ r. not (same b r)) (replace same bs table)

abbrev pub is_success : CheckRow → Bool
is_success c = outcome_eq c.outcome success

unfoldable pub quarter_of : Db → CheckRow → List CheckRow → AggregateRow
quarter_of db c rows = record {
  server_id = c.server_id;
  bucket_start = floor_to quarter c.checked_at;
  checks_total = length rows;
  checks_successful = length (filter is_success rows);
  checks_excluded =
      length (filter (λ (r : CheckRow). in_maintenance db r.server_id r.checked_at) rows);
  latency_avg_ms =
      round_div (sum_of (λ (r : CheckRow). latency_or_zero r.latency_ms) (filter is_success rows))
        (length (filter is_success rows));
  latency_max_ms = max_of (λ (r : CheckRow). r.latency_ms) (filter is_success rows);
}

abbrev pub same_aggregate : AggregateRow → AggregateRow → Bool
same_aggregate a b = str_eq b.server_id a.server_id && b.bucket_start == a.bucket_start

unfoldable pub roll_up_quarters : ℕ → Db → Db
unfolding quarter_of
roll_up_quarters now db =
    let old = filter (λ (c : CheckRow). ltb c.checked_at (floor_to hour now)) db.checks in
    record db {
      quarters =
          replace same_aggregate
            (group (λ (c : CheckRow). c.server_id) (λ (c : CheckRow). floor_to quarter c.checked_at)
              (quarter_of db) old old)
            db.quarters;
    }

unfoldable pub hour_of : AggregateRow → List AggregateRow → AggregateRow
hour_of a rows = record {
  server_id = a.server_id;
  bucket_start = floor_to hour a.bucket_start;
  checks_total = sum_of (λ (r : AggregateRow). r.checks_total) rows;
  checks_successful = sum_of (λ (r : AggregateRow). r.checks_successful) rows;
  checks_excluded = sum_of (λ (r : AggregateRow). r.checks_excluded) rows;
  latency_avg_ms =
      round_div
        (sum_of (λ (r : AggregateRow). latency_or_zero r.latency_avg_ms * r.checks_successful) rows)
        (sum_of (λ (r : AggregateRow). r.checks_successful) rows);
  latency_max_ms = max_of (λ (r : AggregateRow). r.latency_max_ms) rows;
}

unfoldable pub roll_up_hours : ℕ → Db → Db
unfolding hour_of
roll_up_hours now db =
    let old = filter (λ (a : AggregateRow). ltb a.bucket_start (floor_to hour now)) db.quarters in
    record db {
      hours =
          replace same_aggregate
            (group (λ (a : AggregateRow). a.server_id)
              (λ (a : AggregateRow). floor_to hour a.bucket_start) hour_of old old)
            db.hours;
    }

abbrev kind_eq : UserReportType → UserReportType → Bool
kind_eq connection connection = true
kind_eq login login = true
kind_eq timeout timeout = true
kind_eq lag lag = true
kind_eq other other = true
kind_eq _ _ = false

abbrev of_kind : UserReportType → List ReportRow → ℕ
of_kind kind rows = length (filter (λ (r : ReportRow). kind_eq r.report_type kind) rows)

unfoldable pub report_quarter_of : ReportRow → List ReportRow → ReportAggregateRow
report_quarter_of r rows = record {
  server_id = r.server_id;
  bucket_start = floor_to quarter r.reported_at;
  reports_total = length rows;
  connection_reports = of_kind connection rows;
  login_reports = of_kind login rows;
  timeout_reports = of_kind timeout rows;
  lag_reports = of_kind lag rows;
  other_reports = of_kind other rows;
}

abbrev same_report_aggregate : ReportAggregateRow → ReportAggregateRow → Bool
same_report_aggregate a b = str_eq b.server_id a.server_id && b.bucket_start == a.bucket_start

unfoldable pub roll_up_reports : ℕ → Db → Db
unfolding report_quarter_of
roll_up_reports now db =
    let old = filter (λ (r : ReportRow). ltb r.reported_at (floor_to hour now)) db.reports in
    record db {
      report_quarters =
          replace same_report_aggregate
            (group (λ (r : ReportRow). r.server_id)
              (λ (r : ReportRow). floor_to quarter r.reported_at) report_quarter_of old old)
            db.report_quarters;
    }

-- round(100.0 * successful / nullif(total - excluded, 0), 2), in hundredths of a percent. The
-- excluded checks of a bucket are among its total.
abbrev pub uptime_of : ℕ → ℕ → ℕ → Option ℕ
uptime_of total successful excluded = round_div (successful * 10000) (total - excluded)

unfoldable pub day_of : AggregateRow → List AggregateRow → DailyRow
day_of a rows =
    let total = sum_of (λ (r : AggregateRow). r.checks_total) rows in
    let successful = sum_of (λ (r : AggregateRow). r.checks_successful) rows in
    let excluded = sum_of (λ (r : AggregateRow). r.checks_excluded) rows in
    record {
      server_id = a.server_id;
      day = a.bucket_start / day;
      checks_total = total;
      checks_successful = successful;
      checks_excluded = excluded;
      uptime_percent = uptime_of total successful excluded;
    }

-- numeric(5,2) holds no value of 1000 or more.
abbrev pub fits_numeric : DailyRow → Bool
fits_numeric d = elim d.uptime_percent [ none ↦ true | some u ↦ ltb u 100000 ]

abbrev same_daily : DailyRow → DailyRow → Bool
same_daily a b = str_eq b.server_id a.server_id && b.day == a.day

abbrev pub daily_rows : ℕ → Db → List DailyRow
daily_rows now db =
    let old = filter (λ (a : AggregateRow). ltb a.bucket_start (floor_to day now)) db.hours in
    group (λ (a : AggregateRow). a.server_id) (λ (a : AggregateRow). a.bucket_start / day) day_of
      old old

unfoldable pub roll_up_days : ℕ → Db → Result Error (Unit {0} × Db)
unfolding day_of
roll_up_days now db =
    if any (λ (d : DailyRow). not (fits_numeric d)) (daily_rows now db)
    then err violation
    else ok (tt, record db { days = replace same_daily (daily_rows now db) db.days })

-- DELETE ... WHERE at < now() - span, with RowsAffected
abbrev pub expired : ℕ → ℕ → ℕ → Bool
expired now span at = ltb (at + span) now

unfoldable pub delete_checks : ℕ → Db → Result Error (ℕ × Db)
delete_checks now db = ok (
  length (filter (λ (c : CheckRow). expired now (30 * day) c.checked_at) db.checks),
  record db {
    checks = filter (λ (c : CheckRow). not (expired now (30 * day) c.checked_at)) db.checks;
  },
)

unfoldable pub delete_quarters : ℕ → Db → Result Error (ℕ × Db)
delete_quarters now db = ok (
  length (filter (λ (a : AggregateRow). expired now (90 * day) a.bucket_start) db.quarters),
  record db {
    quarters =
        filter (λ (a : AggregateRow). not (expired now (90 * day) a.bucket_start)) db.quarters;
  },
)

-- `year` is what `interval '1 year'` takes off now(): 365 or 366 days.
unfoldable pub delete_hours : ℕ → ℕ → Db → Result Error (ℕ × Db)
delete_hours year now db = ok (
  length (filter (λ (a : AggregateRow). expired now year a.bucket_start) db.hours),
  record db {
    hours = filter (λ (a : AggregateRow). not (expired now year a.bucket_start)) db.hours;
  },
)

unfoldable pub delete_reports : ℕ → Db → Db
delete_reports now db = record db {
  reports = filter (λ (r : ReportRow). not (expired now (30 * day) r.reported_at)) db.reports;
}

unfoldable pub delete_report_quarters : ℕ → Db → Db
delete_report_quarters now db = record db {
  report_quarters =
      filter (λ (a : ReportAggregateRow). not (expired now (90 * day) a.bucket_start))
        db.report_quarters;
}

pub record RetentionStats : Type 0 where
  pub raw_deleted : ℕ
  pub fifteen_minute_deleted : ℕ
  pub hourly_deleted : ℕ

unfoldable pub run_retention : ℕ → ℕ → Tx RetentionStats
unfolding ◌>>=◌
run_retention year now = do
  begin
  statement (change (roll_up_quarters now))
  statement (change (roll_up_hours now))
  statement (change (roll_up_reports now))
  statement (roll_up_days now)
  raw ← statement (delete_checks now)
  fifteen ← statement (delete_quarters now)
  hourly ← statement (delete_hours year now)
  statement (change (delete_reports now))
  statement (change (delete_report_quarters now))
  commit
  pure (record { raw_deleted = raw; fifteen_minute_deleted = fifteen; hourly_deleted = hourly })
