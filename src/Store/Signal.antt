-- ===== src/Store/Signal.antt =====
-- crowdSignal of postgres.go: the reports of the running quarter of an hour against those of the
-- same quarter and weekday of the last 28 days. Instants are read in UTC.
use voxellink_monitor.Common.{
  ℕ, suc, ◌+◌, ◌*◌, ◌/◌, ◌%◌, max, String, Bool, ◌&&◌, List, [], ◌∷◌, str_eq, ltb, leb, ◌==◌,
  if◌then◌else◌, length, filter, any,
}
use voxellink_monitor.Domain.{CrowdSignal}
use voxellink_monitor.Crowd.{Average, evaluate}
use voxellink_monitor.Store.Tables.{ReportRow, Db, quarter, day, floor_to}

-- extract(dow ...): the days since a Saturday, compared for equality only
abbrev weekday : ℕ → ℕ
weekday t = t / day % 7

-- extract(hour ...) and the quarter of the hour
abbrev slot : ℕ → ℕ
slot t = t % day / quarter

abbrev current : String → ℕ → ReportRow → Bool
current id at r =
    let start = floor_to quarter at in
    str_eq r.server_id id && (leb start r.reported_at && ltb r.reported_at (start + quarter))

abbrev historical : String → ℕ → ReportRow → Bool
historical id at r =
    let start = floor_to quarter at in
    str_eq r.server_id id
    && ((leb at (r.reported_at + 28 * day) && ltb r.reported_at start)
        && (weekday r.reported_at == weekday start && slot r.reported_at == slot start))

-- GROUP BY date_trunc('day', reported_at): how many groups there are
abbrev pub distinct_days : List ReportRow → ℕ
distinct_days [] = 0
distinct_days (r ∷ rs) =
    if any (λ (q : ReportRow). q.reported_at / day == r.reported_at / day) rs
    then distinct_days rs
    else suc (distinct_days rs)

-- coalesce(avg(reports), 0): a day without a report is no group, and counts for nothing
abbrev average : List ReportRow → Average
average rows = record { total = length rows; days = max 1 (distinct_days rows) }

unfoldable pub baseline_of : String → ℕ → Db → Average
baseline_of id at db = average (filter (historical id at) db.reports)

unfoldable pub reports_now : String → ℕ → Db → ℕ
reports_now id at db = length (filter (current id at) db.reports)

unfoldable pub crowd_signal : String → ℕ → Db → CrowdSignal
unfolding evaluate baseline_of reports_now
crowd_signal id at db = evaluate (reports_now id at db) (baseline_of id at db)
