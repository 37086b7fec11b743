-- ===== src/Store/Uptime.antt =====
-- Uptime24h of postgres.go. The float64 percentage is an exact fraction.
pub mod Bounds
use voxellink_monitor.Common.{
  ℕ, zero, suc, ◌+◌, ◌-◌, ◌*◌, ◌/◌, ◌%◌, ◌^◌, ◌≤◌, ◌<◌, bit_and, bit_or, min, max, String, ◌≡◌,
  refl, sym, ap, ◌∙◌, subst, ◌≢◌, ◌↔◌, ◌⊎◌, inl, inr, Bool, true, false, not, ◌&&◌, ◌||◌, Option,
  none, some, List, [], ◌∷◌, ◌++◌, arith, str_eq, eq_iff, Result, ok, err, Result-cases, ℤ, pos,
  negsuc, ltb, leb, ◌==◌, if◌then◌else◌, ltb→lt, leb→le, ==_iff, Bool-cases, Option-cases, length,
  take, drop, head?, filter, any, update_where, All, length-append, length-take-le,
  length-filter-le, length-update_where, is_empty, drop-nil, Pointwise, take-append, drop-append,
}
use voxellink_monitor.Domain.{
  PublicStatus, operational, degraded, outage, maintenance, unknown, Outcome, success, dns_failure,
  connection_refused, connect_timeout, status_timeout, connection_reset, invalid_status_response,
  probe_error, UserReportType, connection, login, timeout, lag, other, CheckResult, Server,
  ServerMember, ImportedServer, UserReport, CrowdSignal, PendingStateNotification, status_eq,
  outcome_eq, is_failure,
}
use voxellink_monitor.Store.Tables.{CheckRow, Db, hour, in_maintenance}
use voxellink_monitor.Store.Session.{Tx, query, alone}

-- 100 * part / whole percent
pub record Percentage : Type 0 where
  pub part : ℕ
  pub whole : ℕ

-- c.checked_at >= now() - interval '24 hours'
abbrev pub in_last_day : String → ℕ → CheckRow → Bool
in_last_day id now c = str_eq c.server_id id && leb now (c.checked_at + 24 * hour)

abbrev pub is_up : Db → CheckRow → Bool
is_up db c = outcome_eq c.outcome success && not (in_maintenance db c.server_id c.checked_at)

abbrev pub is_counted : Db → CheckRow → Bool
is_counted db c =
    not (outcome_eq c.outcome probe_error) && not (in_maintenance db c.server_id c.checked_at)

-- NULLIF(..., 0): no check to count is NULL, and the function then returns 0.
unfoldable pub uptime_of_day : ℕ → String → Db → Percentage
uptime_of_day now id db =
    let rows = filter (in_last_day id now) db.checks in
    let whole = length (filter (is_counted db) rows) in
    if whole == 0
    then record { part = 0; whole = 1 }
    else record { part = length (filter (is_up db) rows); whole = whole }

unfoldable pub uptime_24h : ℕ → String → Tx Percentage
unfolding alone uptime_of_day
uptime_24h now id = alone (query (uptime_of_day now id))
