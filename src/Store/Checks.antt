-- ===== src/Store/Checks.antt =====
-- The queries of postgres.go over the table `checks`.
pub mod Order
use voxellink_monitor.Common.{
  ℕ, zero, suc, ◌+◌, ◌-◌, ◌*◌, ◌/◌, ◌%◌, ◌^◌, ◌≤◌, ◌<◌, bit_and, bit_or, min, max, String, ◌≡◌,
  refl, sym, ap, ◌∙◌, subst, ◌≢◌, ◌↔◌, ◌⊎◌, inl, inr, Bool, true, false, not, ◌&&◌, ◌||◌, Option,
  none, some, List, [], ◌∷◌, ◌++◌, arith, str_eq, eq_iff, Result, ok, err, Result-cases, ℤ, pos,
  negsuc, ltb, leb, ◌==◌, if◌then◌else◌, ltb→lt, leb→le, ==_iff, Bool-cases, Option-cases, length,
  take, drop, head?, filter, any, update_where, All, length-append, length-take-le,
  length-filter-le, length-update_where, is_empty,
}
use voxellink_monitor.Domain.{
  PublicStatus, operational, degraded, outage, maintenance, unknown, Outcome, success, dns_failure,
  connection_refused, connect_timeout, status_timeout, connection_reset, invalid_status_response,
  probe_error, UserReportType, connection, login, timeout, lag, other, CheckResult, Server,
  ServerMember, ImportedServer, UserReport, CrowdSignal, PendingStateNotification, status_eq,
  outcome_eq, is_failure,
}
use voxellink_monitor.Store.Tables.{CheckRow, Db, server_exists}
use voxellink_monitor.Store.Session.{Error, violation, null_scan}

-- ORDER BY checked_at DESC, id DESC: whether `a` comes before `b`.
abbrev pub newer : CheckRow → CheckRow → Bool
newer a b = ltb b.checked_at a.checked_at || (a.checked_at == b.checked_at && ltb b.id a.id)

pub place : CheckRow → List CheckRow → List CheckRow
place c [] = c ∷ []
place c (d ∷ ds) = if newer c d then c ∷ d ∷ ds else d ∷ place c ds

unfoldable pub order_desc : List CheckRow → List CheckRow
unfolding place
order_desc [] = []
order_desc (c ∷ cs) = place c (order_desc cs)

-- FROM checks WHERE server_id = $1 AND p ORDER BY checked_at DESC, id DESC LIMIT n
unfoldable pub recent_where : (Outcome → Bool) → Db → String → ℕ → List CheckRow
unfolding order_desc
recent_where p db id limit =
    take limit
      (order_desc (filter (λ (c : CheckRow). str_eq c.server_id id && p c.outcome) db.checks))

abbrev pub every : Outcome → Bool
every o = true

unfoldable pub recent : Db → String → ℕ → List CheckRow
unfolding recent_where
recent = recent_where every

unfoldable pub recent_matching_count : String → ℕ → Outcome → Db → ℕ
unfolding recent
recent_matching_count id limit target db =
    length (filter (λ (c : CheckRow). outcome_eq c.outcome target) (recent db id limit))

unfoldable pub recent_failures : String → ℕ → Db → ℕ
unfolding recent
recent_failures id limit db =
    length (filter (λ (c : CheckRow). is_failure c.outcome) (recent db id limit))

-- min(checked_at), NULL of no rows
abbrev min_at : List CheckRow → Option ℕ
min_at [] = none
min_at (c ∷ cs) = elim (min_at cs) [ none ↦ some c.checked_at | some t ↦ some (min c.checked_at t) ]

-- A NULL is refused by Scan.
abbrev scan_at : Option ℕ → Db → Result Error (ℕ × Db)
scan_at none db = err null_scan
scan_at (some t) db = ok (t, db)

unfoldable pub earliest_recent_failure : String → Db → Result Error (ℕ × Db)
unfolding recent_where
earliest_recent_failure id db = scan_at (min_at (recent_where is_failure db id 3)) db

-- The fallback stands for a refused query too: `Option` is NULL or an instant.
unfoldable pub first_recent_success : ℕ → String → Db → ℕ
unfolding recent_where
first_recent_success fallback id db =
    elim (min_at (recent_where (λ o. outcome_eq o success) db id 2)) [
      | none ↦ fallback
      | some t ↦ t
    ]

-- NULLIF($7, '')
abbrev null_if_empty : String → Option String
null_if_empty s = if is_empty s then none else some s

-- The latency is written of a success only, in whole milliseconds.
abbrev pub check_row : ℕ → String → CheckResult → CheckRow
check_row id server_id result = record {
  id = id;
  server_id = server_id;
  checked_at = result.at;
  outcome = result.outcome;
  latency_ms = if outcome_eq result.outcome success then some (result.latency / 1000000) else none;
  players_online = result.players_online;
  players_max = result.players_max;
  error_detail = null_if_empty result.detail;
}

abbrev pub with_check : String → CheckResult → Db → Db
with_check id result db = record db {
  checks = check_row db.check_serial id result ∷ db.checks;
  check_serial = db.check_serial + 1;
}

-- INSERT INTO checks: the server's id is a foreign key.
unfoldable pub insert_check : String → CheckResult → Db → Result Error (Unit {0} × Db)
insert_check id result db =
    if server_exists id db then ok (tt, with_check id result db) else err violation
