-- ===== src/Store/Record.antt =====
-- RecordCheck and stateAfter of postgres.go: one observation and the persisted state policy.
pub mod Outcomes
pub mod Policy
pub mod Refinement
pub mod Incidents
pub mod Orphans
pub mod Shown
pub mod Changes
pub mod Backed
use voxellink_monitor.Common.{
  ℕ, zero, suc, ◌+◌, ◌-◌, ◌*◌, ◌/◌, ◌%◌, ◌^◌, ◌≤◌, ◌<◌, bit_and, bit_or, min, max, String, ◌≡◌,
  refl, sym, ap, ◌∙◌, subst, ◌≢◌, ◌↔◌, ◌⊎◌, inl, inr, Bool, true, false, not, ◌&&◌, ◌||◌, Option,
  none, some, List, [], ◌∷◌, ◌++◌, arith, str_eq, eq_iff, Result, ok, err, Result-cases, ℤ, pos,
  negsuc, ltb, leb, ◌==◌, if◌then◌else◌, ltb→lt, leb→le, ==_iff, Bool-cases, Option-cases, length,
  take, drop, head?, filter, any, update_where, All, length-append, length-take-le,
  length-filter-le, length-update_where, is_empty,
}
use voxellink_monitor.Domain.{
  PublicStatus, operational, degraded, outage, maintenance, unknown, Outcome, success, dns_failure,
  connection_refused, connect_timeout, status_timeout, connection_reset, invalid_status_response,
  probe_error, UserReportType, connection, login, timeout, lag, other, CheckResult, Server,
  ServerMember, ImportedServer, UserReport, CrowdSignal, PendingStateNotification, status_eq,
  outcome_eq, is_failure,
}
use voxellink_monitor.Store.Tables.{ServerRow, IncidentRow, opened, resolved, Db}
use voxellink_monitor.Store.Session.{
  Error, Session, Tx, pure, statement, query, change, begin, commit, ◌>>=◌, ◌>>◌, when, answer,
}
use voxellink_monitor.Store.Checks.{
  insert_check, recent_matching_count, recent_failures, earliest_recent_failure,
  first_recent_success,
}
use voxellink_monitor.Store.Signal.{crowd_signal}

-- The status that the observation speaks for, and whether to change to it.
unfoldable pub state_after : Server → CheckResult → Tx (PublicStatus × Bool)
unfolding ◌>>=◌
state_after server result =
    if outcome_eq result.outcome probe_error
    then pure (unknown, not (status_eq server.status unknown))
    else if outcome_eq result.outcome success
    then (if status_eq server.status outage
        then (do
          count ← statement (query (recent_matching_count server.id 2 success))
          pure (operational, count == 2))
        else pure (operational, not (status_eq server.status operational)))
    else if status_eq server.status outage
    then pure (outage, false)
    else do count ← statement (query (recent_failures server.id 3)); pure (outage, count == 3)

-- The player reports overrule a success, and only that.
unfoldable pub with_crowd : Server → CheckResult → PublicStatus × Bool → Tx (PublicStatus × Bool)
unfolding ◌>>=◌
with_crowd server result (next, changed) =
    if outcome_eq result.outcome success && status_eq next operational
    then (do
      signal ← statement (query (crowd_signal server.id result.at))
      pure (
          if signal.anomalous
          then (degraded, not (status_eq server.status degraded))
          else (next, changed)))
    else pure (next, changed)

-- UPDATE monitored_servers SET status
unfoldable pub set_status : ℕ → String → PublicStatus → ℕ → Db → Db
set_status now id status at db = record db {
  servers =
      update_where (λ (s : ServerRow). str_eq s.id id)
        (λ (s : ServerRow). record s { status = status; status_changed_at = at; updated_at = now })
        db.servers;
}

unfoldable pub open_incident : String → String → Outcome → ℕ → ℕ → Db → Db
open_incident uuid id reason started_at at db = record db {
  incidents =
      (record {
        id = uuid;
        server_id = id;
        state = opened;
        reason = reason;
        started_at = started_at;
        confirmed_at = at;
        recovery_started_at = none;
        resolved_at = none;
      })
      ∷ db.incidents;
}

abbrev pub is_open : String → IncidentRow → Bool
is_open id i = str_eq i.server_id id && elim i.state [ opened ↦ true | resolved ↦ false ]

-- ORDER BY started_at DESC LIMIT 1, over the open incidents of a server
abbrev pub latest_open : String → List IncidentRow → Option IncidentRow
latest_open id [] = none
latest_open id (i ∷ rest) =
    let later = latest_open id rest in
    if is_open id i
    then elim later [
      | none ↦ some i
      | some j ↦ if ltb i.started_at j.started_at then some j else some i
    ]
    else later

abbrev pub resolve : ℕ → ℕ → IncidentRow → IncidentRow
resolve recovery at i = record i {
  state = resolved;
  recovery_started_at = some recovery;
  resolved_at = some at;
}

unfoldable pub resolve_incident : String → ℕ → ℕ → Db → Db
resolve_incident id recovery at db = record db {
  incidents = elim (latest_open id db.incidents) [
    | none ↦ db.incidents
    | some i ↦
        update_where (λ (j : IncidentRow). str_eq j.id i.id) (resolve recovery at) db.incidents
  ];
}

-- A query whose failure gives way to `fallback`. A refused statement still aborts the transaction.
abbrev or_else : ℕ → Result Error ℕ × Session → Result Error ℕ × Session
or_else fallback (ok t, s) = (ok t, s)
or_else fallback (err e, s) = (ok fallback, s)

unfoldable pub recovery_start : ℕ → String → Tx ℕ
unfolding statement
recovery_start fallback id s =
    or_else fallback (statement (query (first_recent_success fallback id)) s)

-- What `if changed { ... }` writes. `uuid` is what gen_random_uuid() returns.
unfoldable pub write_change : String → ℕ → Server → CheckResult → PublicStatus → Tx (Unit {0})
unfolding ◌>>=◌ when recovery_start
write_change uuid now server result next = do
  statement (change (set_status now server.id next result.at))
  when (status_eq next outage) (do
    started_at ← statement (earliest_recent_failure server.id)
    statement (change (open_incident uuid server.id result.outcome started_at result.at)))
  when (status_eq server.status outage && status_eq next operational) (do
    recovery ← recovery_start result.at server.id
    statement (change (resolve_incident server.id recovery result.at)))

unfoldable pub record_check : String → ℕ → Server → CheckResult → Tx (Bool × PublicStatus)
unfolding ◌>>=◌ when state_after with_crowd write_change
record_check uuid now server result = do
  begin
  statement (insert_check server.id result)
  if status_eq server.status maintenance then (do commit; pure (false, server.status)) else do
    next ← state_after server result
    (status, changed) ← with_crowd server result next
    when changed (write_change uuid now server result status)
    commit
    pure (changed, status)
