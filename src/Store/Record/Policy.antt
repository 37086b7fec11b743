-- ===== src/Store/Record/Policy.antt =====
-- The state policy as a function of the database, and RecordCheck as its implementation.
use voxellink_monitor.Common.{
  ℕ, String, ◌≡◌, refl, inl, inr, Bool, true, false, not, ◌&&◌, [], arith, ok, err, ◌==◌,
  if◌then◌else◌, Bool-cases,
}
use voxellink_monitor.Domain.{
  PublicStatus, operational, degraded, outage, maintenance, unknown, Outcome, success, probe_error,
  CheckResult, Server, status_eq, outcome_eq, is_failure,
}
use voxellink_monitor.Store.Tables.{Db, server_exists}
use voxellink_monitor.Store.Session.{Session, when, connected}
use voxellink_monitor.Store.Checks.{
  insert_check, with_check, recent_matching_count, recent_failures, earliest_recent_failure,
  first_recent_success,
}
use voxellink_monitor.Store.Record.{
  state_after, with_crowd, set_status, open_incident, resolve_incident, write_change, record_check,
}
use voxellink_monitor.Store.Checks.Order.{earliest_recent_failure-with_check}
use voxellink_monitor.Store.Signal.{crowd_signal}

-- A healthy session in the middle of a transaction.
abbrev pub within : Db → Db → Session
within stored working = record { stored = stored; working = working; aborted = false; faults = [] }

-- What an observation says by itself: the status it speaks for, and whether to change to it.
unfoldable pub probe_policy : Server → Outcome → Db → PublicStatus × Bool
probe_policy server probe_error db = (unknown, not (status_eq server.status unknown))
probe_policy server success db = (
  operational,
  if status_eq server.status outage
      then recent_matching_count server.id 2 success db == 2
      else not (status_eq server.status operational),
)
probe_policy server o db =
    (outage, not (status_eq server.status outage) && recent_failures server.id 3 db == 3)

-- A success under an anomalous count of reports speaks for DEGRADED.
unfoldable pub policy : Server → CheckResult → Db → PublicStatus × Bool
unfolding probe_policy
policy server result db =
    if outcome_eq result.outcome success && (crowd_signal server.id result.at db).anomalous
    then (degraded, not (status_eq server.status degraded))
    else probe_policy server result.outcome db

abbrev started : String → Db → ℕ
started id db = elim (earliest_recent_failure id db) [ ok (t, _) ↦ t | err _ ↦ 0 ]

-- The database after a change of status: the row, the incident that opens, the one that closes.
unfoldable pub settle : String → ℕ → Server → CheckResult → PublicStatus → Db → Db
settle uuid now server result next db =
    let changed = set_status now server.id next result.at db in
    if status_eq next outage
    then open_incident uuid server.id result.outcome (started server.id changed) result.at changed
    else if status_eq server.status outage && status_eq next operational
    then resolve_incident server.id (first_recent_success result.at server.id changed) result.at
        changed
    else changed

module _ (server : Server) (result : CheckResult) (d w : Db) where
  state_after-within :
      state_after server result (within d w)
      ≡ (ok (probe_policy server result.outcome w), within d w)
  unfolding state_after probe_policy
  state_after-within = ground arith

  with_crowd-within :
      with_crowd server result (probe_policy server result.outcome w) (within d w)
      ≡ (ok (policy server result w), within d w)
  unfolding with_crowd policy
  with_crowd-within = ground arith

is_outage : (p : PublicStatus) → status_eq p outage ≡ true → p ≡ outage
is_outage p e = ground arith

-- Statements at the end of a transaction.
module _ (uuid : String) (now : ℕ) (server : Server) (result : CheckResult) (next : PublicStatus)
    (d w : Db) where
  write_change-within :
      (next ≡ outage
        → (t : ℕ) × (earliest_recent_failure server.id (set_status now server.id next result.at w)
            ≡ ok (t, set_status now server.id next result.at w)))
      → write_change uuid now server result next (within d w)
        ≡ (ok tt, within d (settle uuid now server result next w))
  unfolding write_change settle
  write_change-within found = elim (Bool-cases (status_eq next outage)) [
    | inl e ↦ ground (arith, (found (is_outage next e)).1)
    | inr e ↦ ground arith
  ]

-- The policy speaks for OUTAGE only upon a failure of the service.
policy-outage :
    (server : Server) (result : CheckResult) (w : Db)
    → (policy server result w).0 ≡ outage
    → is_failure result.outcome ≡ true
unfolding policy
policy-outage server result w h = ground arith

-- The database that RecordCheck commits.
unfoldable pub recorded : String → ℕ → Server → CheckResult → Db → Db
recorded uuid now server result db =
    let w = with_check server.id result db in
    let (next, changed) = policy server result w in
    if status_eq server.status maintenance
    then w
    else if changed
    then settle uuid now server result next w
    else w

-- On a server that refuses no call, RecordCheck of a known server succeeds. In MAINTENANCE it
-- stores the observation and keeps the status. Otherwise it stores the observation, returns the
-- verdict of the policy, and commits what the policy settles, if the verdict is a change.
pub record_check_lem :
    (uuid : String) (now : ℕ) (server : Server) (result : CheckResult) (db : Db)
    → server_exists server.id db ≡ true
    → let (next, changed) = policy server result (with_check server.id result db) in
      record_check uuid now server result (connected db) ≡ (
        ok (
            if status_eq server.status maintenance
            then (false, server.status)
            else (changed, next)),
        connected (recorded uuid now server result db),
      )
unfolding record_check insert_check recorded
record_check_lem uuid now server result db known =
    let w = with_check server.id result db in
    let v = policy server result w in
    let found = λ (o : v.0 ≡ outage).
      earliest_recent_failure-with_check server.id result db
        (set_status now server.id v.0 result.at w) (policy-outage server result w o)
        (unfold set_status in refl) in
    elim (Bool-cases (status_eq server.status maintenance)) [
      | inl e ↦ rw (known, e)
      | inr e ↦
          rw (known, e, state_after-within server result db w, with_crowd-within server result db w)
            (elim (Bool-cases v.1) [
              | inl c ↦ rw (c, when, write_change-within uuid now server result v.0 db w found)
              | inr c ↦ rw (c, when)
            ])
    ]
