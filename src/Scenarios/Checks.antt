-- ===== src/Scenarios/Checks.antt =====
-- Observations of the worker.
use voxellink_monitor.Common.{
  ℕ, ◌≡◌, refl, true, false, none, [], ◌∷◌, str_eq, ok, ◌==◌, length, drop, All,
}
use voxellink_monitor.Domain.{
  PublicStatus, operational, degraded, outage, unknown, success, status_timeout,
}
use voxellink_monitor.Incident
use voxellink_monitor.Store.Tables.{Db, ServerRow, PendingRow}
use voxellink_monitor.Store.Session.{connected}
use voxellink_monitor.Store.Session.Atomic.{IsAtomic}
use voxellink_monitor.Store.Checks.{recent_failures, recent_matching_count, recent, with_check}
use voxellink_monitor.Store.Signal.{crowd_signal}
use voxellink_monitor.Store.Record.{record_check}
use voxellink_monitor.Store.Record.Outcomes.{record_check-IsAtomic}
use voxellink_monitor.Store.Record.Policy.{policy, recorded, record_check_lem}
use voxellink_monitor.Store.Record.Refinement.{Tracks, record_check-Machine}
use voxellink_monitor.Store.Record.Incidents.{crowd_ends_outage}
use voxellink_monitor.Worker.{check, dispatch_pending}
use voxellink_monitor.Worker.World.{services}
use voxellink_monitor.Worker.Confirm.{facing, two_successes_unconfirmed}
use voxellink_monitor.Worker.Dispatch.{
  online, accepted, queue, marked, tell, dispatch_pending-online,
}
use voxellink_monitor.Scenarios.Data.{lobby, seen, with_lobby, troubled, idle, one_uuid}

record_check-IsAtomic_example : IsAtomic (record_check "i1" 0 (lobby operational) (seen success 1))
record_check-IsAtomic_example = record_check-IsAtomic "i1" 0 (lobby operational) (seen success 1)

-- A first observation takes a new server from UNKNOWN to OPERATIONAL.
first_success :
    policy (lobby unknown) (seen success 1) (with_check "u1" (seen success 1) (with_lobby unknown))
    ≡ (operational, true)
unfolding policy crowd_signal
first_success = refl

record_check_lem_example :
    let db = with_lobby unknown in
    let v = policy (lobby unknown) (seen success 1) (with_check "u1" (seen success 1) db) in
    record_check "i1" 5 (lobby unknown) (seen success 1) (connected db)
    ≡ (ok (v.1, v.0), connected (recorded "i1" 5 (lobby unknown) (seen success 1) db))
record_check_lem_example =
    record_check_lem "i1" 5 (lobby unknown) (seen success 1) (with_lobby unknown) refl

fresh : Tracks (Incident.new unknown) (lobby unknown) (with_lobby unknown)
unfolding Incident.new recent
fresh = record { status = refl; rows = ((λ _. refl), tt); failures = refl; successes = λ e. cc }

calm_lobby :
    (crowd_signal "u1"
      (seen success 1).at
      (with_check "u1" (seen success 1) (with_lobby unknown))).anomalous
    ≡ false
unfolding crowd_signal
calm_lobby = refl

record_check-Machine_example :
    let db = with_lobby unknown in
    let (m', state, changed) = Incident.apply (Incident.new unknown) success in
    let final = recorded "i1" 5 (lobby unknown) (seen success 1) db in
    (p : PublicStatus) × (record_check "i1" 5 (lobby unknown) (seen success 1) (connected db)
      ≡ (ok (changed, p), connected final))
    × (changed ≡ true → p ≡ state)
    × Tracks m' (record (lobby unknown) { status = state }) final
record_check-Machine_example =
    record_check-Machine "i1" 5 (Incident.new unknown) (lobby unknown) (seen success 1)
      (with_lobby unknown) tt fresh refl calm_lobby refl

anomaly :
    (crowd_signal "u1"
      (seen success 1).at
      (with_check "u1" (seen success 1) (troubled outage))).anomalous
    ≡ true
unfolding crowd_signal
anomaly = refl

crowd_ends_outage_example :
    let db = troubled outage in
    let final = recorded "i1" 5 (lobby outage) (seen success 1) db in
    (record_check "i1" 5 (lobby outage) (seen success 1) (connected db)
      ≡ (ok (true, degraded), connected final))
    × All (λ (s : ServerRow). str_eq s.id "u1" ≡ true → s.status ≡ degraded) final.servers
    × (final.incidents ≡ db.incidents)
crowd_ends_outage_example =
    crowd_ends_outage "i1" 5 (lobby outage) (seen success 1) (troubled outage) refl refl refl
      anomaly

first_failure :
    (recent_failures "u1" 3 (with_check "u1" (seen status_timeout 1) (with_lobby operational)) == 3)
    ≡ false
unfolding recent_failures
first_failure = refl

first_recovery :
    (recent_matching_count "u1" 2 success (with_check "u1" (seen success 1) (with_lobby outage))
      == 2)
    ≡ false
unfolding recent_matching_count
first_recovery = refl

calm_recovery :
    let db₁ = with_check "u1" (seen success 1) (with_lobby outage) in
    ((crowd_signal "u1" (seen success 1).at db₁).anomalous ≡ false)
    × ((crowd_signal "u1" (seen success 2).at (with_check "u1" (seen success 2) db₁)).anomalous
        ≡ false)
unfolding crowd_signal
calm_recovery = (refl, refl)

two_successes_unconfirmed_example :
    let db = with_lobby outage in
    check (services one_uuid) (lobby outage) (facing idle db (seen success 1 ∷ seen success 2 ∷ []))
    ≡ facing idle (with_check "u1" (seen success 2) (with_check "u1" (seen success 1) db)) []
two_successes_unconfirmed_example =
    two_successes_unconfirmed one_uuid (lobby outage) idle (with_lobby outage) (seen success 1)
      (seen success 2) [] refl refl refl refl refl refl first_recovery calm_recovery.0
      calm_recovery.1

abbrev queued : ℕ → PendingRow
queued n = record {
  id = n;
  server_id = "u1";
  state = degraded;
  outcome = success;
  created_at = 7;
  delivered_at = none;
}

abbrev two_queued : Db
two_queued = record (with_lobby degraded) { pending = queued 2 ∷ queued 1 ∷ [] }

-- The first call of StateChanged fails: its notification stays in the queue.
dispatch_pending-online_example :
    let taken = accepted (true ∷ []) (queue two_queued) in
    dispatch_pending (services one_uuid) (online idle two_queued (true ∷ []) [])
    ≡ online idle
        (record two_queued { pending = marked idle.clock taken two_queued.pending })
        (drop (length (queue two_queued)) (true ∷ []))
        (tell taken [])
dispatch_pending-online_example = dispatch_pending-online one_uuid idle two_queued (true ∷ []) []
