-- ===== src/Scenarios/Outages.antt =====
-- Outages across the passes of the worker.
use voxellink_monitor.Common.{ℕ, zero, suc, ◌≡◌, refl, true, false, [], ◌∷◌, str_eq, ok, ◌==◌, All}
use voxellink_monitor.Domain.{operational, unknown, outage, success, status_timeout, probe_error}
use voxellink_monitor.Store.Tables.{Db, ServerRow}
use voxellink_monitor.Store.Session.{connected}
use voxellink_monitor.Store.Checks.{recent_failures, with_check}
use voxellink_monitor.Store.Checks.Order.{IsNewest}
use voxellink_monitor.Store.Signal.{crowd_signal}
use voxellink_monitor.Store.Record.{set_status, record_check}
use voxellink_monitor.Store.Record.Policy.{policy, recorded, settle}
use voxellink_monitor.Store.Record.Orphans.{incident_orphaned}
use voxellink_monitor.Worker.{check}
use voxellink_monitor.Worker.World.{services}
use voxellink_monitor.Worker.Confirm.{facing}
use voxellink_monitor.Worker.Outage.{ShowsOutage, outage_notice, outage_by_second_pass}
use voxellink_monitor.Scenarios.Data.{lobby, seen, with_lobby, idle, one_uuid}

abbrev after_failures : ℕ → Db
after_failures zero = with_lobby operational
after_failures (suc n) = with_check "u1" (seen status_timeout (suc n)) (after_failures n)

one_failure : (recent_failures "u1" 3 (after_failures 1) == 3) ≡ false
unfolding recent_failures
one_failure = refl

second-IsNewest : IsNewest "u1" (seen status_timeout 2) (after_failures 1)
second-IsNewest = (refl, tt)

third-IsNewest : IsNewest "u1" (seen status_timeout 3) (after_failures 2)
third-IsNewest = (refl, (refl, tt))

fourth-IsNewest : IsNewest "u1" (seen status_timeout 4) (after_failures 3)
fourth-IsNewest = (refl, (refl, (refl, tt)))

outage_by_second_pass_example :
    let down = λ (n : ℕ). seen status_timeout n in
    let s =
      facing idle
        (with_lobby operational)
        (down 1 ∷ down 2 ∷ down 3 ∷ down 4 ∷ down 5 ∷ down 6 ∷ []) in
    let first = check (services one_uuid) (lobby operational) s in
    let second = check (services one_uuid) (lobby operational) first in
    (first.notices ≡ [])
    × (second.notices ≡ outage_notice one_uuid (lobby operational) idle (down 4) ∷ [])
    × ShowsOutage (lobby operational) (down 4) (with_lobby operational) second.session.stored
outage_by_second_pass_example =
    outage_by_second_pass one_uuid (lobby operational) idle (with_lobby operational)
      (seen status_timeout 1) (seen status_timeout 2) (seen status_timeout 3)
      (seen status_timeout 4) (seen status_timeout 5) (seen status_timeout 6) [] refl refl refl refl
      refl refl (refl, (refl, (refl, (refl, (refl, (refl, tt)))))) one_failure second-IsNewest
      third-IsNewest fourth-IsNewest

calm_return :
    let db₁ = recorded "i1" 5 (lobby outage) (seen probe_error 1) (with_lobby outage) in
    (crowd_signal "u1" (seen success 2).at (with_check "u1" (seen success 2) db₁)).anomalous ≡ false
unfolding crowd_signal policy recorded settle set_status
calm_return = refl

incident_orphaned_example :
    let lost = record (lobby outage) { status = unknown } in
    let db = with_lobby outage in
    let db₁ = recorded "i1" 5 (lobby outage) (seen probe_error 1) db in
    let db₂ = recorded "i1" 5 lost (seen success 2) db₁ in
    (record_check "i1" 5 (lobby outage) (seen probe_error 1) (connected db)
      ≡ (ok (true, unknown), connected db₁))
    × (record_check "i1" 5 lost (seen success 2) (connected db₁)
        ≡ (ok (true, operational), connected db₂))
    × All (λ (s : ServerRow). str_eq s.id "u1" ≡ true → s.status ≡ operational) db₂.servers
    × (db₂.incidents ≡ db.incidents)
incident_orphaned_example =
    incident_orphaned "i1" 5 (lobby outage) (seen probe_error 1) (seen success 2)
      (with_lobby outage) refl refl refl refl calm_return
