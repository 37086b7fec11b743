-- ===== src/Store/Record/Incidents.antt =====
-- When RecordCheck opens an incident and when it closes one.
use voxellink_monitor.Common.{ℕ, String, ◌≡◌, refl, ◌∙◌, true, false, arith, str_eq, ok, All}
use voxellink_monitor.Domain.{degraded, outage, success, CheckResult, Server, status_eq, is_failure}
use voxellink_monitor.Store.Tables.{ServerRow, Db, server_exists}
use voxellink_monitor.Store.Session.{connected}
use voxellink_monitor.Store.Checks.{with_check}
use voxellink_monitor.Store.Signal.{crowd_signal}
use voxellink_monitor.Store.Record.{record_check, set_status, open_incident, resolve_incident}
use voxellink_monitor.Store.Record.Policy.{policy, recorded, settle, record_check_lem}
use voxellink_monitor.Store.Record.Refinement.{set_status-rows}

policy-anomaly :
    (server : Server) (r : CheckResult) (w : Db)
    → server.status ≡ outage
    → r.outcome ≡ success
    → (crowd_signal server.id r.at w).anomalous ≡ true
    → policy server r w ≡ (degraded, true)
unfolding policy
policy-anomaly server r w down up anomaly = ground arith

settled_degraded :
    (uuid : String) (now : ℕ) (server : Server) (r : CheckResult) (db : Db)
    → server.status ≡ outage
    → policy server r (with_check server.id r db) ≡ (degraded, true)
    → recorded uuid now server r db
      ≡ set_status now server.id degraded r.at (with_check server.id r db)
unfolding recorded settle
settled_degraded uuid now server r db down e = rw e (ground arith)

-- Of a server in OUTAGE, one success under an anomalous count of reports is enough: RecordCheck
-- reports DEGRADED as a change and writes it to the server's rows, and leaves every incident as it
-- is, so the incident of the outage stays open.
pub crowd_ends_outage :
    (uuid : String) (now : ℕ) (server : Server) (r : CheckResult) (db : Db)
    → server_exists server.id db ≡ true
    → server.status ≡ outage
    → r.outcome ≡ success
    → (crowd_signal server.id r.at (with_check server.id r db)).anomalous ≡ true
    → let final = recorded uuid now server r db in
      (record_check uuid now server r (connected db) ≡ (ok (true, degraded), connected final))
      × All (λ (s : ServerRow). str_eq s.id server.id ≡ true → s.status ≡ degraded) final.servers
      × (final.incidents ≡ db.incidents)
crowd_ends_outage uuid now server r db known down up anomaly =
    let e = policy-anomaly server r (with_check server.id r db) down up anomaly in
    let settled = settled_degraded uuid now server r db down e in
    (
      record_check_lem uuid now server r db known ∙ rw (e, down),
      rw settled (set_status-rows now server.id degraded r.at (with_check server.id r db)),
      rw settled (unfold set_status in refl),
    )

-- Incidents change only with a change of the status that begins or ends in OUTAGE.
pub incidents_unchanged :
    (uuid : String) (now : ℕ) (server : Server) (r : CheckResult) (db : Db)
    → status_eq server.status outage ≡ false
    → is_failure r.outcome ≡ false
    → (recorded uuid now server r db).incidents ≡ db.incidents
unfolding recorded settle set_status resolve_incident open_incident policy
incidents_unchanged uuid now server r db calm fine = ground arith
