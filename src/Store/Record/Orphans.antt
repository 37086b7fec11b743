-- ===== src/Store/Record/Orphans.antt =====
-- RecordCheck of postgres.go: a server in OUTAGE, an error of the probe, and a success after it.
use voxellink_monitor.Common.{
  ℕ, String, ◌≡◌, refl, ◌∙◌, true, false, ◌&&◌, arith, str_eq, ok, All, any-update_where,
}
use voxellink_monitor.Domain.{
  PublicStatus, operational, outage, maintenance, unknown, success, probe_error, CheckResult,
  Server, status_eq,
}
use voxellink_monitor.Store.Tables.{ServerRow, Db, server_exists}
use voxellink_monitor.Store.Session.{connected}
use voxellink_monitor.Store.Checks.{with_check}
use voxellink_monitor.Store.Signal.{crowd_signal}
use voxellink_monitor.Store.Record.{record_check, set_status}
use voxellink_monitor.Store.Record.Policy.{policy, recorded, settle, record_check_lem}
use voxellink_monitor.Store.Record.Refinement.{set_status-rows}

pub exists-set_status :
    (now : ℕ) (id other_id : String) (next : PublicStatus) (at : ℕ) (w : Db)
    → server_exists other_id (set_status now id next at w) ≡ server_exists other_id w
unfolding set_status
exists-set_status now id other_id next at w =
    any-update_where (λ (s : ServerRow). str_eq s.id id) (λ (s : ServerRow). str_eq s.id other_id)
      (λ (s : ServerRow). record s { status = next; status_changed_at = at; updated_at = now })
      w.servers (λ s. refl)

module _ (uuid : String) (now : ℕ) (server : Server) (r : CheckResult) (db : Db) where
  -- A verdict that is a change, neither into OUTAGE nor from OUTAGE to OPERATIONAL, only sets the status.
  only_status :
      (next : PublicStatus)
      → status_eq server.status maintenance ≡ false
      → status_eq next outage ≡ false
      → (status_eq server.status outage && status_eq next operational) ≡ false
      → policy server r (with_check server.id r db) ≡ (next, true)
      → recorded uuid now server r db
        ≡ set_status now server.id next r.at (with_check server.id r db)
  unfolding recorded settle
  only_status next active down up e = rw (e, active, down, up) refl

  policy-probe_error :
      server.status ≡ outage
      → r.outcome ≡ probe_error
      → policy server r (with_check server.id r db) ≡ (unknown, true)
  unfolding policy
  policy-probe_error down lost = ground arith

  policy-back :
      server.status ≡ unknown
      → r.outcome ≡ success
      → (crowd_signal server.id r.at (with_check server.id r db)).anomalous ≡ false
      → policy server r (with_check server.id r db) ≡ (operational, true)
  unfolding policy
  policy-back lost up calm = ground arith

-- Of a server in OUTAGE, an error of the probe and one success after it are two changes, to UNKNOWN
-- and to OPERATIONAL, if the reports are no anomaly: no second success is asked for, and every
-- incident stays as it is, that of the outage open.
pub incident_orphaned :
    (uuid : String) (now : ℕ) (server : Server) (r₁ r₂ : CheckResult) (db : Db)
    → server_exists server.id db ≡ true
    → server.status ≡ outage
    → r₁.outcome ≡ probe_error
    → r₂.outcome ≡ success
    → let lost = record server { status = unknown } in
      let db₁ = recorded uuid now server r₁ db in
      let db₂ = recorded uuid now lost r₂ db₁ in
      (crowd_signal server.id r₂.at (with_check server.id r₂ db₁)).anomalous ≡ false
      → (record_check uuid now server r₁ (connected db) ≡ (ok (true, unknown), connected db₁))
        × (record_check uuid now lost r₂ (connected db₁) ≡ (ok (true, operational), connected db₂))
        × All (λ (s : ServerRow). str_eq s.id server.id ≡ true → s.status ≡ operational) db₂.servers
        × (db₂.incidents ≡ db.incidents)
incident_orphaned uuid now server r₁ r₂ db known down failed up calm =
    let lost = record server { status = unknown } in
    let db₁ = recorded uuid now server r₁ db in
    let e₁ = policy-probe_error uuid now server r₁ db down failed in
    let e₂ = policy-back uuid now lost r₂ db₁ refl up calm in
    let s₁ = only_status uuid now server r₁ db unknown (ground arith) refl (ground arith) e₁ in
    let s₂ = only_status uuid now lost r₂ db₁ operational refl refl refl e₂ in
    let known₁ : server_exists server.id db₁ ≡ true = rw s₁ (
      exists-set_status now server.id server.id unknown r₁.at (with_check server.id r₁ db)
      ∙ known) in
    (
      record_check_lem uuid now server r₁ db known ∙ rw (e₁, down),
      record_check_lem uuid now lost r₂ db₁ known₁ ∙ rw e₂,
      rw s₂ (set_status-rows now server.id operational r₂.at (with_check server.id r₂ db₁)),
      rw (s₂, s₁) (unfold set_status in refl),
    )
