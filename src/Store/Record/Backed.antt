-- ===== src/Store/Record/Backed.antt =====
-- RecordCheck between its statements: servers in OUTAGE and their incidents.
use voxellink_monitor.Common.{
  ℕ, String, ◌≡◌, refl, inl, inr, Bool, true, false, ◌&&◌, ◌||◌, arith, Bool-cases,
}
use voxellink_monitor.Domain.{
  PublicStatus, operational, outage, maintenance, CheckResult, Server, status_eq,
}
use voxellink_monitor.Store.Tables.{Db}
use voxellink_monitor.Store.Session.{Session, Tx, statement, change, ◌>>=◌, when, next_fault}
use voxellink_monitor.Store.Session.Triples.{
  Triple, Gives, Over, pure-Triple, statement-Triple, change-Triple, bind-Triple, commit-Triple,
  when-Triple, if-Triple, begun_with, reads_rules,
}
use voxellink_monitor.Store.Checks.{insert_check, earliest_recent_failure}
use voxellink_monitor.Store.Record.{
  state_after, with_crowd, set_status, open_incident, resolve_incident, recovery_start,
  write_change, record_check,
}
use voxellink_monitor.Store.Record.Changes.{
  Before, Opening, Closing, set_status-Opening, set_status-Closing, open_incident-IsShown,
  Closing-IsShown, resolve_incident-IsShown,
}
use voxellink_monitor.Store.Record.Shown.{IsShown, IsFresh}

module _ {I P : Db → Type 0} where
  earliest-Triple : (id : String) → Triple I P (λ _. P) (statement (earliest_recent_failure id))
  unfolding earliest_recent_failure
  earliest-Triple id = statement-Triple _ (λ db p. ground arith)

  recovery_start-Triple :
      (fallback : ℕ) (id : String) → Triple I P (λ _. P) (recovery_start fallback id)
  unfolding recovery_start statement
  recovery_start-Triple fallback id = record {
    at = λ s i p. elim (Bool-cases (s.aborted || next_fault s.faults)) [
      | inl e ↦ rw e (i, p)
      | inr e ↦ rw e (i, p)
    ];
  }

  state_after-Triple :
      (server : Server) (r : CheckResult) → Triple I P (λ _. P) (state_after server r)
  unfolding state_after
  state_after-Triple server r = search reads_rules

  with_crowd-Triple :
      (server : Server) (r : CheckResult) (v : PublicStatus × Bool)
      → Triple I P (λ _. P) (with_crowd server r v)
  unfolding with_crowd
  with_crowd-Triple server r (next, changed) = search reads_rules

module _ (uuid : String) (now : ℕ) (server : Server) (r : CheckResult) where
  abbrev open_one : Tx (Unit {0})
  open_one = statement (earliest_recent_failure server.id) >>= λ started_at.
      statement (change (open_incident uuid server.id r.outcome started_at r.at))

  abbrev close_one : Tx (Unit {0})
  close_one = recovery_start r.at server.id >>= λ recovery.
      statement (change (resolve_incident server.id recovery r.at))

  open_one-Triple : Triple IsShown (Opening uuid server.id) (λ _. IsShown) open_one
  open_one-Triple =
      bind-Triple (λ _. Opening uuid server.id) (statement (earliest_recent_failure server.id))
        (λ t. statement (change (open_incident uuid server.id r.outcome t r.at)))
        (earliest-Triple server.id)
        (λ t.
          change-Triple (open_incident uuid server.id r.outcome t r.at)
            (open_incident-IsShown uuid server.id r.outcome t r.at))

  close_one-Triple : Triple IsShown (Closing server.id) (λ _. IsShown) close_one
  close_one-Triple =
      bind-Triple (λ _. Closing server.id) (recovery_start r.at server.id)
        (λ recovery. statement (change (resolve_incident server.id recovery r.at)))
        (recovery_start-Triple r.at server.id)
        (λ recovery.
          change-Triple (resolve_incident server.id recovery r.at)
            (resolve_incident-IsShown server.id recovery r.at))

  module _ (next : PublicStatus) where
    abbrev opens : Bool
    opens = status_eq next outage

    abbrev closes : Bool
    closes = status_eq server.status outage && status_eq next operational

    -- What follows the change of the row.
    abbrev incidents_after : Tx (Unit {0})
    incidents_after = when opens open_one >>= λ _. when closes close_one

    after-Opening :
        opens ≡ true → Triple IsShown (Opening uuid server.id) (λ _. IsShown) incidents_after
    after-Opening e =
        bind-Triple (λ _. IsShown) (when opens open_one) (λ _. when closes close_one)
          (when-Triple opens open_one (λ _. open_one-Triple) (λ f. absurd (ground arith)))
          (λ _. when-Triple closes close_one (λ f. absurd (ground arith)) (λ _ w h. h))

    after-Closing :
        opens ≡ false → Triple IsShown (Closing server.id) (λ _. IsShown) incidents_after
    after-Closing e =
        bind-Triple (λ _. Closing server.id) (when opens open_one) (λ _. when closes close_one)
          (when-Triple opens open_one (λ f. absurd (ground arith)) (λ _ w h. h))
          (λ _.
            when-Triple closes close_one (λ _. close_one-Triple) (λ _. Closing-IsShown server.id))

    write_other-Triple :
        opens ≡ false
        → Triple IsShown (Before uuid) (λ _. IsShown) (write_change uuid now server r next)
    unfolding write_change
    write_other-Triple e =
        bind-Triple (λ _. Closing server.id)
          (statement (change (set_status now server.id next r.at))) (λ _. incidents_after)
          (change-Triple (set_status now server.id next r.at)
            (λ w h. set_status-Closing now server.id next r.at w e h.0))
          (λ _. after-Closing e)

  write_outage-Triple :
      Triple IsShown (Before uuid) (λ _. IsShown) (write_change uuid now server r outage)
  unfolding write_change
  write_outage-Triple =
      bind-Triple (λ _. Opening uuid server.id)
        (statement (change (set_status now server.id outage r.at))) (λ _. incidents_after outage)
        (change-Triple (set_status now server.id outage r.at)
          (set_status-Opening uuid now server.id r.at))
        (λ _. after-Opening outage refl)

  write_change-Triple :
      (next : PublicStatus)
      → Triple IsShown (Before uuid) (λ _. IsShown) (write_change uuid now server r next)
  write_change-Triple outage = write_outage-Triple
  write_change-Triple next = write_other-Triple next refl

  insert_check-Before :
      (w : Db) → Before uuid w → Gives (λ _. Before uuid) (insert_check server.id r w)
  unfolding insert_check
  insert_check-Before w h = ground arith

  -- Whichever calls fail, RecordCheck keeps an incident open for each server that is in OUTAGE.
  pub record_check-IsShown :
      (s : Session)
      → IsFresh uuid s.stored
      → IsShown s.stored
      → IsShown (record_check uuid now server r s).1.stored
  unfolding record_check
  record_check-IsShown s f h =
      begun_with (Before uuid) _
        (bind-Triple (λ _. Before uuid) _ _ (statement-Triple _ insert_check-Before)
          (λ _.
            if-Triple (status_eq server.status maintenance) _ _
              (λ _.
                bind-Triple Over _ _ (commit-Triple (λ _ k. k.0)) (λ _. pure-Triple _ (λ _ _. tt)))
              (λ _.
                bind-Triple (λ _. Before uuid) _ _ (state_after-Triple server r)
                  (λ v.
                    bind-Triple (λ _. Before uuid) _ _ (with_crowd-Triple server r v)
                      (λ (status, changed).
                        bind-Triple (λ _. IsShown) _ _
                          (when-Triple changed _ (λ _. write_change-Triple status) (λ _ w k. k.0))
                          (λ _.
                            bind-Triple Over _ _ (commit-Triple (λ _ k. k))
                              (λ _. pure-Triple _ (λ _ _. tt))))))))
        s h (h, f)
