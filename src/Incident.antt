-- ===== src/Incident.antt =====
-- internal/incident/machine.go: the state machine of one server, fed with observations.
pub mod Confirmation
use voxellink_monitor.Common.{ℕ, ◌+◌, Bool, true, false, not, ◌&&◌, ltb, leb, if◌then◌else◌}
use voxellink_monitor.Domain.{
  PublicStatus, operational, outage, unknown, Outcome, success, probe_error, CheckResult, status_eq,
  outcome_eq,
}

pub record Machine : Type 0 where
  pub failures : ℕ
  pub successes : ℕ
  pub state : PublicStatus

unfoldable pub new : PublicStatus → Machine
new state = record { failures = 0; successes = 0; state = state }

on_probe_error : Machine → Machine × PublicStatus × Bool
on_probe_error m =
    let changed = not (status_eq m.state unknown) in
    (record m { state = unknown; failures = 0; successes = 0 }, unknown, changed)

on_success : Machine → Machine × PublicStatus × Bool
on_success m =
    if status_eq m.state outage
    then (if ltb (m.successes + 1) 2
        then (record m { failures = 0; successes = m.successes + 1 }, m.state, false)
        else (record m { failures = 0; successes = 0; state = operational }, operational, true))
    else if not (status_eq m.state operational)
    then (record m { failures = 0; successes = 0; state = operational }, operational, true)
    else (record m { failures = 0; successes = 0 }, m.state, false)

on_failure : Machine → Machine × PublicStatus × Bool
on_failure m =
    if leb 3 (m.failures + 1) && not (status_eq m.state outage)
    then (record m { failures = m.failures + 1; successes = 0; state = outage }, outage, true)
    else (record m { failures = m.failures + 1; successes = 0 }, m.state, false)

-- The machine after one observation, its state, and whether that changed.
unfoldable pub apply : Machine → Outcome → Machine × PublicStatus × Bool
unfolding on_probe_error on_success on_failure
apply m outcome =
    if outcome_eq outcome probe_error
    then on_probe_error m
    else if outcome_eq outcome success
    then on_success m
    else on_failure m
