-- ===== src/Incident/Confirmation.antt =====
-- The confirmation policy.
use voxellink_monitor.Common.{◌≡◌, not, arith}
use voxellink_monitor.Domain.{Outcome, status_eq}
use voxellink_monitor.Incident.{Machine, apply}

-- `Apply` reports a change exactly when the state it returns differs from the state before.
pub apply-changed :
    (m : Machine) (o : Outcome)
    → ((apply m o).1 ≡ (apply m o).0.state)
      × ((apply m o).2 ≡ not (status_eq m.state (apply m o).0.state))
unfolding apply
apply-changed m o = ground arith
