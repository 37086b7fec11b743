-- ===== src/Scenarios/Recoveries.antt =====
-- A recovery across two passes of the worker.
use voxellink_monitor.Common.{ℕ, zero, suc, ◌*◌, none, [], ◌∷◌}
use voxellink_monitor.Domain.{outage, success, status_timeout}
use voxellink_monitor.Store.Tables.{Db, IncidentRow, opened, day}
use voxellink_monitor.Store.Checks.{with_check}
use voxellink_monitor.Scenarios.Data.{seen, with_lobby}

abbrev open_since : IncidentRow
open_since = record {
  id = "i1";
  server_id = "u1";
  state = opened;
  reason = status_timeout;
  started_at = 29 * day;
  confirmed_at = 29 * day;
  recovery_started_at = none;
  resolved_at = none;
}

abbrev broken : Db
broken = record (with_lobby outage) { incidents = open_since ∷ [] }

abbrev after_successes : ℕ → Db
after_successes zero = broken
after_successes (suc n) = with_check "u1" (seen success (suc n)) (after_successes n)
