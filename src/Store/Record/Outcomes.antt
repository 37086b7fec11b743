-- ===== src/Store/Record/Outcomes.antt =====
-- What RecordCheck commits: all of an observation or nothing, and on which evidence it changes the
-- public status.
use voxellink_monitor.Common.{ℕ, String, Bool, arith}
use voxellink_monitor.Domain.{PublicStatus, CheckResult, Server}
use voxellink_monitor.Store.Session.Atomic.{IsQuiet, IsAtomic, atomic_rules}
use voxellink_monitor.Store.Record.{
  state_after, with_crowd, recovery_start, write_change, record_check,
}

state_after-IsQuiet : (server : Server) (result : CheckResult) → IsQuiet (state_after server result)
unfolding state_after
state_after-IsQuiet server result = search atomic_rules

with_crowd-IsQuiet :
    (server : Server) (result : CheckResult) (next : PublicStatus × Bool)
    → IsQuiet (with_crowd server result next)
unfolding with_crowd
with_crowd-IsQuiet server result (next, changed) = search atomic_rules

recovery_start-IsQuiet : (fallback : ℕ) (id : String) → IsQuiet (recovery_start fallback id)
unfolding recovery_start
recovery_start-IsQuiet fallback id = record { at = λ s. ground arith }

write_change-IsQuiet :
    (uuid : String) (now : ℕ) (server : Server) (result : CheckResult) (next : PublicStatus)
    → IsQuiet (write_change uuid now server result next)
unfolding write_change
write_change-IsQuiet uuid now server result next = search (atomic_rules, recovery_start-IsQuiet)

-- If RecordCheck returns an error, whichever call failed, the committed database is as it was.
pub record_check-IsAtomic :
    (uuid : String) (now : ℕ) (server : Server) (result : CheckResult)
    → IsAtomic (record_check uuid now server result)
unfolding record_check
record_check-IsAtomic uuid now server result =
    search (atomic_rules, state_after-IsQuiet, with_crowd-IsQuiet, write_change-IsQuiet) depth 12
