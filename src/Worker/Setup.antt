-- ===== src/Worker/Setup.antt =====
-- NewWorker, NoopNotifier and sleep of worker.go.
use voxellink_monitor.Common.{Bool, true, false, Option, none, some, Result, ok, ℤ}
use voxellink_monitor.Domain.{PublicStatus, CheckResult, Server}
use voxellink_monitor.Transport.{AccessTunnel, new_access_tunnel}

-- What a worker is made of: its durations in nanoseconds, `N` its notifier, `Y` its synchronizer.
pub record Parts (N Y : Type 0) : Type 0 where
  pub interval : ℤ
  pub timeout : ℤ
  pub retry_interval : ℤ
  pub notifier : Option N
  pub tunnel : AccessTunnel
  pub synchronizer : Option Y

-- Without a notifier the worker has NoopNotifier, which stays `none` here.
unfoldable pub new_worker :
    {N Y : Type 0} → ℤ → ℤ → ℤ → Option N → Option AccessTunnel → Option Y → Parts N Y
unfolding new_access_tunnel
new_worker interval limit retry_interval notifier tunnel synchronizer = record {
  interval = interval;
  timeout = limit;
  retry_interval = retry_interval;
  notifier = notifier;
  tunnel = elim tunnel [ none ↦ new_access_tunnel "" limit | some t ↦ t ];
  synchronizer = synchronizer;
}

-- StateChanged of the notifier that a worker has, given that of its kind.
unfoldable pub state_changed :
    {E S N : Type 0}
    → (N → Server → PublicStatus → CheckResult → S → Result E (Unit {0}) × S)
    → Option N
    → Server
    → PublicStatus
    → CheckResult
    → S
    → Result E (Unit {0}) × S
state_changed tell none server state result s = (ok tt, s)
state_changed tell (some n) server state result s = tell n server state result s

-- The case of the select in `sleep` that is taken.
pub data Woken : Type 0 where
  done fired : Woken

unfoldable pub sleep : Woken → Bool
sleep done = false
sleep fired = true
