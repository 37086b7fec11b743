-- ===== src/Domain.antt =====
-- internal/domain/types.go: the values that the components exchange.
-- Instants are microseconds since 2000-01-01 00:00 UTC, the origin that the SQL bins by.
use voxellink_monitor.Common.{ℕ, ℤ, String, Bool, true, false, List, Option}

pub data PublicStatus : Type 0 where
  operational degraded outage maintenance unknown : PublicStatus

pub data Outcome : Type 0 where
  success dns_failure connection_refused connect_timeout : Outcome
  status_timeout connection_reset invalid_status_response probe_error : Outcome

pub data UserReportType : Type 0 where
  connection login timeout lag other : UserReportType

-- `latency` is in nanoseconds, as a Go duration.
pub record CheckResult : Type 0 where
  pub outcome : Outcome
  pub latency : ℕ
  pub players_online : ℤ
  pub players_max : ℤ
  pub detail : String
  pub at : ℕ

pub record Server : Type 0 where
  pub id : String
  pub name : String
  pub hostname : String
  pub port : ℕ
  pub status : PublicStatus
  pub transport : String
  pub enabled : Bool

pub record ServerMember : Type 0 where
  pub discord_user_id : String
  pub role : String

pub record ImportedServer : Type 0 where
  pub external_id : String
  pub name : String
  pub hostname : String
  pub port : ℕ
  pub transport : String
  pub members : List ServerMember

pub record ServerSnapshot : Type 0 where
  pub server : Server
  pub last_checked_at : Option ℕ
  pub last_outcome : Option Outcome
  pub latency : ℕ

pub record Incident : Type 0 where
  pub id : String
  pub server_id : String
  pub is_open : Bool
  pub reason : Outcome
  pub started_at : ℕ
  pub confirmed_at : ℕ
  pub resolved_at : Option ℕ

pub record UserReport : Type 0 where
  pub server_id : String
  pub reporter_hash : String
  pub detail : String
  pub kind : UserReportType
  pub at : ℕ

pub record CrowdSignal : Type 0 where
  pub reports : ℕ
  pub baseline : ℕ
  pub threshold : ℕ
  pub anomalous : Bool

pub record PendingStateNotification : Type 0 where
  pub id : ℕ
  pub server : Server
  pub state : PublicStatus
  pub result : CheckResult

-- `==` on the two string types.
abbrev pub status_eq : PublicStatus → PublicStatus → Bool
status_eq operational operational = true
status_eq degraded degraded = true
status_eq outage outage = true
status_eq maintenance maintenance = true
status_eq unknown unknown = true
status_eq _ _ = false

abbrev pub outcome_eq : Outcome → Outcome → Bool
outcome_eq success success = true
outcome_eq dns_failure dns_failure = true
outcome_eq connection_refused connection_refused = true
outcome_eq connect_timeout connect_timeout = true
outcome_eq status_timeout status_timeout = true
outcome_eq connection_reset connection_reset = true
outcome_eq invalid_status_response invalid_status_response = true
outcome_eq probe_error probe_error = true
outcome_eq _ _ = false

-- `outcome NOT IN ('SUCCESS', 'PROBE_ERROR')`: the player's side failed.
abbrev pub is_failure : Outcome → Bool
is_failure success = false
is_failure probe_error = false
is_failure _ = true
