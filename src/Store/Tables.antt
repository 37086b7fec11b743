-- ===== src/Store/Tables.antt =====
-- The tables of migrations/*.sql, each a list of rows with the newest insertion first.
use voxellink_monitor.Common.{
  ℕ, ◌*◌, ◌/◌, String, Bool, ◌&&◌, Option, List, [], str_eq, ℤ, ltb, leb, any,
}
use voxellink_monitor.Domain.{PublicStatus, Outcome, UserReportType}

pub record ServerRow : Type 0 where
  pub id : String
  pub external_source : String
  pub external_server_id : String
  pub name : String
  pub hostname : String
  pub port : ℕ
  pub transport : String
  pub status : PublicStatus
  pub enabled : Bool
  pub status_changed_at : ℕ
  pub created_at : ℕ
  pub updated_at : ℕ

pub record CheckRow : Type 0 where
  pub id : ℕ
  pub server_id : String
  pub checked_at : ℕ
  pub outcome : Outcome
  pub latency_ms : Option ℕ
  pub players_online : ℤ
  pub players_max : ℤ
  pub error_detail : Option String

pub data IncidentState : Type 0 where
  opened resolved : IncidentState

pub record IncidentRow : Type 0 where
  pub id : String
  pub server_id : String
  pub state : IncidentState
  pub reason : Outcome
  pub started_at : ℕ
  pub confirmed_at : ℕ
  pub recovery_started_at : Option ℕ
  pub resolved_at : Option ℕ

pub record MemberRow : Type 0 where
  pub server_id : String
  pub discord_user_id : String
  pub role : String
  pub source : String

pub record ChannelRow : Type 0 where
  pub server_id : String
  pub channel_id : String
  pub enabled : Bool

pub record WindowRow : Type 0 where
  pub server_id : String
  pub starts_at : ℕ
  pub ends_at : ℕ
  pub created_by : String

pub record ReportRow : Type 0 where
  pub server_id : String
  pub reported_at : ℕ
  pub reported_day : ℕ
  pub report_type : UserReportType
  pub reporter_hash : String
  pub detail : String

pub record PendingRow : Type 0 where
  pub id : ℕ
  pub server_id : String
  pub state : PublicStatus
  pub outcome : Outcome
  pub created_at : ℕ
  pub delivered_at : Option ℕ

-- A row of check_aggregates_15m or check_aggregates_hourly.
pub record AggregateRow : Type 0 where
  pub server_id : String
  pub bucket_start : ℕ
  pub checks_total : ℕ
  pub checks_successful : ℕ
  pub checks_excluded : ℕ
  pub latency_avg_ms : Option ℕ
  pub latency_max_ms : Option ℕ

-- `uptime_percent` is numeric(5,2): in hundredths of a percent.
pub record DailyRow : Type 0 where
  pub server_id : String
  pub day : ℕ
  pub checks_total : ℕ
  pub checks_successful : ℕ
  pub checks_excluded : ℕ
  pub uptime_percent : Option ℕ

pub record ReportAggregateRow : Type 0 where
  pub server_id : String
  pub bucket_start : ℕ
  pub reports_total : ℕ
  pub connection_reports : ℕ
  pub login_reports : ℕ
  pub timeout_reports : ℕ
  pub lag_reports : ℕ
  pub other_reports : ℕ

-- The serials are the next values of the bigserial columns `id`.
pub record Db : Type 0 where
  pub servers : List ServerRow
  pub checks : List CheckRow
  pub incidents : List IncidentRow
  pub members : List MemberRow
  pub channels : List ChannelRow
  pub windows : List WindowRow
  pub reports : List ReportRow
  pub pending : List PendingRow
  pub quarters : List AggregateRow
  pub hours : List AggregateRow
  pub days : List DailyRow
  pub report_quarters : List ReportAggregateRow
  pub check_serial : ℕ
  pub pending_serial : ℕ

abbrev pub empty : Db
empty = record {
  servers = [];
  checks = [];
  incidents = [];
  members = [];
  channels = [];
  windows = [];
  reports = [];
  pending = [];
  quarters = [];
  hours = [];
  days = [];
  report_quarters = [];
  check_serial = 1;
  pending_serial = 1;
}

-- Spans of time in microseconds.
abbrev pub second : ℕ
second = 1000000

abbrev pub quarter : ℕ
quarter = 900 * second

abbrev pub hour : ℕ
hour = 3600 * second

abbrev pub day : ℕ
day = 86400 * second

-- date_bin and date_trunc
abbrev pub floor_to : ℕ → ℕ → ℕ
floor_to span t = t / span * span

-- A foreign key to monitored_servers is met.
abbrev pub server_exists : String → Db → Bool
server_exists id db = any (λ (s : ServerRow). str_eq s.id id) db.servers

-- EXISTS (SELECT 1 FROM maintenance_windows ...): an instant inside a window of the server.
abbrev pub in_maintenance : Db → String → ℕ → Bool
in_maintenance db id at =
    any (λ (w : WindowRow). str_eq w.server_id id && (leb w.starts_at at && ltb at w.ends_at))
      db.windows
