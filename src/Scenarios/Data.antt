-- ===== src/Scenarios/Data.antt =====
-- A server, its row, and the observations that the scenarios share.
use voxellink_monitor.Common.{ℕ, ◌+◌, ◌*◌, String, true, false, [], ◌∷◌, pos}
use voxellink_monitor.Domain.{
  PublicStatus, operational, Outcome, timeout, CheckResult, Server, UserReport,
}
use voxellink_monitor.Store.Tables.{ServerRow, ReportRow, Db, empty, second, day}
use voxellink_monitor.Store.Session.{connected}
use voxellink_monitor.Worker.World.{World}

abbrev pub lobby_row : PublicStatus → ServerRow
lobby_row status = record {
  id = "u1";
  external_source = "voxellink";
  external_server_id = "lobby";
  name = "Lobby";
  hostname = "play.example";
  port = 25565;
  transport = "DIRECT";
  status = status;
  enabled = true;
  status_changed_at = 0;
  created_at = 0;
  updated_at = 0;
}

abbrev pub lobby : PublicStatus → Server
lobby status = record {
  id = "u1";
  name = "Lobby";
  hostname = "play.example";
  port = 25565;
  status = status;
  transport = "DIRECT";
  enabled = true;
}

-- An observation `n` minutes after a day began.
abbrev pub seen : Outcome → ℕ → CheckResult
seen outcome n = record {
  outcome = outcome;
  latency = 23000000;
  players_online = pos 2;
  players_max = pos 20;
  detail = "";
  at = 30 * day + n * 60 * second;
}

abbrev pub with_lobby : PublicStatus → Db
with_lobby status = record empty { servers = lobby_row status ∷ [] }

abbrev report_of : String → ReportRow
report_of hash = record {
  server_id = "u1";
  reported_at = 30 * day;
  reported_day = 30;
  report_type = timeout;
  reporter_hash = hash;
  detail = "";
}

-- Three players have reported trouble in the running quarter of an hour.
abbrev pub troubled : PublicStatus → Db
troubled status = record (with_lobby status) {
  reports = report_of "a" ∷ report_of "b" ∷ report_of "c" ∷ [];
}

abbrev pub report_by : String → UserReport
report_by hash = record {
  server_id = "u1";
  reporter_hash = hash;
  detail = "cannot join";
  kind = timeout;
  at = 30 * day + second;
}

abbrev pub idle : World
idle = record {
  session = connected (with_lobby operational);
  answers = [];
  notices = [];
  refusals = [];
  cancelled = false;
  clock = 30 * day;
}

abbrev pub one_uuid : World → String
one_uuid s = "i1"
