-- ===== src/Discord/Messages.antt =====
-- The texts that the notifier and the bot send.
use voxellink_monitor.Common.{
  ℕ, ◌/◌, String, Option, none, some, List, [], ◌∷◌, ltb, if◌then◌else◌, str_append, join,
}
use voxellink_monitor.Domain.{
  PublicStatus, operational, degraded, outage, maintenance, unknown, Outcome, success, dns_failure,
  connection_refused, connect_timeout, status_timeout, connection_reset, invalid_status_response,
  probe_error, Server, ServerSnapshot, Incident,
}
use voxellink_monitor.Store.Uptime.{Percentage}

abbrev pub concat : List String → String
concat [] = ""
concat (s ∷ rest) = str_append s (concat rest)

-- string(status)
abbrev pub status_text : PublicStatus → String
status_text operational = "OPERATIONAL"
status_text degraded = "DEGRADED"
status_text outage = "OUTAGE"
status_text maintenance = "MAINTENANCE"
status_text unknown = "UNKNOWN"

-- string(outcome)
abbrev pub outcome_text : Outcome → String
outcome_text success = "SUCCESS"
outcome_text dns_failure = "DNS_FAILURE"
outcome_text connection_refused = "CONNECTION_REFUSED"
outcome_text connect_timeout = "CONNECT_TIMEOUT"
outcome_text status_timeout = "STATUS_TIMEOUT"
outcome_text connection_reset = "CONNECTION_RESET"
outcome_text invalid_status_response = "INVALID_STATUS_RESPONSE"
outcome_text probe_error = "PROBE_ERROR"

-- statusMessage; the outcome of the check is not told.
unfoldable pub status_message : Server → PublicStatus → String
status_message server outage =
    concat
      ("🔴 **" ∷ server.name ∷ "** に現在接続できません\nVoxelLink Monitorが正常なMinecraft応答を確認できていません。" ∷ [])
status_message server operational = concat ("🟢 **" ∷ server.name ∷ "** が復旧しました\n現在は正常に接続できます。" ∷ [])
status_message server unknown =
    concat ("⚪ **" ∷ server.name ∷ "** の状態を確認できません\nMonitor側の問題の可能性があり、サーバー障害とは判定していません。" ∷ [])
status_message server maintenance = concat ("🔵 **" ∷ server.name ∷ "** はメンテナンス中です。" ∷ [])
status_message server degraded = concat ("🟡 **" ∷ server.name ∷ "** は正常応答していますが、状態を確認してください。" ∷ [])

abbrev pub icon : PublicStatus → String
icon operational = "🟢"
icon degraded = "🟡"
icon outage = "🔴"
icon maintenance = "🔵"
icon unknown = "⚪"

-- How fmt prints: a number in decimal digits, an instant to the minute, two decimals of a percentage.
pub record Printer : Type 0 where
  pub number : ℕ → String
  pub minute : Option ℕ → String
  pub percent : Percentage → String

module _ (p : Printer) where
  abbrev checked_part : ServerSnapshot → List String
  checked_part v = elim v.last_outcome [
    | none ↦ []
    | some outcome ↦
        concat (
          "最終確認: "
          ∷ p.minute v.last_checked_at
          ∷ (if ltb 0 v.latency
              then concat (" / " ∷ p.number (v.latency / 1000000) ∷ " ms" ∷ [])
              else "")
          ∷ [])
        ∷ []
  ]

  -- snapshotMessage
  unfoldable pub snapshot_message : ServerSnapshot → String
  snapshot_message v = join "\n" (
      concat (icon v.server.status ∷ " **" ∷ v.server.name ∷ "**" ∷ [])
      ∷ status_text v.server.status
      ∷ checked_part v)

  abbrev label : Option ℕ → String
  label none = "継続中"
  label (some t) = "解決済み"

  abbrev incident_line : Incident → String
  incident_line i = concat (
      "- "
      ∷ p.minute (some i.started_at)
      ∷ " — "
      ∷ label i.resolved_at
      ∷ "（"
      ∷ outcome_text i.reason
      ∷ "）"
      ∷ [])

  abbrev pub incident_lines : List Incident → List String
  incident_lines [] = []
  incident_lines (i ∷ rest) = incident_line i ∷ incident_lines rest

  -- incidentsMessage
  unfoldable pub incidents_message : String → List Incident → String
  incidents_message name [] = concat ("**" ∷ name ∷ "**\n最近のIncidentはありません。" ∷ [])
  incidents_message name (i ∷ rest) =
      join "\n" (concat ("**" ∷ name ∷ "** の最近のIncident" ∷ []) ∷ incident_lines (i ∷ rest))

  unfoldable pub uptime_message : String → Percentage → String
  uptime_message name uptime =
      concat ("**" ∷ name ∷ "**\n直近24時間の稼働率: **" ∷ p.percent uptime ∷ "%**" ∷ [])
