-- ===== src/Discord/Bot.antt =====
-- Bot.handleInteraction: the commands of players.
pub mod Reads
pub mod Counts
pub mod Answers
use voxellink_monitor.Common.{
  ℕ, zero, suc, ◌+◌, ◌-◌, ◌*◌, ◌/◌, ◌%◌, ◌^◌, ◌≤◌, ◌<◌, bit_and, bit_or, min, max, String, ◌≡◌,
  refl, sym, ap, ◌∙◌, subst, ◌≢◌, ◌↔◌, ◌⊎◌, inl, inr, Bool, true, false, not, ◌&&◌, ◌||◌, Option,
  none, some, List, [], ◌∷◌, ◌++◌, arith, str_eq, eq_iff, Result, ok, err, Result-cases, ℤ, pos,
  negsuc, ltb, leb, ◌==◌, if◌then◌else◌, ltb→lt, leb→le, ==_iff, Bool-cases, Option-cases, length,
  take, drop, head?, filter, any, update_where, All, length-append, length-take-le,
  length-filter-le, length-update_where, is_empty, trim_prefix, trim_space, split_on, has_char,
  str_append, join, any-update_where, drop-nil, Pointwise, take-append, drop-append,
}
use voxellink_monitor.Domain.{
  PublicStatus, operational, degraded, outage, maintenance, unknown, Outcome, success, dns_failure,
  connection_refused, connect_timeout, status_timeout, connection_reset, invalid_status_response,
  probe_error, UserReportType, connection, login, timeout, lag, other, CheckResult, Server,
  ServerMember, ImportedServer, ServerSnapshot, Incident, UserReport, CrowdSignal,
  PendingStateNotification, status_eq, outcome_eq, is_failure,
}
use voxellink_monitor.Store.Uptime.{Percentage}
use voxellink_monitor.Discord.Messages.{
  concat, Printer, snapshot_message, incidents_message, uptime_message,
}

-- `is_command`: the type is that of an application command. `member`: the id of the user of the
-- member, if there are both. An option has a name and the text of its value.
pub record Interaction : Type 0 where
  pub is_command : Bool
  pub name : String
  pub options : List (String × String)
  pub channel_id : String
  pub member : Option String

-- `silence`: nothing is sent. A message is for the user alone if it is ephemeral, or for the channel.
pub data Reply : Type 0 where
  silence : Reply
  message : (ephemeral : Bool) → (content : String) → Reply
  console_link : (url : String) → Reply

-- QueryRepository, over a state `S` and with errors `E`
pub record Queries (E S : Type 0) : Type 0 where
  pub snapshot_by_external_id : String → S → Result E ServerSnapshot × S
  pub snapshot_by_discord_channel : String → S → Result E ServerSnapshot × S
  pub uptime_24h : String → S → Result E Percentage × S
  pub recent_incidents : String → ℕ → S → Result E (List Incident) × S
  pub record_user_report : UserReport → S → Result E CrowdSignal × S

-- The last option of a name counts; without one, the text is empty.
unfoldable pub option_value : String → String → List (String × String) → String
option_value name value [] = value
option_value name value ((key, text) ∷ rest) =
    option_value name (if str_eq key name then text else value) rest

-- validReportType, with the type that it lets pass
abbrev pub valid_report_type : String → Option UserReportType
valid_report_type t =
    if str_eq t "CONNECTION"
    then some connection
    else if str_eq t "LOGIN"
    then some login
    else if str_eq t "TIMEOUT"
    then some timeout
    else if str_eq t "LAG"
    then some lag
    else if str_eq t "OTHER"
    then some other
    else none

-- monitorLink
unfoldable pub monitor_link : String → Reply
monitor_link console_url =
    if is_empty console_url
    then message true "管理画面URLが設定されていません。"
    else console_link (str_append console_url "/console")

abbrev after_query : {E A S : Type 0} → Result E A × S → (A → Reply) → String → Reply × S
after_query (ok a, s) good bad = (good a, s)
after_query (err e, s) good bad = (message true bad, s)

abbrev thanks : CrowdSignal → String
thanks signal =
    if signal.anomalous
    then str_append "報告ありがとう。匿名で集計しました。" " 同様の報告が増えているため、状態を確認中です。"
    else "報告ありがとう。匿名で集計しました。"

module _ (sha256_hex : String → String) where
  unfoldable pub discord_reporter_hash : String → String → String
  discord_reporter_hash user id = sha256_hex (concat ("discord|" ∷ user ∷ "|" ∷ id ∷ []))

  abbrev pub command_report : ℕ → String → String → UserReportType → UserReport
  command_report now user id kind = record {
    server_id = id;
    reporter_hash = discord_reporter_hash user id;
    detail = "";
    kind = kind;
    at = now;
  }

  module _ {E S : Type 0} (p : Printer) (w : Queries E S) (console_url : String) (now : ℕ) where
    abbrev file_report : String → String → Option UserReportType → S → Reply × S
    file_report user id none s = (message true "報告種別が不正です。", s)
    file_report user id (some kind) s =
        after_query (w.record_user_report (command_report now user id kind) s)
          (λ signal. message true (thanks signal)) "報告を保存できませんでした。"

    abbrev on_report : Option String → String → String → S → Reply × S
    on_report none id kind s = (message true "報告者を確認できませんでした。", s)
    on_report (some user) id kind s = file_report user id (valid_report_type kind) s

    abbrev on_command : Interaction → ServerSnapshot → S → Reply × S
    on_command i v s =
        if str_eq i.name "report"
        then on_report i.member v.server.id (option_value "type" "" i.options) s
        else if str_eq i.name "status"
        then (message false (snapshot_message p v), s)
        else if str_eq i.name "uptime"
        then after_query (w.uptime_24h v.server.id s)
            (λ uptime. message false (uptime_message p v.server.name uptime)) "稼働率を取得できませんでした。"
        else if str_eq i.name "incidents"
        then after_query (w.recent_incidents v.server.id 5 s)
            (λ incidents. message false (incidents_message p v.server.name incidents))
            "Incident履歴を取得できませんでした。"
        else (silence, s)

    abbrev on_snapshot : Interaction → Result E ServerSnapshot × S → Reply × S
    on_snapshot i (err e, s) = (message true "そのVoxelLink掲載サーバーは見つかりません。", s)
    on_snapshot i (ok v, s) = on_command i v s

    abbrev find_server : String → Interaction → S → Result E ServerSnapshot × S
    find_server id i s =
        if is_empty id
        then w.snapshot_by_discord_channel i.channel_id s
        else w.snapshot_by_external_id id s

    unfoldable pub handle_interaction : Interaction → S → Reply × S
    unfolding option_value monitor_link discord_reporter_hash snapshot_message incidents_message
        uptime_message
    handle_interaction i s =
        if not i.is_command
        then (silence, s)
        else if str_eq i.name "monitor"
        then (monitor_link console_url, s)
        else on_snapshot i (find_server (option_value "server" "" i.options) i s)
