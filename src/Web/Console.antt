-- ===== src/Web/Console.antt =====
-- The status page, the console and the import endpoint: home, console, updateServer, importServer and
-- bearerMatches of app.go.
pub mod Guards
use voxellink_monitor.Common.{
  ℕ, zero, suc, ◌+◌, ◌-◌, ◌*◌, ◌/◌, ◌%◌, ◌^◌, ◌≤◌, ◌<◌, bit_and, bit_or, min, max, String, ◌≡◌,
  refl, sym, ap, ◌∙◌, subst, ◌≢◌, ◌↔◌, ◌⊎◌, inl, inr, Bool, true, false, not, ◌&&◌, ◌||◌, Option,
  none, some, List, [], ◌∷◌, ◌++◌, arith, str_eq, eq_iff, Result, ok, err, Result-cases, ℤ, pos,
  negsuc, ltb, leb, ◌==◌, if◌then◌else◌, ltb→lt, leb→le, ==_iff, Bool-cases, Option-cases, length,
  take, drop, head?, filter, any, update_where, All, length-append, length-take-le,
  length-filter-le, length-update_where, is_empty, trim_prefix, trim_space, split_on, has_char,
  str_append, join, any-update_where, drop-nil, Pointwise, take-append, drop-append,
}
use voxellink_monitor.Domain.{
  PublicStatus, operational, degraded, outage, maintenance, unknown, Outcome, success, dns_failure,
  connection_refused, connect_timeout, status_timeout, connection_reset, invalid_status_response,
  probe_error, UserReportType, connection, login, timeout, lag, other, CheckResult, Server,
  ServerMember, ImportedServer, ServerSnapshot, Incident, UserReport, CrowdSignal,
  PendingStateNotification, status_eq, outcome_eq, is_failure,
}
use Prim.Native.String.{len}
use voxellink_monitor.Store.Uptime.{Percentage}
use voxellink_monitor.Web.Request.{
  Request, Config, ConsoleServer, Response, not_found, nothing, failure, redirect, home_page,
  console_page, created, Repository, on_result,
}

-- strings.TrimPrefix and hmac.Equal
unfoldable pub bearer_matches : String → String → Bool
unfolding trim_prefix
bearer_matches authorization token =
    let value = trim_prefix "Bearer " authorization in len value == len token && str_eq value token

module _ {E S : Type 0} (w : Repository E S) where
  -- The loop of `home`.
  unfoldable pub with_signals :
      List ServerSnapshot → List (ServerSnapshot × CrowdSignal) → S → Response × S
  with_signals [] shown s = (home_page shown, s)
  with_signals (v ∷ rest) shown s =
      on_result (w.crowd_signal v.server.id s)
        (λ signal s'. with_signals rest (shown ++ (v, signal) ∷ []) s')
        (λ e s'. (failure 500 "could not load crowd signal", s'))

  unfoldable pub home : Request → S → Response × S
  unfolding with_signals
  home r s =
      if not (str_eq r.path "/")
      then (not_found, s)
      else on_result (w.public_snapshots s) (λ servers s'. with_signals servers [] s')
          (λ e s'. (failure 500 "could not load status", s'))

  -- The loop of `console`.
  with_details : List Server → List ConsoleServer → S → Response × S
  with_details [] shown s = (console_page shown, s)
  with_details (v ∷ rest) shown s =
      on_result (w.snapshot_by_id v.id s)
        (λ snapshot s₁.
          on_result (w.uptime_24h v.id s₁)
            (λ uptime s₂.
              on_result (w.recent_incidents v.id 3 s₂)
                (λ incidents s₃.
                  with_details rest
                    (shown
                      ++ (record {
                        snapshot = snapshot;
                        uptime_24h = uptime;
                        incidents = incidents;
                      })
                        ∷ [])
                    s₃)
                (λ e s'. (failure 500 "could not load incidents", s')))
            (λ e s'. (failure 500 "could not load uptime", s')))
        (λ e s'. (failure 500 "could not load server details", s'))

  -- `user` is the user of the session, if there is one.
  unfoldable pub console : Option String → S → Response × S
  unfolding with_details
  console none s = (redirect 302 "/login", s)
  console (some user) s =
      on_result (w.servers_for_discord_member user s) (λ servers s'. with_details servers [] s')
        (λ e s'. (failure 500 "could not load servers", s'))

  -- What follows the call that saves a setting.
  abbrev saved : Result E (Unit {0}) × S → Response × S
  saved (ok u, s) = (redirect 303 "/console", s)
  saved (err e, s) =
      if w.is_canceled e then (nothing, s) else (failure 403 "could not save setting", s)

  abbrev bad_times : S → Response × S
  bad_times s = (failure 400 "有効な開始・終了時刻をJSTで指定してください", s)

  abbrev set_window : String → String → Option ℕ → Option ℕ → S → Response × S
  set_window id user (some start) (some end) s =
      if ltb start end then saved (w.schedule_maintenance id user start end s) else bad_times s
  set_window id user none end s = bad_times s
  set_window id user (some start) none s = bad_times s

  -- `parse_minute` is time.ParseInLocation of a minute in JST, for instants from 2000 on.
  module _ (parse_minute : String → Option ℕ) where
    abbrev set_action : String → String → String → (String → String) → S → Response × S
    set_action id user action form s =
        if str_eq action "enabled"
        then saved (w.set_enabled id user (str_eq (form "enabled") "true") s)
        else if str_eq action "channel"
        then (if is_empty (trim_space (form "channel_id"))
            then (failure 400 "channel ID is required", s)
            else saved (w.set_notification_channel id user (trim_space (form "channel_id")) s))
        else if str_eq action "maintenance"
        then set_window id user (parse_minute (form "starts_at")) (parse_minute (form "ends_at")) s
        else (not_found, s)

    abbrev on_setting_form : String → String → String → Option (String → String) → S → Response × S
    on_setting_form id user action none s = (failure 400 "invalid form", s)
    on_setting_form id user action (some form) s = set_action id user action form s

    abbrev pub on_setting : String → Request → List String → S → Response × S
    on_setting user r (id ∷ action ∷ []) s =
        if is_empty id then (not_found, s) else on_setting_form id user action r.form s
    on_setting user r _ s = (not_found, s)

    unfoldable pub update_server : Option String → Request → S → Response × S
    unfolding trim_space split_on trim_prefix
    update_server none r s = (failure 401 "login required", s)
    update_server (some user) r s =
        if not (str_eq r.method "POST")
        then (failure 405 "method not allowed", s)
        else on_setting user r (split_on b'/' (trim_prefix "/console/servers/" r.path)) s

  abbrev on_import : Option String → S → Response × S
  on_import none s = (failure 400 "invalid JSON", s)
  on_import (some id) s =
      on_result (w.import_server id s) (λ server s'. (created server, s'))
        (λ e s'. (failure 502 "VoxelLink import failed", s'))

  unfoldable pub import_server : Config → Request → S → Response × S
  unfolding bearer_matches
  import_server config r s =
      if not (str_eq r.method "POST")
      then (failure 405 "method not allowed", s)
      else if not (bearer_matches r.authorization config.integration_token)
      then (failure 401 "unauthorized", s)
      else on_import r.import_id s
