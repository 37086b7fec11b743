-- ===== src/Web/Report.antt =====
-- Reports of players from the status page: report, reporterHash and clientAddress of app.go.
pub mod Limits
pub mod Spelling
use voxellink_monitor.Common.{
  ℕ, zero, suc, ◌+◌, ◌-◌, ◌*◌, ◌/◌, ◌%◌, ◌^◌, ◌≤◌, ◌<◌, bit_and, bit_or, min, max, String, ◌≡◌,
  refl, sym, ap, ◌∙◌, subst, ◌≢◌, ◌↔◌, ◌⊎◌, inl, inr, Bool, true, false, not, ◌&&◌, ◌||◌, Option,
  none, some, List, [], ◌∷◌, ◌++◌, arith, str_eq, eq_iff, Result, ok, err, Result-cases, ℤ, pos,
  negsuc, ltb, leb, ◌==◌, if◌then◌else◌, ltb→lt, leb→le, ==_iff, Bool-cases, Option-cases, length,
  take, drop, head?, filter, any, update_where, All, length-append, length-take-le,
  length-filter-le, length-update_where, is_empty, trim_prefix, trim_space, split_on, has_char,
  str_append, join, drop-nil, Pointwise, take-append, drop-append,
}
use voxellink_monitor.Domain.{
  PublicStatus, operational, degraded, outage, maintenance, unknown, Outcome, success, dns_failure,
  connection_refused, connect_timeout, status_timeout, connection_reset, invalid_status_response,
  probe_error, UserReportType, connection, login, timeout, lag, other, CheckResult, Server,
  ServerMember, ImportedServer, ServerSnapshot, Incident, UserReport, CrowdSignal,
  PendingStateNotification, status_eq, outcome_eq, is_failure,
}
use Prim.Native.String.{len}
use voxellink_monitor.Web.Request.{
  Request, Config, Response, not_found, failure, redirect, Repository, on_result,
}

-- domain.UserReportType of the form's value, among the five that pass
abbrev pub report_type_of : String → Option UserReportType
report_type_of t =
    if str_eq t "CONNECTION"
    then some connection
    else if str_eq t "LOGIN"
    then some login
    else if str_eq t "TIMEOUT"
    then some timeout
    else if str_eq t "LAG"
    then some lag
    else if str_eq t "OTHER"
    then some other
    else none

abbrev first_part : List String → String
first_part [] = ""
first_part (s ∷ rest) = s

unfoldable pub client_address : Request → String
unfolding trim_space split_on
client_address r =
    let cf = trim_space r.cf_connecting_ip in
    let forwarded = trim_space (first_part (split_on b',' r.x_forwarded_for)) in
    if not (is_empty cf)
    then cf
    else if not (is_empty forwarded)
    then forwarded
    else elim r.remote_host [ none ↦ r.remote_addr | some host ↦ host ]

-- `sha256_hex` is the digest in hexadecimal digits, `format_day` the date of an instant in UTC.
module _ (sha256_hex : String → String) (format_day : ℕ → String) (config : Config) where
  abbrev pub hash_input : ℕ → Request → String → String
  hash_input now r server_id =
      join "|"
        (config.session_secret ∷ client_address r ∷ r.user_agent ∷ server_id ∷ format_day now ∷ [])

  unfoldable pub reporter_hash : ℕ → Request → String → String
  unfolding client_address
  reporter_hash now r server_id = sha256_hex (hash_input now r server_id)

  abbrev pub report_from : ℕ → Request → String → UserReportType → String → UserReport
  report_from now r id kind detail = record {
    server_id = id;
    reporter_hash = reporter_hash now r id;
    detail = detail;
    kind = kind;
    at = now;
  }

  module _ {E S : Type 0} (w : Repository E S) where
    -- len(detail) counts bytes.
    abbrev on_detail : ℕ → Request → String → UserReportType → String → S → Response × S
    on_detail now r id kind detail s =
        if ltb 280 (len detail)
        then (failure 400 "report is too long", s)
        else on_result (w.record_user_report (report_from now r id kind detail) s)
            (λ signal s'. (redirect 303 "/", s'))
            (λ e s'. (failure 500 "could not save report", s'))

    abbrev on_kind :
        ℕ → Request → String → (String → String) → Option UserReportType → S → Response × S
    on_kind now r id form none s = (failure 400 "invalid report type", s)
    on_kind now r id form (some kind) s = on_detail now r id kind (trim_space (form "detail")) s

    abbrev on_form : ℕ → Request → String → Option (String → String) → S → Response × S
    on_form now r id none s = (failure 400 "invalid form", s)
    on_form now r id (some form) s = on_kind now r id form (report_type_of (form "report_type")) s

    abbrev pub on_path : ℕ → Request → List String → S → Response × S
    on_path now r (id ∷ action ∷ []) s =
        if is_empty id || not (str_eq action "reports")
        then (not_found, s)
        else if not (str_eq r.method "POST")
        then (failure 405 "method not allowed", s)
        else on_form now r id r.form s
    on_path now r _ s = (not_found, s)

    unfoldable pub report : ℕ → Request → S → Response × S
    unfolding reporter_hash trim_space split_on trim_prefix
    report now r s = on_path now r (split_on b'/' (trim_prefix "/servers/" r.path)) s
