-- ===== src/Scenarios/Pages.antt =====
-- Requests to the status page, the console and the import endpoint.
use voxellink_monitor.Common.{
  ℕ, ◌*◌, String, ◌≡◌, refl, subst, Bool, false, ◌||◌, Option, none, some, [], ◌∷◌, arith, str_eq,
  Result, err, if◌then◌else◌, trim_prefix, trim_space, split_on,
}
use voxellink_monitor.Domain.{operational, lag, Server}
use voxellink_monitor.Store.Tables.{day}
use voxellink_monitor.Store.Session.{Error, refused, Session, connected}
use voxellink_monitor.Store.Reports.{report_row}
use voxellink_monitor.Store.Owner.{may_manage}
use voxellink_monitor.Web.Request.{Request}
use voxellink_monitor.Web.Report.{reporter_hash}
use voxellink_monitor.Web.Report.Spelling.{IsReport, filed, page, respelled_counts_twice}
use voxellink_monitor.Web.Backend.{backend}
use voxellink_monitor.Web.Console.{bearer_matches, update_server}
use voxellink_monitor.Web.Console.Guards.{Denied, update_server-Denied}
use voxellink_monitor.Web.Session.{session_user}
use voxellink_monitor.Web.Router.{Surroundings, handle}
use voxellink_monitor.Web.Router.Visitors.{IsHarmless, handle-IsHarmless}
use voxellink_monitor.Scenarios.Data.{with_lobby}
use voxellink_monitor.Scenarios.Sessions.{console_config, unary}
use voxellink_monitor.Scenarios.Owners.{with_owner}

-- The id of the lobby, also in capitals.
abbrev lobby_uuid : String → Option String
lobby_uuid s = if str_eq s "u1" || str_eq s "U1" then some "u1" else none

abbrev by_name : String → String → Bool
by_name a b = false

abbrev no_listing : String → Session → Result Error Server × Session
no_listing id s = (err refused, s)

abbrev form_with : String → String → String
form_with detail key = if str_eq key "report_type" then "LAG" else detail

abbrev posted : String → String → Request
posted path detail = record {
  method = "POST";
  path = path;
  query = λ key. "";
  form = some (form_with detail);
  cookie = none;
  authorization = "";
  cf_connecting_ip = "";
  x_forwarded_for = "";
  user_agent = "browser";
  remote_addr = "192.0.2.1:5000";
  remote_host = some "192.0.2.1";
  import_id = none;
}

posted-IsReport :
    (detail : String) → IsReport (posted "/servers/u1/reports" detail) "u1" (form_with detail) lag
unfolding trim_prefix split_on
posted-IsReport detail = record {
  parts = refl;
  has_id = refl;
  posted = refl;
  formed = refl;
  chosen = refl;
}

respelled-IsReport :
    (detail : String) → IsReport (posted "/servers/U1/reports" detail) "U1" (form_with detail) lag
unfolding trim_prefix split_on
respelled-IsReport detail = record {
  parts = refl;
  has_id = refl;
  posted = refl;
  formed = refl;
  chosen = refl;
}

-- A digest and a date that tell texts and days apart as far as it matters here.
abbrev digest : String → String
digest text = text

abbrev date : ℕ → String
date t = "2000-01-31"

respelled_counts_twice_example :
    let db = with_lobby operational in
    let r = posted "/servers/u1/reports" "slow" in
    let again = record r { path = "/servers/U1/reports" } in
    let sent = page digest date console_config lobby_uuid by_name no_listing (30 * day) in
    let report_as = filed digest date console_config lobby_uuid by_name no_listing (30 * day) in
    (sent again (sent r (connected db)).1).1.stored.reports
    ≡ report_row (report_as again "U1" "u1" lag "slow")
      ∷ report_row (report_as r "u1" "u1" lag "slow")
      ∷ []
unfolding trim_space reporter_hash
respelled_counts_twice_example =
    respelled_counts_twice digest date console_config lobby_uuid by_name no_listing (30 * day)
      (posted "/servers/u1/reports" "slow") "/servers/U1/reports" "u1" "U1" "u1" (form_with "slow")
      lag (with_lobby operational) (posted-IsReport "slow") (respelled-IsReport "slow") refl refl
      refl (omega arith) (omega arith) refl refl refl

abbrev no_minute : String → Option ℕ
no_minute s = none

looks_on : (u : String) → lobby_uuid "u1" ≡ some u → may_manage u "d2" with_owner ≡ false
looks_on u e =
    let same : "u1" ≡ u = cc e in
    subst (λ (t : String). may_manage t "d2" with_owner ≡ false) same refl

update_server-Denied_example :
    let w = backend lobby_uuid by_name no_listing (30 * day) in
    let r = posted "/console/servers/u1/enabled" "false" in
    let s = connected with_owner in
    Denied lobby_uuid by_name no_listing
      (30 * day)
      no_minute
      "d2"
      r
      s
      (update_server w no_minute (some "d2") r s)
update_server-Denied_example =
    update_server-Denied lobby_uuid by_name no_listing (30 * day) no_minute "d2"
      (posted "/console/servers/u1/enabled" "false") (connected with_owner) "u1" "enabled"
      (unfold trim_prefix split_on in refl) looks_on

abbrev around : Surroundings
around = record {
  signer = unary;
  encode = λ fields. "";
  exchange = λ code. err "offline";
  identify = λ token. err "offline";
  sha256_hex = digest;
  format_day = date;
  parse_minute = no_minute;
  now = 30 * day;
  token = some "s1";
}

handle-IsHarmless_example :
    let w = backend lobby_uuid by_name no_listing (30 * day) in
    let r = posted "/servers/u1/reports" "slow" in
    let s = connected with_owner in
    IsHarmless with_owner (handle around console_config w r [] s).2.stored
handle-IsHarmless_example =
    handle-IsHarmless lobby_uuid by_name no_listing (30 * day) around console_config
      (posted "/servers/u1/reports" "slow") [] (connected with_owner) (unfold session_user in refl)
      (unfold bearer_matches in refl)
