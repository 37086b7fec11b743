-- ===== src/Web/Router.antt =====
-- Handler of app.go: which handler a path goes to. The mux has cleaned the path before.
pub mod Visitors
use voxellink_monitor.Common.{
  ℕ, String, Bool, true, false, ◌||◌, Option, none, some, List, str_eq, if◌then◌else◌, str_append,
}
use voxellink_monitor.Common.Texts.{after_prefix}
use voxellink_monitor.Web.Request.{Request, Config, Response, no_content, redirect, Repository}
use voxellink_monitor.Web.Session.{Signer, session_user}
use voxellink_monitor.Web.Login.{States, Answer, login as begin_login, callback}
use voxellink_monitor.Web.Report.{report}
use voxellink_monitor.Web.Console.{home, console, update_server, import_server}

pub data Route : Type 0 where
  healthz home_route login_route callback_route console_route report_route : Route
  update_route import_route : Route
  moved : String → Route

abbrev starts : String → String → Bool
starts p s = elim (after_prefix p s) [ none ↦ false | some _ ↦ true ]

-- The pattern that fits: an exact one, the longest prefix, and for a prefix without its slash a
-- redirect to it.
unfoldable pub route : String → Route
unfolding after_prefix
route path =
    if str_eq path "/healthz"
    then healthz
    else if str_eq path "/login"
    then login_route
    else if str_eq path "/oauth/discord/callback"
    then callback_route
    else if str_eq path "/console"
    then console_route
    else if str_eq path "/api/v1/integrations/voxellink/import"
    then import_route
    else if starts "/console/servers/" path
    then update_route
    else if starts "/servers/" path
    then report_route
    else if str_eq path "/console/servers" || str_eq path "/servers"
    then moved (str_append path "/")
    else home_route

-- What the server has besides the repository: packages, Discord, the time and a random token.
pub record Surroundings : Type 0 where
  pub signer : Signer
  pub encode : List (String × String) → String
  pub exchange : String → Answer
  pub identify : String → Answer
  pub sha256_hex : String → String
  pub format_day : ℕ → String
  pub parse_minute : String → Option ℕ
  pub now : ℕ
  pub token : Option String

abbrev keep : {S : Type 0} → States → Response × S → Response × States × S
keep states (response, s) = (response, states, s)

abbrev beside : {S : Type 0} → S → Response × States → Response × States × S
beside s (response, states) = (response, states, s)

module _ {E S : Type 0} (o : Surroundings) (config : Config) (w : Repository E S) where
  abbrev user_of : Request → Option String
  user_of r = session_user o.signer config.session_secret o.now r.cookie

  unfoldable pub dispatch : Route → Request → States → S → Response × States × S
  unfolding begin_login callback report home console update_server import_server session_user
  dispatch healthz r states s = (no_content, states, s)
  dispatch home_route r states s = keep states (home w r s)
  dispatch login_route r states s = beside s (begin_login o.encode config o.now o.token states)
  dispatch callback_route r states s =
      beside s (callback o.exchange o.identify o.signer config o.now r states)
  dispatch console_route r states s = keep states (console w (user_of r) s)
  dispatch report_route r states s =
      keep states (report o.sha256_hex o.format_day config w o.now r s)
  dispatch update_route r states s = keep states (update_server w o.parse_minute (user_of r) r s)
  dispatch import_route r states s = keep states (import_server w config r s)
  dispatch (moved path) r states s = (redirect 301 path, states, s)

  unfoldable pub handle : Request → States → S → Response × States × S
  unfolding route dispatch
  handle r states s = dispatch (route r.path) r states s
