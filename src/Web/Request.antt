-- ===== src/Web/Request.antt =====
-- Requests and responses as the handlers of app.go see them, and the interfaces that they call.
use voxellink_monitor.Common.{
  ℕ, String, Bool, not, ◌||◌, Option, List, Result, ok, err, ltb, is_empty,
}
use voxellink_monitor.Domain.{Server, ServerSnapshot, Incident, UserReport, CrowdSignal}
use Prim.Native.String.{len}
use voxellink_monitor.Store.Uptime.{Percentage}

-- `form` is what ParseForm gives, if it does not fail; a header or a value that is missing is "".
-- `remote_host` is what net.SplitHostPort makes of `remote_addr`, if it does not fail; `import_id`
-- what json decodes from the first MiB of the body, if it does not fail.
pub record Request : Type 0 where
  pub method : String
  pub path : String
  pub query : String → String
  pub form : Option (String → String)
  pub cookie : Option String
  pub authorization : String
  pub cf_connecting_ip : String
  pub x_forwarded_for : String
  pub user_agent : String
  pub remote_addr : String
  pub remote_host : Option String
  pub import_id : Option String

pub record Config : Type 0 where
  pub client_id : String
  pub client_secret : String
  pub public_base_url : String
  pub session_secret : String
  pub integration_token : String

pub record ConsoleServer : Type 0 where
  pub snapshot : ServerSnapshot
  pub uptime_24h : Percentage
  pub incidents : List Incident

-- `failure`: http.Error. `nothing`: the handler returns and has written nothing. `signed_in`: the
-- redirect to the console with the session cookie, and whether that is Secure.
pub data Response : Type 0 where
  no_content not_found nothing : Response
  failure : ℕ → String → Response
  redirect : ℕ → String → Response
  signed_in : String → Bool → Response
  home_page : List (ServerSnapshot × CrowdSignal) → Response
  console_page : List ConsoleServer → Response
  created : Server → Response

-- Repository and Importer of app.go; `S` is the state behind them and `E` their errors.
pub record Repository (E S : Type 0) : Type 0 where
  pub servers_for_discord_member : String → S → Result E (List Server) × S
  pub snapshot_by_id : String → S → Result E ServerSnapshot × S
  pub public_snapshots : S → Result E (List ServerSnapshot) × S
  pub uptime_24h : String → S → Result E Percentage × S
  pub recent_incidents : String → ℕ → S → Result E (List Incident) × S
  pub record_user_report : UserReport → S → Result E CrowdSignal × S
  pub crowd_signal : String → S → Result E CrowdSignal × S
  pub set_enabled : String → String → Bool → S → Result E (Unit {0}) × S
  pub set_notification_channel : String → String → String → S → Result E (Unit {0}) × S
  pub schedule_maintenance : String → String → ℕ → ℕ → S → Result E (Unit {0}) × S
  pub import_server : String → S → Result E Server × S
  -- errors.Is(err, context.Canceled)
  pub is_canceled : E → Bool

-- A call, and what the handler does with its result and its error.
abbrev pub on_result :
    {E A S : Type 0}
    → Result E A × S
    → (A → S → Response × S)
    → (E → S → Response × S)
    → Response × S
on_result (ok a, s) good bad = good a s
on_result (err e, s) good bad = bad e s

-- New
unfoldable pub is_configured : Config → Bool
is_configured c = not (
    is_empty c.client_id
    || (is_empty c.client_secret
        || (is_empty c.public_base_url
            || (ltb (len c.session_secret) 24 || ltb (len c.integration_token) 16))))
