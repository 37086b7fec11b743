-- ===== src/Command.antt =====
-- cmd/monitor/main.go: the roles of the program, from the environment to what runs.
pub mod Serving
use voxellink_monitor.Common.{
  ℕ, zero, suc, ◌+◌, ◌-◌, ◌*◌, ◌/◌, ◌%◌, ◌^◌, ◌≤◌, ◌<◌, bit_and, bit_or, min, max, String, ◌≡◌,
  refl, sym, ap, ◌∙◌, subst, ◌≢◌, ◌↔◌, ◌⊎◌, inl, inr, Bool, true, false, not, ◌&&◌, ◌||◌, Option,
  none, some, List, [], ◌∷◌, ◌++◌, arith, str_eq, eq_iff, Result, ok, err, Result-cases, ℤ, pos,
  negsuc, ltb, leb, ◌==◌, if◌then◌else◌, ltb→lt, leb→le, ==_iff, Bool-cases, Option-cases, length,
  take, drop, head?, filter, any, update_where, All, length-append, length-take-le,
  length-filter-le, length-update_where, is_empty, trim_prefix, trim_space, split_on, has_char,
  str_append, join, any-update_where, drop-nil, Pointwise, take-append, drop-append,
}
use Prim.Native.String.{len}
use voxellink_monitor.Store.Connect.{connect}
use voxellink_monitor.Integration.Client.{Client, ClientError, new_client}
use voxellink_monitor.Transport.{AccessTunnel, new_access_tunnel}
use voxellink_monitor.Worker.Setup.{Parts, new_worker}
use voxellink_monitor.Discord.Gateway.{Command, Ended, cancelled, failed, new_session, new_bot, run}
use voxellink_monitor.Web.Request.{Config, is_configured}

-- `err` is a log.Fatal, with what it prints.
infixl 5 ◌>>=◌ ◌>>◌
abbrev pub ◌>>=◌ : {A B : Type 0} → Result String A → (A → Result String B) → Result String B
ok a >>= f = f a
err e >>= f = err e

abbrev pub ◌>>◌ : {B : Type 0} → Result String (Unit {0}) → Result String B → Result String B
m >> k = m >>= λ _. k

-- os.Getenv: "" for a variable that is not set
abbrev pub Environment : Type 0
Environment = String → String

unfoldable pub env_or : Environment → String → String → String
env_or env key fallback = if is_empty (env key) then fallback else env key

unfoldable pub required_env : Environment → String → Result String String
required_env env key =
    if is_empty (env key) then err (str_append key " must be set") else ok (env key)

-- What the program finds outside. `parse_duration` is time.ParseDuration, in nanoseconds; an error
-- is its text. `apply` is the error of migrate.Apply; `open_gateway` and `overwrite` those of Discord.
pub record Outside : Type 0 where
  pub create_pool : String → Option String
  pub ping_pool : String → Option String
  pub parse_url : String → Option (String × String)
  pub client_error : ClientError → String
  pub parse_duration : String → Result String ℤ
  pub create_session : String → Option String
  pub open_gateway : Option String
  pub overwrite : List Command → Option String
  pub apply : Option String

unfoldable pub duration_env : Outside → Environment → String → ℤ → Result String ℤ
duration_env o env key fallback =
    if is_empty (env key) then ok fallback else elim (o.parse_duration (env key)) [
      | ok d ↦ ok d
      | err e ↦ err (str_append "invalid " (str_append key (str_append ": " e)))
    ]

-- What a role comes to: the server of the pages, the scheduler, the bot until its context is done,
-- or a schema that is up to date.
pub data Started : Type 0 where
  serving : Client → Config → (address : String) → Started
  scheduling : Parts String Client → Started
  interacted : Started
  migrated : Started

abbrev minute : ℤ
minute = pos 60000000000

module _ (o : Outside) (env : Environment) where
  unfoldable pub connected : Result String (Unit {0})
  unfolding required_env connect
  connected = do url ← required_env env "DATABASE_URL"; connect o.create_pool o.ping_pool url

  abbrev made : {A : Type 0} → Result ClientError A → Result String A
  made (ok a) = ok a
  made (err e) = err (o.client_error e)

  abbrev new_app : Client → Config → Result String Started
  new_app client config =
      if is_configured config
      then ok (serving client config (env_or env "HTTP_ADDR" ":8080"))
      else err "Discord OAuth and session configuration must be set"

  -- The arguments of web.New, in turn.
  unfoldable pub configured : Result String Config
  unfolding required_env
  configured = do
    client_id ← required_env env "DISCORD_CLIENT_ID"
    client_secret ← required_env env "DISCORD_CLIENT_SECRET"
    public_base_url ← required_env env "PUBLIC_BASE_URL"
    session_secret ← required_env env "SESSION_SECRET"
    integration_token ← required_env env "INTEGRATION_SYNC_TOKEN"
    ok (record {
      client_id = client_id;
      client_secret = client_secret;
      public_base_url = public_base_url;
      session_secret = session_secret;
      integration_token = integration_token;
    })

  unfoldable pub api : Result String Started
  unfolding connected configured required_env env_or new_client is_configured
  api = do
    connected
    base_url ← required_env env "VOXELLINK_API_BASE_URL"
    token ← required_env env "VOXELLINK_API_TOKEN"
    client ← made (new_client o.parse_url base_url token)
    config ← configured
    new_app client config

  abbrev optional : {A : Type 0} → Bool → Result String A → Result String (Option A)
  optional false m = ok none
  optional true m = do a ← m; ok (some a)

  unfoldable pub worker : Result String Started
  unfolding connected env_or duration_env new_client new_session new_access_tunnel new_worker
  worker = do
    connected
    notifier ←
        optional (not (is_empty (env "DISCORD_BOT_TOKEN")))
          (new_session o.create_session (env "DISCORD_BOT_TOKEN"))
    startup_timeout ← duration_env o env "CLOUDFLARED_STARTUP_TIMEOUT" (pos 10000000000)
    synchronizer ←
        optional
          (not (is_empty (env "VOXELLINK_API_BASE_URL"))
            && not (is_empty (env "VOXELLINK_API_TOKEN")))
          (made (new_client o.parse_url (env "VOXELLINK_API_BASE_URL") (env "VOXELLINK_API_TOKEN")))
    interval ← duration_env o env "MONITOR_INTERVAL" minute
    status_timeout ← duration_env o env "STATUS_TIMEOUT" (pos 5000000000)
    retry_interval ← duration_env o env "FAILURE_RETRY_INTERVAL" (pos 10000000000)
    ok (
        scheduling (
          new_worker interval status_timeout retry_interval notifier
            (some (
              new_access_tunnel (env_or env "CLOUDFLARED_BIN" "/usr/local/bin/cloudflared")
                startup_timeout))
            synchronizer))

  abbrev finished : Ended → Result String Started
  finished cancelled = ok interacted
  finished (failed e) = err e

  unfoldable pub bot : Result String Started
  unfolding connected required_env env_or new_bot run
  bot = do
    connected
    token ← required_env env "DISCORD_BOT_TOKEN"
    session ← new_bot o.create_session token (env_or env "PUBLIC_BASE_URL" "")
    finished (run o.open_gateway o.overwrite)

  -- pgxpool.New, and migrate.Apply
  unfoldable pub migrate_database : Result String Started
  unfolding required_env
  migrate_database = do
    url ← required_env env "DATABASE_URL"
    elim (o.create_pool url) [
      | some e ↦ err e
      | none ↦ elim o.apply [ some e ↦ err e | none ↦ ok migrated ]
    ]

  abbrev role_of : List String → String
  role_of [] = "api"
  role_of (first ∷ rest) = first

  -- The arguments after the name of the program; `quoted` is that of fmt's %q.
  unfoldable pub main : (String → String) → List String → Result String Started
  unfolding api worker bot migrate_database
  main quoted arguments =
      let role = role_of arguments in
      if str_eq role "api"
      then api
      else if str_eq role "worker"
      then worker
      else if str_eq role "bot"
      then bot
      else if str_eq role "migrate"
      then migrate_database
      else err (str_append "unknown role " (quoted role))
