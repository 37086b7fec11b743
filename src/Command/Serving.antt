-- ===== src/Command/Serving.antt =====
-- What must be set before the server of the pages runs.
use voxellink_monitor.Common.{
  ◌≤◌, String, ◌≡◌, sym, ap, ◌∙◌, inl, inr, true, false, none, some, arith, ok, Result-cases,
  Option-cases, is_empty,
}
use voxellink_monitor.Store.Connect.{connect}
use voxellink_monitor.Integration.Client.{Client, new_client}
use voxellink_monitor.Web.Request.{Config, is_configured}
use Prim.Native.String.{len}
use voxellink_monitor.Command.{
  Environment, Outside, serving, required_env, new_app, connected, configured, api,
}

required_env-eq-ok :
    (env : Environment) (key value : String) → required_env env key ≡ ok value → value ≡ env key
unfolding required_env
required_env-eq-ok env key value h = ground arith

-- The configuration that the environment gives.
abbrev pub config_of : Environment → Config
config_of env = record {
  client_id = env "DISCORD_CLIENT_ID";
  client_secret = env "DISCORD_CLIENT_SECRET";
  public_base_url = env "PUBLIC_BASE_URL";
  session_secret = env "SESSION_SECRET";
  integration_token = env "INTEGRATION_SYNC_TOKEN";
}

module _ (o : Outside) (env : Environment) where
  -- The pool for DATABASE_URL can be made and answers.
  abbrev pub Answers : Type 0
  Answers =
      (is_empty (env "DATABASE_URL") ≡ false)
      × (o.create_pool (env "DATABASE_URL") ≡ none)
      × (o.ping_pool (env "DATABASE_URL") ≡ none)

  -- Every setting of the login and the sessions is there, and the secrets are long enough.
  abbrev pub IsComplete : Config → Type 0
  IsComplete config =
      (is_empty config.client_id ≡ false)
      × (is_empty config.client_secret ≡ false)
      × (is_empty config.public_base_url ≡ false)
      × (24 ≤ len config.session_secret)
      × (16 ≤ len config.integration_token)

  -- The API of VoxelLink has a URL with a scheme and a host, and a token, which the client has.
  abbrev pub IsReachable : Client → Type 0
  IsReachable client =
      (scheme : String) × (host : String) × (o.parse_url (env "VOXELLINK_API_BASE_URL")
        ≡ some (scheme, host))
      × (is_empty scheme ≡ false)
      × (is_empty host ≡ false)
      × (is_empty (env "VOXELLINK_API_TOKEN") ≡ false)
      × (client.token ≡ env "VOXELLINK_API_TOKEN")

  abbrev pub IsReady : Client → Config → Type 0
  IsReady client config =
      Answers × IsReachable client × (config ≡ config_of env) × IsComplete config

  is_configured-IsComplete : (config : Config) → is_configured config ≡ true → IsComplete config
  unfolding is_configured
  is_configured-IsComplete config h =
      (ground arith, ground arith, ground arith, ground arith, ground arith)

  new_client-IsReachable :
      (client : Client)
      → new_client o.parse_url (env "VOXELLINK_API_BASE_URL") (env "VOXELLINK_API_TOKEN")
        ≡ ok client
      → IsReachable client
  unfolding new_client
  new_client-IsReachable client h =
      elim (Option-cases (o.parse_url (env "VOXELLINK_API_BASE_URL"))) [
        | inl e ↦ absurd (ground arith)
        | inr ((scheme, host), e) ↦
            (scheme, host, e, ground arith, ground arith, ground arith, ground arith)
      ]

  connected-Answers : (u : Unit {0}) → connected o env ≡ ok u → Answers
  unfolding connected required_env connect
  connected-Answers u h = (ground arith, ground arith, ground arith)

  new_app-eq-ok :
      (client client' : Client) (config config' : Config) (address : String)
      → new_app o env client config ≡ ok (serving client' config' address)
      → (client ≡ client') × (config ≡ config') × (is_configured config ≡ true)
  new_app-eq-ok client client' config config' address h = ground arith

  configured-eq-ok : (config : Config) → configured o env ≡ ok config → config ≡ config_of env
  unfolding configured required_env
  configured-eq-ok config h = ground arith

  -- The server of the pages runs only if the pool for DATABASE_URL can be made and answers, the URL of
  -- VoxelLink has a scheme and a host and its token is set and that of the client, and the
  -- configuration is that of the environment, with every setting there, a session secret of at least
  -- 24 bytes and an integration token of at least 16.
  pub api-IsReady :
      (client : Client) (config : Config) (address : String)
      → api o env ≡ ok (serving client config address)
      → IsReady client config
  unfolding api
  api-IsReady client config address h = elim (Result-cases (connected o env)) [
    | inr (e, f) ↦ cc (rw f at h)
    | inl (u, f) ↦ elim (Result-cases (required_env env "VOXELLINK_API_BASE_URL")) [
      | inr (e, g) ↦ cc (rw (f, g) at h)
      | inl (url, g) ↦ elim (Result-cases (required_env env "VOXELLINK_API_TOKEN")) [
        | inr (e, k) ↦ cc (rw (f, g, k) at h)
        | inl (token, k) ↦ elim (Result-cases (new_client o.parse_url url token)) [
          | inr (e, l) ↦ cc (rw (f, g, k, l) at h)
          | inl (c, l) ↦ elim (Result-cases (configured o env)) [
            | inr (e, m) ↦ cc (rw (f, g, k, l, m) at h)
            | inl (d, m) ↦
                let (same, same', complete) =
                  new_app-eq-ok c client d config address (rw (f, g, k, l, m) at h) in
                let url' = required_env-eq-ok env "VOXELLINK_API_BASE_URL" url g in
                let token' = required_env-eq-ok env "VOXELLINK_API_TOKEN" token k in
                let complete' : is_configured config ≡ true =
                  ap is_configured (sym same') ∙ complete in
                (
                  connected-Answers u f,
                  new_client-IsReachable client (cc),
                  sym same' ∙ configured-eq-ok d m,
                  is_configured-IsComplete config complete',
                )
          ]
        ]
      ]
    ]
  ]
