-- ===== src/Scenarios/Roles.antt =====
-- The program started from an environment.
use voxellink_monitor.Common.{String, ◌≡◌, refl, none, some, str_eq, ok, pos, if◌then◌else◌}
use voxellink_monitor.Integration.Client.{Client, new_client}
use voxellink_monitor.Web.Request.{Config, is_configured}
use voxellink_monitor.Store.Connect.{connect}
use voxellink_monitor.Command.{
  Outside, Environment, serving, required_env, env_or, connected, configured, api,
}
use voxellink_monitor.Command.Serving.{IsReady, api-IsReady}

abbrev all_well : Outside
all_well = record {
  create_pool = λ url. none;
  ping_pool = λ url. none;
  parse_url = λ url. some ("https", "api.example");
  client_error = λ e. "";
  parse_duration = λ text. ok (pos 60000000000);
  create_session = λ token. none;
  open_gateway = none;
  overwrite = λ commands. none;
  apply = none;
}

abbrev secret : String
secret = "0123456789abcdef0123456789abcdef"

-- Each variable is set, and HTTP_ADDR is not.
abbrev deployed : Environment
deployed key =
    if str_eq key "HTTP_ADDR"
    then ""
    else if str_eq key "VOXELLINK_API_BASE_URL"
    then "https://api.example"
    else secret

abbrev deployed_client : Client
deployed_client = record { base_url = "https://api.example"; token = secret }

abbrev deployed_config : Config
deployed_config = record {
  client_id = secret;
  client_secret = secret;
  public_base_url = secret;
  session_secret = secret;
  integration_token = secret;
}

deployed_serves : api all_well deployed ≡ ok (serving deployed_client deployed_config ":8080")
unfolding api connected configured required_env env_or new_client is_configured connect
deployed_serves = refl

api-IsReady_example : IsReady all_well deployed deployed_client deployed_config
api-IsReady_example =
    api-IsReady all_well deployed deployed_client deployed_config ":8080" deployed_serves
