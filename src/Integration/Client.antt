-- ===== src/Integration/Client.antt =====
-- internal/integration/voxellink/client.go: the API of VoxelLink as the client reads it.
pub mod Listing
use voxellink_monitor.Common.{
  ℕ, zero, suc, ◌+◌, ◌-◌, ◌*◌, ◌/◌, ◌%◌, ◌^◌, ◌≤◌, ◌<◌, bit_and, bit_or, min, max, String, ◌≡◌,
  refl, sym, ap, ◌∙◌, subst, ◌≢◌, ◌↔◌, ◌⊎◌, inl, inr, Bool, true, false, not, ◌&&◌, ◌||◌, Option,
  none, some, List, [], ◌∷◌, ◌++◌, arith, str_eq, eq_iff, Result, ok, err, Result-cases, ℤ, pos,
  negsuc, ltb, leb, ◌==◌, if◌then◌else◌, ltb→lt, leb→le, ==_iff, Bool-cases, Option-cases, length,
  take, drop, head?, filter, any, update_where, All, length-append, length-take-le,
  length-filter-le, length-update_where, is_empty, drop-nil, Pointwise, take-append, drop-append,
}
use voxellink_monitor.Domain.{
  PublicStatus, operational, degraded, outage, maintenance, unknown, Outcome, success, dns_failure,
  connection_refused, connect_timeout, status_timeout, connection_reset, invalid_status_response,
  probe_error, UserReportType, connection, login, timeout, lag, other, CheckResult, Server,
  ServerMember, ImportedServer, UserReport, CrowdSignal, PendingStateNotification, status_eq,
  outcome_eq, is_failure,
}
use Prim.Native.Char.{Char, code}
use Prim.Native.String.{◌++◌ as str_append}

-- strings.TrimRight(s, "/")
unfoldable pub trim_right_slash : String → String
trim_right_slash String.[] = ""
trim_right_slash (String.◌∷◌ c s) =
    let t = trim_right_slash s in if is_empty t && code c == b'/' then "" else String.◌∷◌ c t

pub record Client : Type 0 where
  pub base_url : String
  pub token : String

pub data ClientError : Type 0 where
  not_set invalid_url invalid_data : ClientError
  request decode unsupported : String → ClientError
  bad_status : ℕ → ClientError

-- `parse` is url.Parse, as far as the scheme and the host of a well-formed URL.
unfoldable pub new_client :
    (String → Option (String × String)) → String → String → Result ClientError Client
unfolding trim_right_slash
new_client parse base_url token =
    if is_empty base_url || is_empty token then err not_set else elim (parse base_url) [
      | none ↦ err invalid_url
      | some (scheme, host) ↦
          if is_empty scheme || is_empty host
          then err invalid_url
          else ok (record { base_url = trim_right_slash base_url; token = token })
    ]

-- The JSON of a listing. A field that is missing has its zero value.
pub record Payload : Type 0 where
  pub id : String
  pub name : String
  pub hostname : String
  pub port : ℤ
  pub transport : String
  pub members : List ServerMember

-- Port < 1 || Port > 65535, with the port where it passes
abbrev pub valid_port : ℤ → Option ℕ
valid_port (negsuc n) = none
valid_port (pos n) = if ltb n 1 || ltb 65535 n then none else some n

abbrev pub is_transport : String → Bool
is_transport t =
    str_eq t "DIRECT" || (str_eq t "CLOUDFLARE_SPECTRUM" || str_eq t "CLOUDFLARE_TUNNEL")

abbrev pub is_role : String → Bool
is_role r = str_eq r "owner" || (str_eq r "manager" || str_eq r "viewer")

abbrev pub is_member : ServerMember → Bool
is_member m = not (is_empty m.discord_user_id) && is_role m.role

-- A listing with no transport is reached directly.
abbrev pub transport_of : Payload → String
transport_of p = if is_empty p.transport then "DIRECT" else p.transport

unfoldable pub with_port : Payload → Option ℕ → Result ClientError ImportedServer
with_port p none = err invalid_data
with_port p (some port) =
    if is_transport (transport_of p)
    then ok (record {
      external_id = p.id;
      name = p.name;
      hostname = p.hostname;
      port = port;
      transport = transport_of p;
      members = filter is_member p.members;
    })
    else err (unsupported (transport_of p))

unfoldable pub validate : Payload → Result ClientError ImportedServer
unfolding with_port
validate p =
    if is_empty p.id || (is_empty p.name || is_empty p.hostname)
    then err invalid_data
    else with_port p (valid_port p.port)

abbrev pub on_payload : Result String Payload → Result ClientError ImportedServer
on_payload (err e) = err (decode e)
on_payload (ok p) = validate p

module _ {Body : Type 0}
    -- the round trip with a URL and an Authorization header: an error, or a status code and a body
    (http : String → String → Result String (ℕ × Body)) (json : Body → Result String Payload)
    (path_escape : String → String) where
  abbrev on_response : Result String (ℕ × Body) → Result ClientError ImportedServer
  on_response (err e) = err (request e)
  on_response (ok (status, body)) =
      if status == 200 then on_payload (json body) else err (bad_status status)

  unfoldable pub fetch_server : Client → String → Result ClientError ImportedServer
  fetch_server c external_id = on_response (
      http (str_append c.base_url (str_append "/api/v1/monitor/servers/" (path_escape external_id)))
        (str_append "Bearer " c.token))
