-- ===== src/Scenarios/Network.antt =====
-- Pings and listings.
use voxellink_monitor.Common.{
  ℕ, ◌%◌, String, ◌≡◌, refl, ◌≢◌, ◌↔◌, Bool, true, false, none, some, List, [], ◌∷◌, ◌++◌, arith,
  Result, ok, err, ℤ, pos, filter,
}
use voxellink_monitor.Domain.{
  operational, success, dns_failure, connection_refused, connect_timeout, probe_error, Server,
  ImportedServer,
}
use voxellink_monitor.Integration.Sync.Stored.{IsKept, refresh, refresh-IsKept}
use voxellink_monitor.Store.Tables.{Db}
use voxellink_monitor.Store.Session.{Error, refused, Session, connected}
use voxellink_monitor.Store.Imports.{upsert_voxellink_server}
use voxellink_monitor.Store.Imports.Replace.{listing_id, kept, listed, upsert_voxellink_server_lem}
use voxellink_monitor.Minecraft.Codec.{var_int, read_var_int}
use voxellink_monitor.Minecraft.Codec.RoundTrip.{read_var_int-var_int}
use voxellink_monitor.Minecraft.Ping.{Wire, ping_java_endpoint, handshake}
use voxellink_monitor.Minecraft.Ping.Handshake.{read_hello, read_hello-handshake}
use voxellink_monitor.Minecraft.Ping.Outcomes.{
  dial_fails, ping_java_endpoint_classes, ping_java_endpoint_success,
}
use voxellink_monitor.Integration.Client.{Client, Payload, is_member, validate, fetch_server}
use voxellink_monitor.Integration.Client.Listing.{IsListing, validate-IsListing}
use voxellink_monitor.Scenarios.Data.{with_lobby}

read_var_int-var_int_example : read_var_int (var_int 765 ++ (7 ∷ [])) ≡ ok (765, 7 ∷ [])
read_var_int-var_int_example = read_var_int-var_int 765 (7 ∷ []) (omega arith)

-- "mc.example" on the default port.
abbrev host_bytes : List ℕ
host_bytes = 109 ∷ 99 ∷ 46 ∷ 101 ∷ 120 ∷ 97 ∷ 109 ∷ 112 ∷ 108 ∷ 101 ∷ []

read_hello-handshake_example :
    read_hello (handshake host_bytes 25565 ++ (1 ∷ 0 ∷ []))
    ≡ ok (
      record { protocol = 765; host = host_bytes; port = 25565 % 65536; next_state = 1 },
      1 ∷ 0 ∷ [],
    )
read_hello-handshake_example = read_hello-handshake host_bytes 25565 (1 ∷ 0 ∷ []) (omega arith)

abbrev two_players : List ℕ → Result String (ℤ × ℤ)
two_players body = ok (pos 2, pos 20)

-- A packet with a body of three bytes, after its length and its id.
abbrev answering : Wire
answering = record {
  dial_error = none;
  handshake_error = none;
  request_error = none;
  incoming = var_int 5 ++ (0 ∷ (var_int 3 ++ ((123 ∷ 32 ∷ 125 ∷ []) ++ [])));
  read_error = "EOF";
  elapsed = 23000000;
}

ping_java_endpoint_success_example : ping_java_endpoint two_players 9 answering ≡ record {
  outcome = success;
  latency = 23000000;
  players_online = pos 2;
  players_max = pos 20;
  detail = "";
  at = 9;
}
ping_java_endpoint_success_example =
    ping_java_endpoint_success two_players 9 answering 5 0 (123 ∷ 32 ∷ 125 ∷ []) [] (pos 2) (pos 20)
      refl refl refl (omega arith) (omega arith) (omega arith) refl refl

-- The name of the host does not resolve.
abbrev no_such_host : Wire
no_such_host = record answering { dial_error = some "no such host" }

ping_java_endpoint_classes_example :
    let outcome = (ping_java_endpoint two_players 9 no_such_host).outcome in
    (outcome ≢ dns_failure)
    × (outcome ≢ connection_refused)
    × (outcome ≢ probe_error)
    × ((outcome ≡ connect_timeout) ↔ (dial_fails no_such_host ≡ true))
ping_java_endpoint_classes_example = ping_java_endpoint_classes two_players 9 no_such_host

-- A listing with one member of a role that does not exist.
abbrev lobby_payload : Payload
lobby_payload = record {
  id = "lobby";
  name = "Lobby";
  hostname = "play.example";
  port = pos 25565;
  transport = "";
  members =
      (record { discord_user_id = "d1"; role = "owner" })
      ∷ (record { discord_user_id = "d2"; role = "admin" })
      ∷ [];
}

abbrev lobby_listing : ImportedServer
lobby_listing = record {
  external_id = "lobby";
  name = "Lobby";
  hostname = "play.example";
  port = 25565;
  transport = "DIRECT";
  members = (record { discord_user_id = "d1"; role = "owner" }) ∷ [];
}

lobby_passes : validate lobby_payload ≡ ok lobby_listing
unfolding validate
lobby_passes = refl

validate-IsListing_example :
    IsListing lobby_listing × (lobby_listing.members ≡ filter is_member lobby_payload.members)
validate-IsListing_example = validate-IsListing lobby_payload lobby_listing lobby_passes

abbrev api : String → String → Result String (ℕ × Unit {0})
api url authorization = ok (200, tt)

abbrev lobby_json : Unit {0} → Result String Payload
lobby_json body = ok lobby_payload

abbrev monitor_client : Client
monitor_client = record { base_url = "https://voxellink.example"; token = "secret" }

lobby_fetched :
    fetch_server api lobby_json (λ (s : String). s) monitor_client "lobby" ≡ ok lobby_listing
unfolding fetch_server
lobby_fetched = lobby_passes

-- One member from VoxelLink, who is replaced, and one who is not.
abbrev with_owner : Db
with_owner = record (with_lobby operational) {
  members =
      (record { server_id = "u1"; discord_user_id = "d0"; role = "owner"; source = "voxellink" })
      ∷ (record { server_id = "u1"; discord_user_id = "d9"; role = "viewer"; source = "monitor" })
      ∷ [];
}

upsert_voxellink_server_lem_example :
    let (r, s) = upsert_voxellink_server "u2" 9 lobby_listing (connected with_owner) in
    (server : Server) × (r ≡ ok server)
    × (server.id ≡ listing_id "u2" lobby_listing with_owner)
    × (s.stored.members
        ≡ listed server.id lobby_listing.members (kept server.id with_owner.members))
upsert_voxellink_server_lem_example =
    upsert_voxellink_server_lem "u2" 9 lobby_listing with_owner refl (refl, refl, tt)

abbrev fetched : String → Session × Unit {0} → Result Error ImportedServer × (Session × Unit {0})
fetched id t = (
  elim (fetch_server api lobby_json (λ (s : String). s) monitor_client id) [
    | ok i ↦ ok i
    | err e ↦ err refused
  ],
  t,
)

abbrev same_order : String → String → Bool
same_order a b = false

refresh-IsKept_example :
    IsKept with_owner
      (refresh refused fetched (λ i s. "u2") same_order 9 (connected with_owner, tt)).1.0.stored
refresh-IsKept_example =
    refresh-IsKept refused fetched (λ i s. "u2") same_order 9 (connected with_owner, tt)
      (λ id t. refl)
