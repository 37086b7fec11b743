-- ===== src/Minecraft/Ping/Outcomes.antt =====
-- How a ping ends.
use voxellink_monitor.Common.{
  ℕ, ◌^◌, ◌≤◌, ◌<◌, String, ◌≡◌, ◌≢◌, ◌↔◌, Bool, true, false, none, some, List, ◌∷◌, ◌++◌, arith,
  Result, ok, ℤ, length, length-append, take-append,
}
use voxellink_monitor.Domain.{
  success, dns_failure, connection_refused, connect_timeout, probe_error,
}
use voxellink_monitor.Minecraft.Codec.{var_int}
use voxellink_monitor.Minecraft.Codec.RoundTrip.{read_var_int-var_int}
use voxellink_monitor.Minecraft.Ping.{Wire, ping_java_endpoint}

abbrev pub dial_fails : Wire → Bool
dial_fails wire = elim wire.dial_error [ none ↦ false | some e ↦ true ]

-- A ping never blames the name service, a refusal or the probe itself: its outcome is
-- CONNECT_TIMEOUT exactly when the dial fails, whatever the cause of that.
pub ping_java_endpoint_classes :
    (json : List ℕ → Result String (ℤ × ℤ)) (now : ℕ) (wire : Wire)
    → let outcome = (ping_java_endpoint json now wire).outcome in
      (outcome ≢ dns_failure)
      × (outcome ≢ connection_refused)
      × (outcome ≢ probe_error)
      × ((outcome ≡ connect_timeout) ↔ (dial_fails wire ≡ true))
unfolding ping_java_endpoint
ping_java_endpoint_classes json now wire = ground arith

-- If the connection holds and the server answers with a packet whose body has between 1 and 2^20
-- bytes and is understood, the ping is a SUCCESS with the players that the body names.
pub ping_java_endpoint_success :
    (json : List ℕ → Result String (ℤ × ℤ)) (now : ℕ) (wire : Wire) (size id : ℕ)
    (body rest : List ℕ) (online most : ℤ)
    → wire.dial_error ≡ none
    → wire.handshake_error ≡ none
    → wire.request_error ≡ none
    → size < 2 ^ 35
    → 0 < length body
    → length body ≤ 2 ^ 20
    → wire.incoming ≡ var_int size ++ (id ∷ (var_int (length body) ++ (body ++ rest)))
    → json body ≡ ok (online, most)
    → ping_java_endpoint json now wire ≡ record {
      outcome = success;
      latency = wire.elapsed;
      players_online = online;
      players_max = most;
      detail = "";
      at = now;
    }
unfolding ping_java_endpoint
ping_java_endpoint_success json now wire size id body rest online most d h r fits some_body small e
      parsed =
    ground (
      arith,
      read_var_int-var_int size (id ∷ (var_int (length body) ++ (body ++ rest))),
      read_var_int-var_int (length body) (body ++ rest),
      length-append body rest,
      take-append body rest,
    )
