-- ===== src/Minecraft/Ping.antt =====
-- PingJava and PingJavaEndpoint of java.go, for what one connection does.
pub mod Handshake
pub mod Outcomes
use voxellink_monitor.Common.{
  ℕ, zero, suc, ◌+◌, ◌-◌, ◌*◌, ◌/◌, ◌%◌, ◌^◌, ◌≤◌, ◌<◌, bit_and, bit_or, min, max, String, ◌≡◌,
  refl, sym, ap, ◌∙◌, subst, ◌≢◌, ◌↔◌, ◌⊎◌, inl, inr, Bool, true, false, not, ◌&&◌, ◌||◌, Option,
  none, some, List, [], ◌∷◌, ◌++◌, arith, str_eq, eq_iff, Result, ok, err, Result-cases, ℤ, pos,
  negsuc, ltb, leb, ◌==◌, if◌then◌else◌, ltb→lt, leb→le, ==_iff, Bool-cases, Option-cases, length,
  take, drop, head?, filter, any, update_where, All, length-append, length-take-le,
  length-filter-le, length-update_where, is_empty, drop-nil, Pointwise,
}
use voxellink_monitor.Domain.{
  PublicStatus, operational, degraded, outage, maintenance, unknown, Outcome, success, dns_failure,
  connection_refused, connect_timeout, status_timeout, connection_reset, invalid_status_response,
  probe_error, UserReportType, connection, login, timeout, lag, other, CheckResult, Server,
  ServerMember, ImportedServer, UserReport, CrowdSignal, PendingStateNotification, status_eq,
  outcome_eq, is_failure,
}
use voxellink_monitor.Minecraft.Codec.{var_int, ReadError, no_byte, too_long, read_var_int}

-- What the network does: the error of dialling and of the two writes, if any, the bytes that arrive
-- before the deadline, the error of a read past them, and the time that the exchange takes.
pub record Wire : Type 0 where
  pub dial_error : Option String
  pub handshake_error : Option String
  pub request_error : Option String
  pub incoming : List ℕ
  pub read_error : String
  pub elapsed : ℕ

-- binary.BigEndian.PutUint16(p, uint16(port))
abbrev pub put_uint16 : ℕ → List ℕ
put_uint16 port = (port % 65536 / 256) ∷ (port % 256) ∷ []

-- The packet: its id, the protocol version, the host, the port and the next state.
unfoldable pub handshake_packet : List ℕ → ℕ → List ℕ
handshake_packet host port =
    0 ∷ (var_int 765 ++ (var_int (length host) ++ (host ++ (put_uint16 port ++ (1 ∷ [])))))

unfoldable pub handshake : List ℕ → ℕ → List ℕ
unfolding handshake_packet
handshake host port = var_int (length (handshake_packet host port)) ++ handshake_packet host port

abbrev pub status_request : List ℕ
status_request = 1 ∷ 0 ∷ []

-- The result as it stands when the function returns early.
abbrev pub failed : ℕ → Outcome → String → CheckResult
failed now outcome detail = record {
  outcome = outcome;
  latency = 0;
  players_online = pos 0;
  players_max = pos 0;
  detail = detail;
  at = now;
}

abbrev read_error_text : Wire → ReadError → String
read_error_text wire no_byte = wire.read_error
read_error_text wire too_long = "varint too long"

-- `json` is json.Unmarshal into the players' two numbers, or its error.
module _ (json : List ℕ → Result String (ℤ × ℤ)) (now : ℕ) (wire : Wire) where
  on_players : Result String (ℤ × ℤ) → CheckResult
  on_players (err e) = failed now invalid_status_response e
  on_players (ok (online, most)) = record {
    outcome = success;
    latency = wire.elapsed;
    players_online = online;
    players_max = most;
    detail = "";
    at = now;
  }

  -- io.ReadFull(r, body)
  on_size : Result ReadError (ℕ × List ℕ) → CheckResult
  unfolding on_players
  on_size (err e) = failed now invalid_status_response ""
  on_size (ok (size, bytes)) =
      if ltb size 1 || ltb (2 ^ 20) size
      then failed now invalid_status_response ""
      else if ltb (length bytes) size
      then failed now invalid_status_response wire.read_error
      else on_players (json (take size bytes))

  -- r.ReadByte(), the packet's id, which is not looked at
  on_packet : List ℕ → CheckResult
  unfolding on_size
  on_packet [] = failed now invalid_status_response ""
  on_packet (id ∷ bytes) = on_size (read_var_int bytes)

  on_length : Result ReadError (ℕ × List ℕ) → CheckResult
  unfolding on_packet
  on_length (err e) = failed now status_timeout (read_error_text wire e)
  on_length (ok (_, bytes)) = on_packet bytes

  unfoldable pub ping_java_endpoint : CheckResult
  unfolding on_length
  ping_java_endpoint = elim wire.dial_error [
    | some e ↦ failed now connect_timeout e
    | none ↦ elim wire.handshake_error [
      | some e ↦ failed now connection_reset e
      | none ↦ elim wire.request_error [
        | some e ↦ failed now connection_reset e
        | none ↦ on_length (read_var_int wire.incoming)
      ]
    ]
  ]

-- What was written to the connection.
unfoldable pub written : Wire → List ℕ → ℕ → List ℕ
unfolding handshake
written wire host port = elim wire.dial_error [
  | some e ↦ []
  | none ↦ elim wire.handshake_error [ some e ↦ [] | none ↦ handshake host port ++ status_request ]
]
