-- ===== src/Transport.antt =====
-- internal/transport/tunnel.go: the probe through a tunnel of cloudflared.
pub mod Ready
use voxellink_monitor.Common.{
  ℕ, zero, suc, ◌+◌, ◌-◌, ◌*◌, ◌/◌, ◌%◌, ◌^◌, ◌≤◌, ◌<◌, bit_and, bit_or, min, max, String, ◌≡◌,
  refl, sym, ap, ◌∙◌, subst, ◌≢◌, ◌↔◌, ◌⊎◌, inl, inr, Bool, true, false, not, ◌&&◌, ◌||◌, Option,
  none, some, List, [], ◌∷◌, ◌++◌, arith, str_eq, eq_iff, Result, ok, err, Result-cases, ℤ, pos,
  negsuc, ltb, leb, ◌==◌, if◌then◌else◌, ltb→lt, leb→le, ==_iff, Bool-cases, Option-cases, length,
  take, drop, head?, filter, any, update_where, All, length-append, length-take-le,
  length-filter-le, length-update_where, is_empty, trim_prefix, trim_space, split_on, has_char,
  str_append, join, any-update_where, drop-nil, Pointwise, take-append, drop-append,
}
use voxellink_monitor.Domain.{
  PublicStatus, operational, degraded, outage, maintenance, unknown, Outcome, success, dns_failure,
  connection_refused, connect_timeout, status_timeout, connection_reset, invalid_status_response,
  probe_error, UserReportType, connection, login, timeout, lag, other, CheckResult, Server,
  ServerMember, ImportedServer, ServerSnapshot, Incident, UserReport, CrowdSignal,
  PendingStateNotification, status_eq, outcome_eq, is_failure,
}
use voxellink_monitor.Minecraft.Ping.{Wire, ping_java_endpoint}

pub record AccessTunnel : Type 0 where
  pub binary : String
  pub startup_timeout : ℤ

unfoldable pub new_access_tunnel : String → ℤ → AccessTunnel
new_access_tunnel binary startup_timeout = record {
  binary = if is_empty binary then "cloudflared" else binary;
  startup_timeout = startup_timeout;
}

-- The case of the select that is taken.
pub data Wake : Type 0 where
  cancelled : String → Wake
  expired ticked : Wake

-- A round of the loop: the error of the dial, if it fails, and what wakes the wait after it.
pub record Round : Type 0 where
  pub dial_error : Option String
  pub wake : Wake

abbrev pub WaitResult : Type 0
WaitResult = Option (Result String (Unit {0}))

abbrev on_wake : Wake → WaitResult → WaitResult
on_wake (cancelled e) rest = some (err e)
on_wake expired rest = some (err "listener did not become ready")
on_wake ticked rest = rest

abbrev pub on_round : Round → WaitResult → WaitResult
on_round round rest = elim round.dial_error [
  | none ↦ some (ok tt)
  | some e ↦ on_wake round.wake rest
]

-- The loop from round `i` on; `none` is that the fuel has run out.
unfoldable pub wait_from : ℕ → (ℕ → Round) → ℕ → WaitResult
wait_from zero rounds i = none
wait_from (suc fuel) rounds i = let rest = wait_from fuel rounds (suc i) in on_round (rounds i) rest

unfoldable pub wait_for_listener : ℕ → (ℕ → Round) → WaitResult
unfolding wait_from
wait_for_listener fuel rounds = wait_from fuel rounds 0

-- What the process and the network do to one ping. `local_port` is the number that Sscan finds in
-- the port of the local address, if it does not fail; `wire` is the connection to a local port.
pub record Tunnel : Type 0 where
  pub listen_error : Option String
  pub local_address : String
  pub start_error : Option String
  pub rounds : ℕ → Round
  pub local_port : Result String ℕ
  pub wire : ℕ → Wire

-- What a ping does to the process, and the port that it pings.
pub data Step : Type 0 where
  started : List String → Step
  pinged : ℕ → Step
  killed : Step

-- probeError
abbrev pub probe_failed : ℕ → String → CheckResult
probe_failed now e = record {
  outcome = probe_error;
  latency = 0;
  players_online = pos 0;
  players_max = pos 0;
  detail = e;
  at = now;
}

-- `decode` is that of the ping.
module _ (decode : List ℕ → Result String (ℤ × ℤ)) (now : ℕ) (o : Tunnel) where
  abbrev on_port : Result String ℕ → CheckResult × List Step
  on_port (err e) = (probe_failed now e, [])
  on_port (ok port) = (ping_java_endpoint decode now (o.wire port), pinged port ∷ [])

  abbrev on_ready : Result String (Unit {0}) → CheckResult × List Step
  on_ready (err e) = (probe_failed now (str_append "cloudflared unavailable: " e), [])
  on_ready (ok u) = on_port o.local_port

  -- The deferred function kills the process and waits for it.
  abbrev deferred :
      List String → Option (CheckResult × List Step) → Option (CheckResult × List Step)
  deferred command none = none
  deferred command (some (result, steps)) = some (result, started command ∷ (steps ++ killed ∷ []))

  abbrev waited : WaitResult → Option (CheckResult × List Step)
  waited none = none
  waited (some ready) = some (on_ready ready)

  abbrev command_of : AccessTunnel → String → List String
  command_of t hostname =
      t.binary ∷ "access" ∷ "tcp" ∷ "--hostname" ∷ hostname ∷ "--url" ∷ o.local_address ∷ []

  -- What comes after the listener and the start of the process, each with its error.
  abbrev pub on_start :
      List String → WaitResult → Option String → Option String → Option (CheckResult × List Step)
  on_start command ready (some e) start = some (probe_failed now e, [])
  on_start command ready none (some e) =
      some (probe_failed now (str_append "start cloudflared: " e), [])
  on_start command ready none none = deferred command (waited ready)

  -- `none` is that the fuel of the wait has run out.
  unfoldable pub ping : ℕ → AccessTunnel → String → Option (CheckResult × List Step)
  unfolding wait_for_listener ping_java_endpoint
  ping fuel t hostname =
      on_start (command_of t hostname) (wait_for_listener fuel o.rounds) o.listen_error
        o.start_error
