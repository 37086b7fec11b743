-- ===== src/Scenarios/Commands.antt =====
-- Commands and notices on Discord, and a probe through a tunnel.
use voxellink_monitor.Common.{
  ℕ, ◌+◌, ◌*◌, String, ◌≡◌, refl, true, Option, none, some, List, [], ◌∷◌, arith, str_eq, Result,
  ok, err, ℤ, pos, ◌==◌, if◌then◌else◌,
}
use voxellink_monitor.Domain.{operational, outage, CheckResult}
use voxellink_monitor.Store.Tables.{day}
use voxellink_monitor.Store.Session.{connected}
use voxellink_monitor.Minecraft.Ping.{Wire}
use voxellink_monitor.Transport.{
  AccessTunnel, expired, ticked, Round, Tunnel, Step, new_access_tunnel, ping,
}
use voxellink_monitor.Transport.Ready.{IsClean, ping-IsClean}
use voxellink_monitor.Discord.Messages.{Printer}
use voxellink_monitor.Discord.Notifier.{Message, state_changed}
use voxellink_monitor.Discord.Notifier.Prefix.{Tells, state_changed-Tells}
use voxellink_monitor.Discord.Bot.{Interaction, handle_interaction}
use voxellink_monitor.Discord.Backend.{queries}
use voxellink_monitor.Discord.Bot.Counts.{Counts, handle_interaction-Counts}
use voxellink_monitor.Discord.Bot.Answers.{IsAnswered, handle_interaction-IsAnswered}
use voxellink_monitor.Scenarios.Data.{lobby, with_lobby}

abbrev silent : Wire
silent = record {
  dial_error = none;
  handshake_error = none;
  request_error = none;
  incoming = [];
  read_error = "EOF";
  elapsed = 0;
}

-- The listener is not there at first; in the fourth round the deadline is over.
abbrev never_ready : ℕ → Round
never_ready n = record { dial_error = some "refused"; wake = if n == 3 then expired else ticked }

abbrev slow_tunnel : Tunnel
slow_tunnel = record {
  listen_error = none;
  local_address = "127.0.0.1:40000";
  start_error = none;
  rounds = never_ready;
  local_port = ok 40000;
  wire = λ port. silent;
}

abbrev no_players : List ℕ → Result String (ℤ × ℤ)
no_players body = err "no JSON"

abbrev cloudflared : AccessTunnel
cloudflared = new_access_tunnel "" (pos 300000000)

ping-IsClean_example :
    (given : CheckResult × List Step) × (ping no_players day slow_tunnel 4 cloudflared
        "play.example"
      ≡ some given)
    × IsClean no_players day slow_tunnel cloudflared "play.example" given
ping-IsClean_example =
    ping-IsClean no_players day slow_tunnel cloudflared "play.example" 3 4 refl (omega arith)

-- A server with two channels, of which Discord refuses the second.
abbrev two_channels : String → ℕ → Result String (List String) × ℕ
two_channels id s = (ok ("c1" ∷ "c2" ∷ []), s + 1)

abbrev refuses_second : Message → Option String
refuses_second m = if str_eq m.0 "c2" then some "403" else none

state_changed-Tells_example :
    Tells two_channels refuses_second
      (lobby operational)
      outage
      (two_channels "u1" 0)
      (state_changed two_channels refuses_second (lobby operational) outage 0)
state_changed-Tells_example =
    state_changed-Tells two_channels refuses_second (lobby operational) outage 0

abbrev printer : Printer
printer = record { number = λ n. ""; minute = λ t. ""; percent = λ p. "" }

abbrev report_command : Interaction
report_command = record {
  is_command = true;
  name = "report";
  options = ("type", "LAG") ∷ ("server", "lobby") ∷ [];
  channel_id = "c9";
  member = some "d7";
}

abbrev plain_digest : String → String
plain_digest text = text

handle_interaction-Counts_example :
    Counts plain_digest printer "" (30 * day) report_command (connected (with_lobby operational)) (
      handle_interaction plain_digest printer
        (queries (30 * day))
        ""
        (30 * day)
        report_command
        (connected (with_lobby operational)))
handle_interaction-Counts_example =
    handle_interaction-Counts plain_digest printer "" (30 * day) report_command
      (connected (with_lobby operational))

handle_interaction-IsAnswered_example : IsAnswered (
    handle_interaction plain_digest printer
      (queries (30 * day))
      ""
      (30 * day)
      report_command
      (connected (with_lobby operational)))
handle_interaction-IsAnswered_example =
    handle_interaction-IsAnswered plain_digest printer (queries (30 * day)) "" (30 * day)
      report_command (connected (with_lobby operational)) refl refl refl
