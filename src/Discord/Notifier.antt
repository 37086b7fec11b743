-- ===== src/Discord/Notifier.antt =====
-- Notifier.StateChanged: a change is told to the channels of a server.
pub mod Prefix
use voxellink_monitor.Common.{
  ℕ, zero, suc, ◌+◌, ◌-◌, ◌*◌, ◌/◌, ◌%◌, ◌^◌, ◌≤◌, ◌<◌, bit_and, bit_or, min, max, String, ◌≡◌,
  refl, sym, ap, ◌∙◌, subst, ◌≢◌, ◌↔◌, ◌⊎◌, inl, inr, Bool, true, false, not, ◌&&◌, ◌||◌, Option,
  none, some, List, [], ◌∷◌, ◌++◌, arith, str_eq, eq_iff, Result, ok, err, Result-cases, ℤ, pos,
  negsuc, ltb, leb, ◌==◌, if◌then◌else◌, ltb→lt, leb→le, ==_iff, Bool-cases, Option-cases, length,
  take, drop, head?, filter, any, update_where, All, length-append, length-take-le,
  length-filter-le, length-update_where, is_empty, trim_prefix, trim_space, split_on, has_char,
  str_append, join, any-update_where, drop-nil, Pointwise, take-append, drop-append,
}
use voxellink_monitor.Domain.{
  PublicStatus, operational, degraded, outage, maintenance, unknown, Outcome, success, dns_failure,
  connection_refused, connect_timeout, status_timeout, connection_reset, invalid_status_response,
  probe_error, UserReportType, connection, login, timeout, lag, other, CheckResult, Server,
  ServerMember, ImportedServer, ServerSnapshot, Incident, UserReport, CrowdSignal,
  PendingStateNotification, status_eq, outcome_eq, is_failure,
}
use voxellink_monitor.Discord.Messages.{status_message}

-- A message that was taken: its channel and its text.
abbrev pub Message : Type 0
Message = String × String

-- `channels` is NotificationChannelIDs over a state `S`; `refuses` is what ChannelMessageSend says to
-- a message that it does not take. The messages that are taken are returned, in turn.
module _ {S : Type 0} (channels : String → S → Result String (List String) × S)
    (refuses : Message → Option String) where
  -- What ChannelMessageSend says decides about the channels that follow.
  abbrev pub on_sent :
      Message
      → Option String
      → Result String (Unit {0}) × List Message
      → Result String (Unit {0}) × List Message
  on_sent m (some e) later =
      (err (str_append "send channel " (str_append m.0 (str_append ": " e))), [])
  on_sent m none (r, sent) = (r, m ∷ sent)

  -- The loop over the channels.
  unfoldable pub send_all : String → List String → Result String (Unit {0}) × List Message
  send_all text [] = (ok tt, [])
  send_all text (channel ∷ rest) =
      let later = send_all text rest in on_sent (channel, text) (refuses (channel, text)) later

  abbrev on_channels :
      Server
      → PublicStatus
      → Result String (List String) × S
      → (Result String (Unit {0}) × List Message) × S
  on_channels server state (err e, s) = ((err e, []), s)
  on_channels server state (ok ids, s) = (send_all (status_message server state) ids, s)

  unfoldable pub state_changed :
      Server → PublicStatus → S → (Result String (Unit {0}) × List Message) × S
  unfolding send_all status_message
  state_changed server state s = on_channels server state (channels server.id s)
