-- ===== src/Worker/World.antt =====
-- The worker over the PostgreSQL store, with the network and the interface Notifier of
-- internal/monitor/worker.go as scripts of what they answer. What the notifier of internal/discord
-- sends in a call, to which channels, is in Discord/Notifier.
use voxellink_monitor.Common.{
  ℕ, String, Bool, true, false, not, none, List, [], ◌∷◌, Result, ok, err, pos,
}
use voxellink_monitor.Domain.{PublicStatus, connect_timeout, CheckResult, Server}
use voxellink_monitor.Store.Session.{Error, refused, Session}
use voxellink_monitor.Store.Record.{record_check}
use voxellink_monitor.Store.Servers.{enabled_servers}
use voxellink_monitor.Store.Notices.{pending_state_notifications, mark_state_notification_delivered}
use voxellink_monitor.Worker.{Services}

pub record Notice : Type 0 where
  pub server : Server
  pub state : PublicStatus
  pub result : CheckResult

-- `answers`: what the coming probes will find. `notices`: the calls of StateChanged that returned no
-- error, the newest first. `refusals`: whether the coming calls of StateChanged return an error.
-- `cancelled`: the context is done.
pub record World : Type 0 where
  pub session : Session
  pub answers : List CheckResult
  pub notices : List Notice
  pub refusals : List Bool
  pub cancelled : Bool
  pub clock : ℕ

abbrev no_answer : ℕ → CheckResult
no_answer at = record {
  outcome = connect_timeout;
  latency = 0;
  players_online = pos 0;
  players_max = pos 0;
  detail = "";
  at = at;
}

abbrev next_answer : List CheckResult → World → CheckResult × World
next_answer [] s = (no_answer s.clock, s)
next_answer (r ∷ rs) s = (r, record s { answers = rs })

abbrev deliver : List Bool → Notice → World → Result Error (Unit {0}) × World
deliver (true ∷ rs) n s = (err refused, record s { refusals = rs })
deliver (false ∷ rs) n s = (ok tt, record s { refusals = rs; notices = n ∷ s.notices })
deliver [] n s = (ok tt, record s { notices = n ∷ s.notices })

-- `f` runs in the world's session.
abbrev in_session :
    {A : Type 0} → (Session → Result Error A × Session) → World → Result Error A × World
in_session f s = let (r, session) = f s.session in (r, record s { session = session })

-- `uuid` gives what gen_random_uuid() returns in the transaction that a state begins.
unfoldable pub services : (World → String) → Services Error World
unfolding record_check enabled_servers pending_state_notifications mark_state_notification_delivered
services uuid = record {
  enabled_servers = λ s. in_session (enabled_servers s.clock) s;
  record_check = λ server result s. in_session (record_check (uuid s) s.clock server result) s;
  pending_notifications = λ limit s. in_session (pending_state_notifications limit) s;
  mark_delivered = λ id s. in_session (mark_state_notification_delivered s.clock id) s;
  state_changed = λ server state result s.
      deliver s.refusals (record { server = server; state = state; result = result }) s;
  ping_java = λ host port s. next_answer s.answers s;
  ping_tunnel = λ host port s. next_answer s.answers s;
  synchronizer = none;
  retention_of = none;
  sleep = λ s. (not s.cancelled, s);
  now = λ s. s.clock;
  quoted = λ t. t;
}
