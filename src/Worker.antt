-- ===== src/Worker.antt =====
-- internal/monitor/worker.go: the scheduler that observes every enabled server, records what it
-- saw, and has changes announced.
pub mod World
pub mod Setup
pub mod Outage
pub mod Recovery
pub mod Confirm
pub mod Dispatch
use voxellink_monitor.Common.{
  ℕ, zero, suc, ◌+◌, ◌-◌, ◌*◌, ◌/◌, ◌%◌, ◌^◌, ◌≤◌, ◌<◌, bit_and, bit_or, min, max, String, ◌≡◌,
  refl, sym, ap, ◌∙◌, subst, ◌≢◌, ◌↔◌, ◌⊎◌, inl, inr, Bool, true, false, not, ◌&&◌, ◌||◌, Option,
  none, some, List, [], ◌∷◌, ◌++◌, arith, str_eq, eq_iff, Result, ok, err, Result-cases, ℤ, pos,
  negsuc, ltb, leb, ◌==◌, if◌then◌else◌, ltb→lt, leb→le, ==_iff, Bool-cases, Option-cases, length,
  take, drop, head?, filter, any, update_where, All, length-append, length-take-le,
  length-filter-le, length-update_where, is_empty,
}
use voxellink_monitor.Domain.{
  PublicStatus, operational, degraded, outage, maintenance, unknown, Outcome, success, dns_failure,
  connection_refused, connect_timeout, status_timeout, connection_reset, invalid_status_response,
  probe_error, UserReportType, connection, login, timeout, lag, other, CheckResult, Server,
  ServerMember, ImportedServer, UserReport, CrowdSignal, PendingStateNotification, status_eq,
  outcome_eq, is_failure,
}
use Prim.Native.String.{◌++◌ as str_append}

-- What the worker calls: the repository, the notifier, the two probes, the synchronizer, and the
-- clock. `S` is the state of all of them together.
pub record Services (E S : Type 0) : Type 0 where
  pub enabled_servers : S → Result E (List Server) × S
  pub record_check : Server → CheckResult → S → Result E (Bool × PublicStatus) × S
  pub pending_notifications : ℕ → S → Result E (List PendingStateNotification) × S
  pub mark_delivered : ℕ → S → Result E (Unit {0}) × S
  pub state_changed : Server → PublicStatus → CheckResult → S → Result E (Unit {0}) × S
  pub ping_java : String → ℕ → S → CheckResult × S
  pub ping_tunnel : String → ℕ → S → CheckResult × S
  -- none: the worker has no synchronizer, or the repository no retention
  pub synchronizer : Option (S → Result E (Unit {0}) × S)
  pub retention_of : Option (S → Result E (Unit {0}) × S)
  -- false: the context was cancelled before the time had passed
  pub sleep : S → Bool × S
  pub now : S → ℕ
  pub quoted : String → String

module _ {E S : Type 0} (w : Services E S) where
  unfoldable pub probe : Server → S → CheckResult × S
  probe server s =
      if str_eq server.transport "DIRECT" || str_eq server.transport "CLOUDFLARE_SPECTRUM"
      then w.ping_java server.hostname server.port s
      else if str_eq server.transport "CLOUDFLARE_TUNNEL"
      then w.ping_tunnel server.hostname server.port s
      else (
        record {
          outcome = probe_error;
          latency = 0;
          players_online = pos 0;
          players_max = pos 0;
          detail = str_append "unsupported transport " (w.quoted server.transport);
          at = w.now s;
        },
        s,
      )

  -- A failure to send is logged only.
  unfoldable pub notify : Bool → Server → PublicStatus → CheckResult → S → S
  notify changed server state result s =
      if changed then (w.state_changed server state result s).1 else s

  abbrev pause : (S → S) → Bool × S → S
  pause again (true, s) = again s
  pause again (false, s) = s

  -- What follows RecordCheck in one round of `check`; `again` is the next round.
  unfoldable pub after_record :
      ℕ → Server → CheckResult → (Server → S → S) → Result E (Bool × PublicStatus) × S → S
  unfolding notify
  after_record attempt server result again (err e, s) = s
  after_record attempt server result again (ok (changed, state), s) =
      let s' = notify changed server state result s in
      if status_eq state maintenance
      then s'
      else if outcome_eq result.outcome probe_error
          || (outcome_eq result.outcome success && not (status_eq server.status outage))
      then s'
      else if outcome_eq result.outcome success && (status_eq server.status outage && attempt == 1)
      then s'
      else if attempt == 2
      then s'
      else pause (again (record server { status = state })) (w.sleep s')

  -- The rounds that are left, and the number of this one.
  unfoldable pub check_from : ℕ → ℕ → Server → S → S
  unfolding probe after_record
  check_from zero attempt server s = s
  check_from (suc left) attempt server s =
      let (result, s') = probe server s in
      after_record attempt server result (check_from left (attempt + 1))
        (w.record_check server result s')

  unfoldable pub check : Server → S → S
  unfolding check_from
  check = check_from 3 0

  check_all : List Server → S → S
  check_all [] s = s
  check_all (server ∷ rest) s = check_all rest (check server s)

  abbrev check_listed : Result E (List Server) × S → S
  check_listed (err e, s) = s
  check_listed (ok servers, s) = check_all servers s

  -- An error is logged by the caller.
  unfoldable pub run_once : S → S
  unfolding check check_all
  run_once s = check_listed (w.enabled_servers s)

  -- A notification that was sent is acknowledged, one that was not stays in the queue.
  abbrev acknowledge : ℕ → Result E (Unit {0}) × S → S
  acknowledge id (ok _, s) = (w.mark_delivered id s).1
  acknowledge id (err e, s) = s

  unfoldable pub dispatch_all : List PendingStateNotification → S → S
  dispatch_all [] s = s
  dispatch_all (item ∷ rest) s =
      dispatch_all rest (acknowledge item.id (w.state_changed item.server item.state item.result s))

  abbrev dispatch_listed : Result E (List PendingStateNotification) × S → S
  dispatch_listed (err e, s) = s
  dispatch_listed (ok pending, s) = dispatch_all pending s

  unfoldable pub dispatch_pending : S → S
  unfolding dispatch_all
  dispatch_pending s = dispatch_listed (w.pending_notifications 100 s)

-- What the three tickers deliver, in the order in which the loop takes it.
pub data Tick : Type 0 where
  pass retention synchronize : Tick

abbrev run_option : {E S : Type 0} → Option (S → Result E (Unit {0}) × S) → S → S
run_option none s = s
run_option (some f) s = (f s).1

module _ {E S : Type 0} (w : Services E S) where
  -- Both are logged, and neither stops the loop.
  unfoldable pub sync_voxellink : S → S
  sync_voxellink = run_option w.synchronizer

  unfoldable pub run_retention : S → S
  run_retention = run_option w.retention_of

  unfoldable pub on_tick : Tick → S → S
  unfolding sync_voxellink run_retention run_once dispatch_pending
  on_tick pass s = dispatch_pending w (run_once w s)
  on_tick retention s = run_retention s
  on_tick synchronize s = sync_voxellink s

  run_ticks : List Tick → S → S
  unfolding on_tick
  run_ticks [] s = s
  run_ticks (t ∷ ts) s = run_ticks ts (on_tick t s)

  -- The list ends where the context is done.
  unfoldable pub run : List Tick → S → S
  unfolding run_ticks
  run ticks s = run_ticks ticks (dispatch_pending w (run_once w (sync_voxellink (run_retention s))))
