-- ===== src/Web/Router/Visitors.antt =====
-- What a visitor, who has neither a session nor the token, can do.
use voxellink_monitor.Common.{
  ℕ, String, ◌≡◌, refl, sym, ap, ◌∙◌, subst, inl, inr, Bool, false, not, Option, none, some, List,
  [], ◌∷◌, ◌++◌, arith, str_eq, Result, ok, err, Bool-cases, Pointwise,
}
use voxellink_monitor.Domain.{Server, ServerSnapshot, UserReport, CrowdSignal}
use voxellink_monitor.Store.Tables.{Db}
use voxellink_monitor.Store.Session.{Error, violation, Session, Tx, statement, query, begin, ◌>>=◌}
use voxellink_monitor.Store.Reports.{insert_report, degrade, queue_degraded, record_user_report}
use voxellink_monitor.Store.Reports.Unique.{
  report_keeps, Degrades, same-Degrades, record_user_report-Degrades,
}
use voxellink_monitor.Store.Session.Invariants.{Leaves}
use voxellink_monitor.Store.Snapshots.{public_snapshots, public_rows, crowd_signal_now}
use voxellink_monitor.Store.Signal.{crowd_signal}
use voxellink_monitor.Discord.Bot.Reads.{alone_reads}
use voxellink_monitor.Web.Request.{Request, Config, Response, Repository, on_result}
use voxellink_monitor.Web.Session.{session_user}
use voxellink_monitor.Web.Login.{States}
use voxellink_monitor.Web.Backend.{with_uuid, report_with_uuid, backend}
use voxellink_monitor.Web.Report.{report_from, report}
use voxellink_monitor.Web.Report.Limits.{report-AtMostOne}
use voxellink_monitor.Web.Console.{bearer_matches, with_signals, home, console, update_server}
use voxellink_monitor.Web.Console.Guards.{import_server_unauthorized}
use voxellink_monitor.Web.Router.{
  Route, healthz, home_route, login_route, callback_route, console_route, report_route,
  update_route, import_route, moved, Surroundings, route, dispatch, handle,
}

-- Of the database before and after: no setting, check or incident changes, and a status stays or
-- goes from OPERATIONAL to DEGRADED.
pub record IsHarmless (before after : Db) : Type 0 where
  pub members : after.members ≡ before.members
  pub channels : after.channels ≡ before.channels
  pub windows : after.windows ≡ before.windows
  pub checks : after.checks ≡ before.checks
  pub incidents : after.incidents ≡ before.incidents
  pub statuses : Pointwise Degrades before.servers after.servers

same-IsHarmless : (before after : Db) → after ≡ before → IsHarmless before after
same-IsHarmless before after e =
    subst (λ w. IsHarmless before w) (sym e)
      (record {
        members = refl;
        channels = refl;
        windows = refl;
        checks = refl;
        incidents = refl;
        statuses = same-Degrades before.servers;
      })

-- The tables that RecordUserReport does not write.
record Rest (before w : Db) : Type 0 where
  members : w.members ≡ before.members
  channels : w.channels ≡ before.channels
  windows : w.windows ≡ before.windows
  checks : w.checks ≡ before.checks
  incidents : w.incidents ≡ before.incidents

insert_report-Rest :
    (report : UserReport) (before w : Db)
    → Rest before w
    → Leaves (Rest before) (insert_report report w)
unfolding insert_report
insert_report-Rest report before w h = ground arith

same-Rest :
    (now : ℕ) (id : String) (at : ℕ) (before w : Db)
    → Rest before w
    → Leaves (Rest before) (degrade now id at w) × Rest before (queue_degraded id at w)
unfolding degrade queue_degraded
same-Rest now id at before w h = (
  record {
    members = h.members;
    channels = h.channels;
    windows = h.windows;
    checks = h.checks;
    incidents = h.incidents;
  },
  record {
    members = h.members;
    channels = h.channels;
    windows = h.windows;
    checks = h.checks;
    incidents = h.incidents;
  },
)

record_user_report-IsHarmless :
    (now : ℕ) (report : UserReport) (s : Session)
    → IsHarmless s.stored (record_user_report now report s).1.stored
record_user_report-IsHarmless now report s =
    let kept =
      report_keeps (Rest s.stored) report (insert_report-Rest report s.stored)
        (λ n w h. (same-Rest n report.server_id report.at s.stored w h).0)
        (λ w h. (same-Rest now report.server_id report.at s.stored w h).1) now s
        (record {
          members = refl;
          channels = refl;
          windows = refl;
          checks = refl;
          incidents = refl;
        }) in
    record {
      members = kept.members;
      channels = kept.channels;
      windows = kept.windows;
      checks = kept.checks;
      incidents = kept.incidents;
      statuses = record_user_report-Degrades now report s;
    }

result_reads :
    {A : Type 0} (given : Result Error A × Session) (good : A → Session → Response × Session)
    (bad : Error → Session → Response × Session) (t : Db)
    → given.1.stored ≡ t
    → ((a : A) (s : Session) → s.stored ≡ t → (good a s).1.stored ≡ t)
    → ((e : Error) (s : Session) → s.stored ≡ t → (bad e s).1.stored ≡ t)
    → (on_result given good bad).1.stored ≡ t
result_reads (ok a, s) good bad t h g b = g a s h
result_reads (err e, s) good bad t h g b = b e s h

module _ (uuid : String → Option String) (collates : String → String → Bool)
    (importer : String → Session → Result Error Server × Session) (now : ℕ) where
  abbrev store : Repository Error Session
  store = backend uuid collates importer now

  report_with-IsHarmless :
      (id : Option String) (report : UserReport) (s : Session)
      → IsHarmless s.stored (report_with_uuid now id report s).1.stored
  unfolding begin statement ◌>>=◌
  report_with-IsHarmless none report s = same-IsHarmless _ _ (ground arith)
  report_with-IsHarmless (some id) report s =
      record_user_report-IsHarmless now (record report { server_id = id }) s

  with_uuid-reads :
      {A : Type 0} (id : Option String) (f : String → Tx A) (s : Session)
      → ((u : String) → (f u s).1.stored ≡ s.stored)
      → (with_uuid id f s).1.stored ≡ s.stored
  with_uuid-reads none f s h = alone_reads s (λ db. err violation) tt
  with_uuid-reads (some u) f s h = h u

  signal_reads : (id : String) (s : Session) → (store.crowd_signal id s).1.stored ≡ s.stored
  unfolding backend crowd_signal_now
  signal_reads id s =
      with_uuid-reads (uuid id) (crowd_signal_now now) s
        (λ u. alone_reads s (query (crowd_signal u now)) refl)

  with_signals-reads :
      (rest : List ServerSnapshot) (shown : List (ServerSnapshot × CrowdSignal)) (s : Session)
      → (with_signals store rest shown s).1.stored ≡ s.stored
  unfolding with_signals
  with_signals-reads [] shown s = refl
  with_signals-reads (v ∷ rest) shown s =
      result_reads (store.crowd_signal v.server.id s) _ _ s.stored (signal_reads v.server.id s)
        (λ signal s' h. with_signals-reads rest (shown ++ (v, signal) ∷ []) s' ∙ h) (λ e s' h. h)

  listed_reads : (s : Session) → (store.public_snapshots s).1.stored ≡ s.stored
  unfolding backend public_snapshots
  listed_reads s = alone_reads s (query (public_rows collates now)) refl

  home-reads : (r : Request) (s : Session) → (home store r s).1.stored ≡ s.stored
  unfolding home
  home-reads r s = elim (Bool-cases (not (str_eq r.path "/"))) [
    | inl e ↦ rw e refl
    | inr e ↦ rw e (
        result_reads (store.public_snapshots s) _ _ s.stored (listed_reads s)
          (λ servers s' h. with_signals-reads servers [] s' ∙ h) (λ e s' h. h))
  ]

  report-IsHarmless :
      (sha256_hex : String → String) (format_day : ℕ → String) (config : Config) (at : ℕ)
      (r : Request) (s : Session)
      → IsHarmless s.stored (report sha256_hex format_day config store at r s).1.stored
  report-IsHarmless sha256_hex format_day config at r s =
      elim (report-AtMostOne sha256_hex format_day config store at r s) [
        | inl e ↦ same-IsHarmless _ _ (ap (λ t. t.stored) e)
        | inr (id, kind, detail, _, both) ↦
            subst (λ t. IsHarmless s.stored t.stored) (sym both.0)
              (unfold backend in
                report_with-IsHarmless (uuid id)
                  (report_from sha256_hex format_day config at r id kind detail) s)
      ]

  module _ (o : Surroundings) (config : Config) (r : Request) (states : States) (s : Session)
      (no_session : session_user o.signer config.session_secret o.now r.cookie ≡ none)
      (no_token : bearer_matches r.authorization config.integration_token ≡ false) where
    turned_away :
        ((console store none s).1.stored ≡ s.stored)
        × ((update_server store o.parse_minute none r s).1.stored ≡ s.stored)
    unfolding console update_server
    turned_away = (refl, refl)

    dispatch-IsHarmless :
        (to : Route) → IsHarmless s.stored (dispatch o config store to r states s).2.stored
    unfolding dispatch
    dispatch-IsHarmless healthz = same-IsHarmless _ _ refl
    dispatch-IsHarmless home_route = same-IsHarmless _ _ (home-reads r s)
    dispatch-IsHarmless login_route = same-IsHarmless _ _ refl
    dispatch-IsHarmless callback_route = same-IsHarmless _ _ refl
    dispatch-IsHarmless console_route = same-IsHarmless _ _ (rw no_session turned_away.0)
    dispatch-IsHarmless report_route = report-IsHarmless o.sha256_hex o.format_day config o.now r s
    dispatch-IsHarmless update_route = same-IsHarmless _ _ (rw no_session turned_away.1)
    dispatch-IsHarmless import_route =
        same-IsHarmless _ _
          (ap (λ t. t.stored) (import_server_unauthorized store config r s no_token).0)
    dispatch-IsHarmless (moved path) = same-IsHarmless _ _ refl

    -- Whatever a visitor without a valid session and without the token asks, and whichever calls
    -- fail, the members, the channels, the maintenance windows, the checks and the incidents stay as
    -- they are, and the status of each server stays or goes from OPERATIONAL to DEGRADED.
    pub handle-IsHarmless : IsHarmless s.stored (handle o config store r states s).2.stored
    unfolding handle
    handle-IsHarmless = dispatch-IsHarmless (route r.path)
