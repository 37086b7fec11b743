-- ===== src/Web/Report/Spelling.antt =====
-- What the store makes of a report, and what the page does.
use voxellink_monitor.Common.{
  ℕ, ◌≤◌, ◌<◌, String, ◌≡◌, refl, ap, ◌∙◌, Bool, true, false, Option, some, [], ◌∷◌, arith, str_eq,
  Result, ok, ltb, any, is_empty, trim_prefix, trim_space, split_on, any-update_where,
}
use voxellink_monitor.Domain.{degraded, UserReportType, Server, UserReport, CrowdSignal}
use Prim.Native.String.{len, count}
use voxellink_monitor.Store.Tables.{ServerRow, Db, server_exists}
use voxellink_monitor.Store.Session.{Error, Session, connected}
use voxellink_monitor.Store.Reports.{
  same_reporter, report_row, degradable, queue_degraded, record_user_report,
}
use voxellink_monitor.Store.Reports.Dedup.{with_report, reported, record_user_report_lem}
use voxellink_monitor.Web.Request.{Request, Config, Response, failure, redirect, Repository}
use voxellink_monitor.Web.Report.{report_type_of, report_from, on_detail, report}
use voxellink_monitor.Web.Backend.{backend}

-- The request is a well-formed report about what it spells as `id`.
pub record IsReport (r : Request) (id : String) (form : String → String) (kind : UserReportType)
    : Type 0 where
  pub parts : split_on b'/' (trim_prefix "/servers/" r.path) ≡ id ∷ "reports" ∷ []
  pub has_id : is_empty id ≡ false
  pub posted : r.method ≡ "POST"
  pub formed : r.form ≡ some form
  pub chosen : report_type_of (form "report_type") ≡ some kind

module _ (sha256_hex : String → String) (format_day : ℕ → String) (config : Config) {E S : Type 0}
    (w : Repository E S) (now : ℕ) (r : Request) (id : String) (form : String → String)
    (kind : UserReportType) (good : IsReport r id form kind) where
  report-IsReport :
      (s : S)
      → report sha256_hex format_day config w now r s
        ≡ on_detail sha256_hex format_day config w now r id kind (trim_space (form "detail")) s
  unfolding report
  report-IsReport s = rw (good.parts, good.has_id, good.posted, good.formed, good.chosen) refl

module _ (sha256_hex : String → String) (format_day : ℕ → String) (config : Config)
    (uuid : String → Option String) (collates : String → String → Bool)
    (importer : String → Session → Result Error Server × Session) (now : ℕ) where
  abbrev pub page : Request → Session → Response × Session
  page = report sha256_hex format_day config (backend uuid collates importer now) now

  -- The report as the store has it.
  abbrev pub filed : Request → String → String → UserReportType → String → UserReport
  filed r id u kind detail =
      record (report_from sha256_hex format_day config now r id kind detail) { server_id = u }

  -- A report whose detail has at most 280 characters but more than 280 bytes is refused by the page,
  -- though the store would take it.
  pub long_in_bytes :
      (r : Request) (id u : String) (form : String → String) (kind : UserReportType) (db : Db)
      → IsReport r id form kind
      → uuid id ≡ some u
      → server_exists u db ≡ true
      → let detail = trim_space (form "detail") in
        count detail ≤ 280
        → 280 < len detail
        → (page r (connected db) ≡ (failure 400 "report is too long", connected db))
          × ((signal : CrowdSignal) × ((record_user_report now
                  (filed r id u kind detail)
                  (connected db)).0
                ≡ ok signal))
  long_in_bytes r id u form kind db good spelled known short long =
      let detail = trim_space (form "detail") in
      let over : ltb 280 (len detail) ≡ true = ground arith in
      (
        report-IsReport sha256_hex format_day config (backend uuid collates importer now) now r id
              form kind good (connected db)
            ∙ rw over,
        (
          _,
          ap (λ (x : Result Error CrowdSignal × Session). x.0)
              (record_user_report_lem now (filed r id u kind detail) db known short),
        ),
      )

  fresh_report :
      (k : UserReport) (db : Db)
      → any (same_reporter k) db.reports ≡ false
      → (reported now k db).reports ≡ report_row k ∷ db.reports
  unfolding reported queue_degraded
  fresh_report k db fresh = ground arith

  known_after :
      (k : UserReport) (u : String) (db : Db)
      → server_exists u (reported now k db) ≡ server_exists u db
  unfolding reported queue_degraded
  known_after k u db = ground (
    arith,
    any-update_where (degradable k.server_id) (λ (s : ServerRow). str_eq s.id u)
        (λ (s : ServerRow). record s {
          status = degraded;
          status_changed_at = k.at;
          updated_at = now;
        })
        (with_report k db).servers (λ s. refl),
  )

  -- A report that the page takes reaches the store.
  page_files :
      (r : Request) (id u : String) (form : String → String) (kind : UserReportType) (db : Db)
      → IsReport r id form kind
      → uuid id ≡ some u
      → server_exists u db ≡ true
      → len (trim_space (form "detail")) ≤ 280
      → count (trim_space (form "detail")) ≤ 280
      → page r (connected db) ≡ (
        redirect 303 "/",
        connected (reported now (filed r id u kind (trim_space (form "detail"))) db),
      )
  unfolding backend
  page_files r id u form kind db good spelled known fits short =
      let detail = trim_space (form "detail") in
      let under : ltb 280 (len detail) ≡ false = ground arith in
      report-IsReport sha256_hex format_day config (backend uuid collates importer now) now r id
        form kind good (connected db)
      ∙ rw (under, spelled, record_user_report_lem now (filed r id u kind detail) db known short)
          refl

  -- One client sends one report twice, with the id of the server spelled in two ways that the store
  -- reads as the same uuid. If the digests differ, and neither has reported, both reports count.
  pub respelled_counts_twice :
      (r : Request) (path a b u : String) (form : String → String) (kind : UserReportType) (db : Db)
      → let detail = trim_space (form "detail") in
        let again = record r { path = path } in
        let first = filed r a u kind detail in
        let second = filed again b u kind detail in
        IsReport r a form kind
        → IsReport again b form kind
        → uuid a ≡ some u
        → uuid b ≡ some u
        → server_exists u db ≡ true
        → len detail ≤ 280
        → count detail ≤ 280
        → str_eq first.reporter_hash second.reporter_hash ≡ false
        → any (same_reporter first) db.reports ≡ false
        → any (same_reporter second) db.reports ≡ false
        → (page again (page r (connected db)).1).1.stored.reports
          ≡ report_row second ∷ report_row first ∷ db.reports
  respelled_counts_twice r path a b u form kind db good₁ good₂ e₁ e₂ known fits short differ new₁
        new₂ =
      let detail = trim_space (form "detail") in
      let again = record r { path = path } in
      let first = filed r a u kind detail in
      let second = filed again b u kind detail in
      let db₁ = reported now first db in
      let here : server_exists u db₁ ≡ true = known_after first u db ∙ known in
      let rows : db₁.reports ≡ report_row first ∷ db.reports = fresh_report first db new₁ in
      let new : any (same_reporter second) db₁.reports ≡ false = rw rows (ground arith) in
      rw
        (
          page_files r a u form kind db good₁ e₁ known fits short,
          page_files again b u form kind db₁ good₂ e₂ here fits short,
          fresh_report second db₁ new,
          rows,
        )
        refl
