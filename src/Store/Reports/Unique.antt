-- ===== src/Store/Reports/Unique.antt =====
-- What RecordUserReport never breaks, whichever of its calls fail.
use voxellink_monitor.Common.{
  ℕ, String, ◌≡◌, refl, ◌⊎◌, inl, Bool, true, false, ◌&&◌, List, [], ◌∷◌, arith, str_eq, ◌==◌,
  if◌then◌else◌, any, update_where, Pointwise,
}
use voxellink_monitor.Domain.{operational, degraded, UserReport}
use voxellink_monitor.Store.Tables.{ServerRow, ReportRow, Db}
use voxellink_monitor.Store.Session.{Session}
use voxellink_monitor.Store.Session.Invariants.{Leaves, begun, maintain_rules}
use voxellink_monitor.Store.Reports.{
  same_reporter, insert_report, degradable, degrade, queue_degraded, degrade_and_queue,
  record_user_report,
}

-- No two rows are of one reporter, server and day.
abbrev pub same_key : ReportRow → ReportRow → Bool
same_key a r =
    str_eq r.server_id a.server_id
    && (str_eq r.reporter_hash a.reporter_hash && r.reported_day == a.reported_day)

abbrev pub IsUnique : List ReportRow → Type 0
IsUnique [] = Unit
IsUnique (r ∷ rs) = (any (same_key r) rs ≡ false) × IsUnique rs

-- What each statement of the transaction keeps, the transaction keeps.
module _ (P : Db → Type 0) (report : UserReport)
    (insert_keeps : (w : Db) → P w → Leaves P (insert_report report w))
    (degrade_keeps : (now : ℕ) (w : Db) → P w → Leaves P (degrade now report.server_id report.at w))
    (queue_keeps : (w : Db) → P w → P (queue_degraded report.server_id report.at w)) where
  pub report_keeps :
      (now : ℕ) (s : Session) → P s.stored → P (record_user_report now report s).1.stored
  unfolding record_user_report degrade_and_queue
  report_keeps now = begun {P = P} _ (λ u.
      search (maintain_rules, insert_keeps, degrade_keeps, queue_keeps, λ (w : Db) (h : P w). h)
        depth 16)

module _ (P : List ReportRow → Type 0) (report : UserReport) where
  abbrev HasReports : Db → Type 0
  HasReports w = P w.reports

  pub reports_keep :
      ((w : Db) → HasReports w → Leaves HasReports (insert_report report w))
      → (now : ℕ) (s : Session) → P s.stored.reports
      → P (record_user_report now report s).1.stored.reports
  unfolding degrade queue_degraded
  reports_keep keep = report_keeps HasReports report keep (λ now w h. h) (λ w h. h)

insert_report-IsUnique :
    (report : UserReport) (w : Db)
    → IsUnique w.reports
    → Leaves (HasReports IsUnique report) (insert_report report w)
unfolding insert_report
insert_report-IsUnique report w u = ground arith

-- Whichever calls fail, RecordUserReport leaves the reports unique by reporter, server and day.
pub record_user_report-IsUnique :
    (now : ℕ) (report : UserReport) (s : Session)
    → IsUnique s.stored.reports
    → IsUnique (record_user_report now report s).1.stored.reports
record_user_report-IsUnique now report =
    reports_keep IsUnique report (insert_report-IsUnique report) now

insert_again :
    (report : UserReport) (rows : List ReportRow) (w : Db)
    → any (same_reporter report) rows ≡ true
    → w.reports ≡ rows
    → Leaves (λ (v : Db). v.reports ≡ rows) (insert_report report w)
unfolding insert_report
insert_again report rows w known e =
    let again : any (same_reporter report) w.reports ≡ true = rw e known in ground arith

-- A report of a reporter who has reported the server on the same day leaves the table of reports as
-- it is, whichever calls fail.
pub record_user_report_again :
    (now : ℕ) (report : UserReport) (s : Session)
    → any (same_reporter report) s.stored.reports ≡ true
    → (record_user_report now report s).1.stored.reports ≡ s.stored.reports
record_user_report_again now report s known =
    reports_keep (λ (rows : List ReportRow). rows ≡ s.stored.reports) report
      (λ w e. insert_again report s.stored.reports w known e) now s refl

-- A status stays, or goes from OPERATIONAL to DEGRADED.
abbrev pub Degrades : ServerRow → ServerRow → Type 0
Degrades s t = (s.status ≡ t.status) ⊎ ((s.status ≡ operational) × (t.status ≡ degraded))

pub same-Degrades : (rows : List ServerRow) → Pointwise Degrades rows rows
same-Degrades [] = tt
same-Degrades (s ∷ rest) = (inl refl, same-Degrades rest)

degraded_row-Degrades :
    (id : String) (now at : ℕ) (s t : ServerRow)
    → Degrades s t
    → Degrades s (
        if degradable id t
        then record t { status = degraded; status_changed_at = at; updated_at = now }
        else t)
degraded_row-Degrades id now at s t h = ground arith

degraded-Degrades :
    (id : String) (now at : ℕ) (before rows : List ServerRow)
    → Pointwise Degrades before rows
    → Pointwise Degrades before (
        update_where
          (degradable id)
          (λ (s : ServerRow). record s {
            status = degraded;
            status_changed_at = at;
            updated_at = now;
          })
          rows)
degraded-Degrades id now at [] [] h = tt
degraded-Degrades id now at [] (t ∷ rows) h = elim h [ ]
degraded-Degrades id now at (s ∷ before) [] h = elim h [ ]
degraded-Degrades id now at (s ∷ before) (t ∷ rows) (h, k) =
    (degraded_row-Degrades id now at s t h, degraded-Degrades id now at before rows k)

insert_report-Degrades :
    (report : UserReport) (before : List ServerRow) (w : Db)
    → Pointwise Degrades before w.servers
    → Leaves (λ (v : Db). Pointwise Degrades before v.servers) (insert_report report w)
unfolding insert_report
insert_report-Degrades report before w h = ground arith

-- Whichever calls fail, RecordUserReport leaves the status of every server row as it was, or takes
-- it from OPERATIONAL to DEGRADED.
pub record_user_report-Degrades :
    (now : ℕ) (report : UserReport) (s : Session)
    → Pointwise Degrades s.stored.servers (record_user_report now report s).1.stored.servers
unfolding degrade queue_degraded
record_user_report-Degrades now report s =
    report_keeps (λ (w : Db). Pointwise Degrades s.stored.servers w.servers) report
      (insert_report-Degrades report s.stored.servers)
      (λ now w h. degraded-Degrades report.server_id now report.at s.stored.servers w.servers h)
      (λ w h. h) now s (same-Degrades s.stored.servers)
