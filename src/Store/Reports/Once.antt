-- ===== src/Store/Reports/Once.antt =====
-- A report adds at most one row, and only a new one.
use voxellink_monitor.Common.{
  ℕ, ◌/◌, String, ◌≡◌, refl, ap, subst, ◌⊎◌, inl, inr, Bool, true, false, ◌&&◌, List, ◌∷◌, str_eq,
  ltb, ◌==◌, ==_iff, Bool-cases, any,
}
use voxellink_monitor.Domain.{UserReport}
use text.Mathlib.TextPositions.{eq_refl}
use Prim.Native.String.{count}
use voxellink_monitor.Store.Tables.{ReportRow, Db, day, server_exists}
use voxellink_monitor.Store.Session.{Session}
use voxellink_monitor.Store.Session.Invariants.{Leaves}
use voxellink_monitor.Store.Reports.{same_reporter, report_row, insert_report, record_user_report}
use voxellink_monitor.Store.Reports.Unique.{reports_keep}

-- A row of a reporter, a server and a day.
abbrev pub is_of : String → String → ℕ → ReportRow → Bool
is_of id hash on_day r =
    str_eq r.server_id id && (str_eq r.reporter_hash hash && r.reported_day == on_day)

abbrev pub counted_row : UserReport → ReportRow
counted_row k = record {
  server_id = k.server_id;
  reported_at = k.at;
  reported_day = k.at / day;
  report_type = k.kind;
  reporter_hash = k.reporter_hash;
  detail = k.detail;
}

-- The table of reports stays, or has the report as its new row, which is the first of its reporter
-- on the server and day.
abbrev pub CountsOnce : List ReportRow → UserReport → List ReportRow → Type 0
CountsOnce before k rows =
    (rows ≡ before)
    ⊎ ((any (is_of k.server_id k.reporter_hash (k.at / day)) before ≡ false)
        × (rows ≡ counted_row k ∷ before))

row_known :
    (before : List ReportRow) (k : UserReport)
    → any (same_reporter k) (report_row k ∷ before) ≡ true
row_known before k =
    rw (eq_refl k.server_id, eq_refl k.reporter_hash, (==_iff (k.at / day) (k.at / day)).1 refl)
      refl

-- A report that is known changes no row.
known_kept :
    (before : List ReportRow) (k : UserReport) (w : Db)
    → any (same_reporter k) w.reports ≡ true
    → CountsOnce before k w.reports
    → Leaves (λ (v : Db). CountsOnce before k v.reports) (insert_report k w)
unfolding insert_report
known_kept before k w there h = elim (Bool-cases (ltb 280 (count k.detail))) [
  | inl long ↦ rw long tt
  | inr short ↦ rw (short, there) h
]

new_kept :
    (before : List ReportRow) (k : UserReport) (w : Db)
    → any (same_reporter k) w.reports ≡ false
    → w.reports ≡ before
    → Leaves (λ (v : Db). CountsOnce before k v.reports) (insert_report k w)
unfolding insert_report
new_kept before k w new e = elim (Bool-cases (ltb 280 (count k.detail))) [
  | inl long ↦ rw long tt
  | inr short ↦ elim (Bool-cases (server_exists k.server_id w)) [
    | inl there ↦
        rw (short, new, there)
          (inr (
            subst (λ (rows : List ReportRow). any (same_reporter k) rows ≡ false) e new,
            ap (λ (rows : List ReportRow). report_row k ∷ rows) e,
          ))
    | inr gone ↦ rw (short, new, gone) tt
  ]
]

insert-CountsOnce :
    (before : List ReportRow) (k : UserReport) (w : Db)
    → CountsOnce before k w.reports
    → Leaves (λ (v : Db). CountsOnce before k v.reports) (insert_report k w)
insert-CountsOnce before k w (inl e) = elim (Bool-cases (any (same_reporter k) w.reports)) [
  | inl there ↦ known_kept before k w there (inl e)
  | inr new ↦ new_kept before k w new e
]
insert-CountsOnce before k w (inr (fresh, e)) =
    known_kept before k w (rw e (row_known before k)) (inr (fresh, e))

-- From reports like those before, RecordUserReport leaves such ones, whichever of its calls fail.
pub record_user_report-CountsOnce :
    (before : List ReportRow) (now : ℕ) (k : UserReport) (s : Session)
    → s.stored.reports ≡ before
    → CountsOnce before k (record_user_report now k s).1.stored.reports
record_user_report-CountsOnce before now k s e =
    reports_keep (CountsOnce before k) k (insert-CountsOnce before k) now s (inl e)
