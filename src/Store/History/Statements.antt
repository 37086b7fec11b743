-- ===== src/Store/History/Statements.antt =====
-- The statements of the other writes of postgres.go: servers in OUTAGE and their incidents.
use voxellink_monitor.Common.{
  ℕ, String, ◌≡◌, refl, sym, subst, inl, inr, Bool, true, List, [], ◌∷◌, arith, Result, ok, err,
  Bool-cases, any, update_where,
}
use voxellink_monitor.Domain.{outage, ServerMember, ImportedServer, UserReport, status_eq}
use voxellink_monitor.Store.Tables.{ServerRow, IncidentRow, Db}
use voxellink_monitor.Store.Record.{is_open}
use voxellink_monitor.Store.Session.{
  Session, Error, alone, continue, answer_alone, next_fault, later_faults, change, ◌>>=◌,
}
use voxellink_monitor.Store.Session.Invariants.{
  Leaves, Maintains, pure-Maintains, statement-Maintains, bind-Maintains, begun, maintain_rules,
}
use voxellink_monitor.Store.Record.Shown.{HasOpen, IsShown}
use voxellink_monitor.Store.Reports.{
  insert_report, degradable, degrade, queue_degraded, record_user_report,
}
use voxellink_monitor.Store.Reports.Unique.{report_keeps}
use voxellink_monitor.Store.Notices.{mark_row, mark_state_notification_delivered}
use voxellink_monitor.Store.Imports.{
  is_listing, relisted, upsert_row, delete_members, insert_member, insert_members,
  upsert_voxellink_server,
}
use voxellink_monitor.Store.Owner.{
  managed, set_enabled, set_channel, put_channel, add_window, one_row,
  set_enabled_for_discord_member, set_notification_channel_for_discord_member,
  schedule_maintenance_for_discord_member,
}

-- An update that takes no row to OUTAGE.
update-HasOpen :
    (p : ServerRow → Bool) (f : ServerRow → ServerRow) (incidents : List IncidentRow)
    (rows : List ServerRow)
    → ((s : ServerRow)
        → p s ≡ true
        → status_eq (f s).status outage ≡ true
        → (status_eq s.status outage ≡ true) × ((f s).id ≡ s.id))
    → HasOpen incidents rows
    → HasOpen incidents (update_where p f rows)
update-HasOpen p f incidents [] same h = tt
update-HasOpen p f incidents (s ∷ rows) same (h, k) = (
  elim (Bool-cases (p s)) [
    | inl e ↦ rw e (λ down.
        let (d, i) = same s e down in subst (λ id. any (is_open id) incidents ≡ true) (sym i) (h d))
    | inr e ↦ rw e h
  ],
  update-HasOpen p f incidents rows same k,
)

insert_report-IsShown :
    (report : UserReport) (w : Db) → IsShown w → Leaves IsShown (insert_report report w)
unfolding insert_report
insert_report-IsShown report w h = ground arith

degrade-IsShown :
    (id : String) (at now : ℕ) (w : Db) → IsShown w → Leaves IsShown (degrade now id at w)
unfolding degrade
degrade-IsShown id at now w (h, u) =
    (update-HasOpen (degradable id) _ w.incidents w.servers (λ s e down. cc) h, u)

pub record_user_report-IsShown :
    (now : ℕ) (report : UserReport) (s : Session)
    → IsShown s.stored
    → IsShown (record_user_report now report s).1.stored
unfolding queue_degraded
record_user_report-IsShown now report s h =
    report_keeps IsShown report (insert_report-IsShown report)
      (degrade-IsShown report.server_id report.at) (λ w k. k) now s h

upsert_row-IsShown :
    (uuid : String) (now : ℕ) (i : ImportedServer) (w : Db)
    → IsShown w
    → Leaves IsShown (upsert_row uuid now i w)
unfolding upsert_row
upsert_row-IsShown uuid now i w (h, u) =
    let again =
      update-HasOpen (is_listing i.external_id) (relisted now i) w.incidents w.servers
        (λ s e down. (down, refl)) h in
    ground arith

insert_member-IsShown :
    (id : String) (m : ServerMember) (w : Db) → IsShown w → Leaves IsShown (insert_member id m w)
unfolding insert_member
insert_member-IsShown id m w h = ground arith

insert_members-IsShown :
    (id : String) (ms : List ServerMember) → Maintains IsShown (insert_members id ms)
unfolding insert_members
insert_members-IsShown id [] = pure-Maintains tt
insert_members-IsShown id (m ∷ rest) =
    bind-Maintains _ _ (statement-Maintains _ (insert_member-IsShown id m))
      (λ _. insert_members-IsShown id rest)

delete_members-IsShown :
    (id : String) (w : Db) → IsShown w → Leaves IsShown (change (delete_members id) w)
unfolding delete_members
delete_members-IsShown id w h = h

pub upsert_voxellink_server-IsShown :
    (uuid : String) (now : ℕ) (i : ImportedServer) (s : Session)
    → IsShown s.stored
    → IsShown (upsert_voxellink_server uuid now i s).1.stored
unfolding upsert_voxellink_server
upsert_voxellink_server-IsShown uuid now i s h =
    begun {P = IsShown} _
      (λ u.
        search (maintain_rules, upsert_row-IsShown, insert_members-IsShown, delete_members-IsShown)
          depth 12)
      s h

mark_row-IsShown : (now id : ℕ) (w : Db) → IsShown w → IsShown (mark_row now id w)
unfolding mark_row
mark_row-IsShown now id w h = h

set_enabled-IsShown :
    (now : ℕ) (id user : String) (enabled : Bool) (w : Db)
    → IsShown w
    → Leaves IsShown (set_enabled now id user enabled w)
unfolding set_enabled
set_enabled-IsShown now id user enabled w (h, u) =
    (update-HasOpen (managed id user w) _ w.incidents w.servers (λ s e down. (down, refl)) h, u)

set_channel-IsShown :
    (id user channel : String) (w : Db) → IsShown w → Leaves IsShown (set_channel id user channel w)
unfolding set_channel put_channel
set_channel-IsShown id user channel w h = ground arith

add_window-IsShown :
    (id user : String) (starts_at ends_at : ℕ) (w : Db)
    → IsShown w
    → Leaves IsShown (add_window id user starts_at ends_at w)
unfolding add_window
add_window-IsShown id user starts_at ends_at w h = ground arith

-- One statement of its own, and the look at the count of its rows.
module _ {P : Db → Type 0} (f : Db → Result Error (ℕ × Db))
    (keep : (w : Db) → P w → Leaves P (f w)) where
  one_row-stored : (n : ℕ) (s : Session) → P s.stored → P (one_row n s).1.stored
  unfolding one_row
  one_row-stored n s h = ground arith

  answered :
      (r : Result Error (ℕ × Db)) (s : Session)
      → P s.stored
      → Leaves P r
      → P (continue (answer_alone r s) one_row).1.stored
  answered (ok (n, db)) s h l = one_row-stored n _ l
  answered (err e) s h l = h

  counted_alone : (s : Session) → P s.stored → P ((alone f >>= one_row) s).1.stored
  unfolding ◌>>=◌ alone
  counted_alone s h = elim (Bool-cases (next_fault s.faults)) [
    | inl e ↦ rw e h
    | inr e ↦
        rw e
          (answered (f s.stored) (record s { faults = later_faults s.faults }) h (keep s.stored h))
  ]

pub set_enabled_for_discord_member-IsShown :
    (now : ℕ) (id user : String) (enabled : Bool) (s : Session)
    → IsShown s.stored
    → IsShown (set_enabled_for_discord_member now id user enabled s).1.stored
unfolding set_enabled_for_discord_member
set_enabled_for_discord_member-IsShown now id user enabled =
    counted_alone (set_enabled now id user enabled) (set_enabled-IsShown now id user enabled)

pub set_notification_channel_for_discord_member-IsShown :
    (id user channel : String) (s : Session)
    → IsShown s.stored
    → IsShown (set_notification_channel_for_discord_member id user channel s).1.stored
unfolding set_notification_channel_for_discord_member
set_notification_channel_for_discord_member-IsShown id user channel =
    counted_alone (set_channel id user channel) (set_channel-IsShown id user channel)

pub schedule_maintenance_for_discord_member-IsShown :
    (id user : String) (starts_at ends_at : ℕ) (s : Session)
    → IsShown s.stored
    → IsShown (schedule_maintenance_for_discord_member id user starts_at ends_at s).1.stored
unfolding schedule_maintenance_for_discord_member
schedule_maintenance_for_discord_member-IsShown id user starts_at ends_at =
    counted_alone (add_window id user starts_at ends_at)
      (add_window-IsShown id user starts_at ends_at)

pub mark_state_notification_delivered-IsShown :
    (now id : ℕ) (s : Session)
    → IsShown s.stored
    → IsShown (mark_state_notification_delivered now id s).1.stored
unfolding mark_state_notification_delivered alone mark_row
mark_state_notification_delivered-IsShown now id s h = ground arith
