-- ===== src/Store/Owner/Roles.antt =====
-- Who may change what.
use voxellink_monitor.Common.{
  ℕ, String, ◌≡◌, refl, sym, subst, inl, inr, Bool, true, false, List, [], ◌∷◌, arith, str_eq,
  eq_iff, Result, ok, err, Bool-cases, length, filter, update_where,
}
use voxellink_monitor.Store.Tables.{ServerRow, Db}
use voxellink_monitor.Store.Session.{Error, refused, no_rows, Session, next_fault, alone, ◌>>=◌}
use voxellink_monitor.Store.Owner.{
  may_manage, managed, one_row, set_enabled, set_channel, add_window,
  set_enabled_for_discord_member, set_notification_channel_for_discord_member,
  schedule_maintenance_for_discord_member,
}

module _ (id user : String) (db : Db) (stranger : may_manage id user db ≡ false) where
  none_managed : (rows : List ServerRow) → length (filter (managed id user db) rows) ≡ 0
  none_managed [] = refl
  none_managed (s ∷ rest) = ground (
    arith,
    eq_iff s.id id,
    none_managed rest,
    λ (e : s.id ≡ id). subst (λ (t : String). may_manage t user db ≡ false) (sym e) stranger,
  )

  unchanged_rows :
      (f : ServerRow → ServerRow) (rows : List ServerRow)
      → update_where (managed id user db) f rows ≡ rows
  unchanged_rows f [] = refl
  unchanged_rows f (s ∷ rest) = ground (
    arith,
    eq_iff s.id id,
    unchanged_rows f rest,
    λ (e : s.id ≡ id). subst (λ (t : String). may_manage t user db ≡ false) (sym e) stranger,
  )

-- An error, and what is committed is as it was.
abbrev pub Refuses : Session → Result Error (Unit {0}) × Session → Type 0
Refuses s (r, s') = (e : Error) × (r ≡ err e) × (s'.stored ≡ s.stored)

-- What follows a statement that affects no row.
no_row :
    (f : Db → Result Error (ℕ × Db)) (s : Session)
    → f s.stored ≡ ok (0, s.stored)
    → Refuses s ((alone f >>= one_row) s)
unfolding ◌>>=◌ one_row
no_row f s e = elim (Bool-cases (next_fault s.faults)) [
  | inl down ↦ rw down (refused, refl, refl)
  | inr up ↦ rw (up, e) (no_rows, refl, refl)
]

-- Whichever calls fail, of a user who is no owner or manager of the server each of the three
-- settings is refused with an error and changes nothing.
pub settings_need_role :
    (now : ℕ) (id user : String) (enabled : Bool) (channel : String) (starts_at ends_at : ℕ)
    (s : Session)
    → may_manage id user s.stored ≡ false
    → Refuses s (set_enabled_for_discord_member now id user enabled s)
      × Refuses s (set_notification_channel_for_discord_member id user channel s)
      × Refuses s (schedule_maintenance_for_discord_member id user starts_at ends_at s)
unfolding set_enabled_for_discord_member set_notification_channel_for_discord_member
    schedule_maintenance_for_discord_member set_enabled set_channel add_window
settings_need_role now id user enabled channel starts_at ends_at s stranger =
    let none = none_managed id user s.stored stranger s.stored.servers in
    (
      no_row (set_enabled now id user enabled) s
          (rw (none, unchanged_rows id user s.stored stranger _ s.stored.servers)),
      no_row (set_channel id user channel) s (rw none),
      no_row (add_window id user starts_at ends_at) s (rw none),
    )

-- The rows with the id of a server that the user may manage.
pub managed_all :
    (id user : String) (db : Db)
    → may_manage id user db ≡ true
    → (rows : List ServerRow)
    → filter (managed id user db) rows ≡ filter (λ (s : ServerRow). str_eq s.id id) rows
managed_all id user db manager [] = refl
managed_all id user db manager (s ∷ rest) = ground (
  arith,
  eq_iff s.id id,
  managed_all id user db manager rest,
  λ (e : s.id ≡ id). subst (λ (t : String). may_manage t user db ≡ true) (sym e) manager,
)

abbrev pub is_row : String → ServerRow → Bool
is_row id s = str_eq s.id id

-- The server is in the table, once.
abbrev pub IsOnce : String → Db → Type 0
IsOnce id db = length (filter (is_row id) db.servers) ≡ 1
