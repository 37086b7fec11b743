-- ===== src/Store/Uptime/Bounds.antt =====
-- The availability is a percentage.
use voxellink_monitor.Common.{
  ℕ, ◌≤◌, ◌<◌, String, ◌≡◌, refl, ◌↔◌, Bool, true, false, not, ◌&&◌, List, [], ◌∷◌, arith, length,
  filter, any,
}
use voxellink_monitor.Store.Tables.{CheckRow, Db}
use voxellink_monitor.Store.Uptime.{in_last_day, is_up, is_counted, uptime_of_day}

-- A check that counts and did not succeed.
abbrev pub is_missed : Db → CheckRow → Bool
is_missed db c = is_counted db c && not (is_up db c)

module _ (db : Db) where
  up-counted : (c : CheckRow) → is_up db c ≡ true → is_counted db c ≡ true
  up-counted c h = ground arith

  up-le-counted :
      (rows : List CheckRow)
      → length (filter (is_up db) rows) ≤ length (filter (is_counted db) rows)
  up-le-counted [] = omega arith
  up-le-counted (c ∷ rows) = ground (arith, up-le-counted rows, up-counted c)

  any_counted :
      (rows : List CheckRow)
      → (any (is_counted db) rows ≡ true) ↔ (0 < length (filter (is_counted db) rows))
  any_counted [] = (λ h. cc, λ h. absurd (omega arith))
  any_counted (c ∷ rows) = ground (arith, any_counted rows)

  none_missed :
      (rows : List CheckRow)
      → (any (is_missed db) rows ≡ false)
        ↔ (length (filter (is_up db) rows) ≡ length (filter (is_counted db) rows))
  none_missed [] = (λ h. refl, λ h. refl)
  none_missed (c ∷ rows) = ground (arith, none_missed rows, up-counted c, up-le-counted rows)

  -- The availability of a day lies between 0 and 100 percent. It is 100 percent exactly when some
  -- check counts and every check that counts succeeded.
  pub uptime_of_day_bounds :
      (now : ℕ) (id : String)
      → let uptime = uptime_of_day now id db in
        let rows = filter (in_last_day id now) db.checks in
        (0 < uptime.whole)
        × (uptime.part ≤ uptime.whole)
        × ((uptime.part ≡ uptime.whole)
            ↔ ((any (is_counted db) rows ≡ true) × (any (is_missed db) rows ≡ false)))
  unfolding uptime_of_day
  uptime_of_day_bounds now id =
      let rows = filter (in_last_day id now) db.checks in
      ground (arith, up-le-counted rows, any_counted rows, none_missed rows)
