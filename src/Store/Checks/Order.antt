-- ===== src/Store/Checks/Order.antt =====
-- What the queries over `checks` return once the newest check is in the table.
use voxellink_monitor.Common.{
  ℕ, suc, min, String, ◌≡◌, refl, inl, inr, Bool, true, ◌&&◌, some, List, [], ◌∷◌, str_eq, ok,
  if◌then◌else◌, Bool-cases, Option-cases, take, filter, All,
}
use voxellink_monitor.Domain.{Outcome, CheckResult, is_failure}
use text.Mathlib.TextPositions.{eq_refl}
use voxellink_monitor.Store.Tables.{CheckRow, Db}
use voxellink_monitor.Store.Checks.{
  min_at, earliest_recent_failure, newer, place, order_desc, recent_where, recent, every, check_row,
  with_check,
}

module _ (P : CheckRow → Type 0) where
  All-filter : (p : CheckRow → Bool) (cs : List CheckRow) → All P cs → All P (filter p cs)
  All-filter p [] h = tt
  All-filter p (c ∷ cs) h = elim (Bool-cases (p c)) [
    | inl e ↦ rw e (h.0, All-filter p cs h.1)
    | inr e ↦ rw e (All-filter p cs h.1)
  ]

  All-place : (c : CheckRow) (ds : List CheckRow) → P c → All P ds → All P (place c ds)
  unfolding place
  All-place c [] hc h = (hc, tt)
  All-place c (d ∷ ds) hc h = elim (Bool-cases (newer c d)) [
    | inl e ↦ rw e (hc, h)
    | inr e ↦ rw e (h.0, All-place c ds hc h.1)
  ]

  All-order_desc : (cs : List CheckRow) → All P cs → All P (order_desc cs)
  unfolding order_desc
  All-order_desc [] h = tt
  All-order_desc (c ∷ cs) h = All-place c (order_desc cs) h.0 (All-order_desc cs h.1)

place_newest :
    (c : CheckRow) (ds : List CheckRow) → All (λ d. newer c d ≡ true) ds → place c ds ≡ c ∷ ds
unfolding place
place_newest c [] h = refl
place_newest c (d ∷ ds) h = rw h.0

-- No check in the table is as new as one that is recorded now.
abbrev pub IsNewest : String → CheckResult → Db → Type 0
IsNewest id result db = All (λ d. newer (check_row db.check_serial id result) d ≡ true) db.checks

module _ (id : String) (result : CheckResult) (db : Db) (newest : IsNewest id result db) where
  recent_where-with_check :
      (p : Outcome → Bool) (n : ℕ)
      → recent_where p (with_check id result db) id (suc n) ≡ (
          if p result.outcome
          then check_row db.check_serial id result ∷ recent_where p db id n
          else recent_where p db id (suc n))
  unfolding recent_where order_desc
  recent_where-with_check p n =
      let row = check_row db.check_serial id result in
      let test = λ (c : CheckRow). str_eq c.server_id id && p c.outcome in
      let front : place row (order_desc (filter test db.checks))
          ≡ row ∷ order_desc (filter test db.checks) =
        place_newest row (order_desc (filter test db.checks))
          (All-order_desc _ (filter test db.checks) (All-filter _ test db.checks newest)) in
      elim (Bool-cases (p result.outcome)) [
        | inl e ↦ rw (eq_refl, e, front)
        | inr e ↦ rw (eq_refl, e)
      ]

  -- The newest check heads the recent checks of its server.
  pub recent-with_check :
      (n : ℕ)
      → recent (with_check id result db) id (suc n)
        ≡ check_row db.check_serial id result ∷ recent db id n
  unfolding recent
  recent-with_check n = recent_where-with_check every n

place_some :
    (c : CheckRow) (ds : List CheckRow)
    → (d : CheckRow) × (rest : List CheckRow) × (place c ds ≡ d ∷ rest)
unfolding place
place_some c [] = (c, [], refl)
place_some c (d ∷ ds) = elim (Bool-cases (newer c d)) [
  | inl e ↦ (c, d ∷ ds, rw e)
  | inr e ↦ (d, place c ds, rw e)
]

min_at-some : (c : CheckRow) (cs : List CheckRow) → (t : ℕ) × (min_at (c ∷ cs) ≡ some t)
min_at-some c cs = elim (Option-cases (min_at cs)) [
  | inl e ↦ (c.checked_at, rw (e, min_at))
  | inr (t, e) ↦ (min c.checked_at t, rw (e, min_at))
]

-- A failure that has just been recorded gives the incident a start.
pub earliest_recent_failure-with_check :
    (id : String) (result : CheckResult) (db w : Db)
    → is_failure result.outcome ≡ true
    → w.checks ≡ (with_check id result db).checks
    → (t : ℕ) × (earliest_recent_failure id w ≡ ok (t, w))
unfolding earliest_recent_failure recent_where order_desc
earliest_recent_failure-with_check id result db w failed same =
    let test = λ (c : CheckRow). str_eq c.server_id id && is_failure c.outcome in
    let (d, rest, placed) =
      place_some (check_row db.check_serial id result) (order_desc (filter test db.checks)) in
    let (t, least) = min_at-some d (take 2 rest) in (t, rw (same, eq_refl, failed, placed, least))
