-- ===== src/Store/Retention/Repeat.antt =====
-- A second RunRetention over a quarter of an hour that the first one cut in two.
use voxellink_monitor.Common.{
  ℕ, ◌+◌, ◌*◌, ◌≤◌, ◌<◌, ◌≡◌, refl, sym, ap, ◌∙◌, subst, Bool, true, false, not, ◌&&◌, List, [],
  ◌∷◌, arith, str_eq, eq_iff, ltb, ◌==◌, length, filter, any,
}
use voxellink_monitor.Store.Tables.{CheckRow, AggregateRow, Db, quarter, hour, day, floor_to}
use voxellink_monitor.Store.Session.{connected, ◌>>=◌}
use voxellink_monitor.Store.Retention.{
  expired, same_aggregate, quarter_of, roll_up_quarters, roll_up_hours, roll_up_reports,
  roll_up_days, delete_checks, delete_quarters, delete_hours, delete_reports,
  delete_report_quarters, run_retention,
}
use voxellink_monitor.Store.Retention.Groups.{group-One, filter-replace}
use voxellink_monitor.Store.Retention.Rollup.{overflows, rolled_up, old_check, daily_rows-reports}

-- What one run leaves, on a server that refuses no call.
unfoldable pub after : ℕ → ℕ → Db → Db
after year now db = (run_retention year now (connected db)).1.stored

-- The checks, and the rows, of the server and the quarter of an hour of `c`.
abbrev pub in_bucket : CheckRow → CheckRow → Bool
in_bucket c d =
    str_eq d.server_id c.server_id && floor_to quarter d.checked_at == floor_to quarter c.checked_at

abbrev pub of_bucket : CheckRow → AggregateRow → Bool
of_bucket c r = str_eq r.server_id c.server_id && r.bucket_start == floor_to quarter c.checked_at

abbrev checks_totals : List AggregateRow → List ℕ
checks_totals [] = []
checks_totals (r ∷ rs) = r.checks_total ∷ checks_totals rs

-- What the table check_aggregates_15m counts for the bucket of `c`.
abbrev pub counted : CheckRow → Db → List ℕ
counted c db = checks_totals (filter (of_bucket c) db.quarters)

abbrev pub in_checks : CheckRow → Db → ℕ
in_checks c db = length (filter (in_bucket c) db.checks)

abbrev past : ℕ → Db → List CheckRow
past now db = filter (λ (d : CheckRow). ltb d.checked_at (floor_to hour now)) db.checks

module _ {A : Type 0} (p q : A → Bool) where
  filter_within :
      (xs : List A) → ((x : A) → p x ≡ true → q x ≡ true) → filter p (filter q xs) ≡ filter p xs
  filter_within [] h = refl
  filter_within (x ∷ xs) h = ground (arith, h x, filter_within xs h)

  length-filter_twice :
      (xs : List A) → length (filter p (filter (λ x. not (q x)) xs)) ≤ length (filter p xs)
  length-filter_twice [] = omega arith
  length-filter_twice (x ∷ xs) = ground (arith, length-filter_twice xs)

  any_within : (xs : List A) → ((x : A) → p x ≡ true → q x ≡ true) → any p (filter q xs) ≡ any p xs
  any_within [] h = refl
  any_within (x ∷ xs) h = ground (arith, h x, any_within xs h)

  filter_loses :
      (xs : List A)
      → any (λ x. p x && q x) xs ≡ true
      → length (filter p (filter (λ x. not (q x)) xs)) < length (filter p xs)
  filter_loses [] h = cc
  filter_loses (x ∷ xs) h = ground (arith, filter_loses xs, length-filter_twice xs)

  any_both : (xs : List A) → any (λ x. p x && q x) xs ≡ true → any p xs ≡ true
  any_both [] h = h
  any_both (x ∷ xs) h = ground (arith, any_both xs)

floor_near : (t : ℕ) → t < floor_to quarter t + quarter
floor_near t = omega arith

in_bucket-past :
    (now : ℕ) (c d : CheckRow)
    → floor_to quarter c.checked_at + quarter ≤ floor_to hour now
    → in_bucket c d ≡ true
    → ltb d.checked_at (floor_to hour now) ≡ true
in_bucket-past now c d h e = ground (arith, floor_near d.checked_at)

of_bucket_hit :
    (c : CheckRow) (a b : AggregateRow) → of_bucket c a ≡ true → same_aggregate a b ≡ of_bucket c b
of_bucket_hit c a b h = ground (
  arith,
  eq_iff a.server_id c.server_id,
  eq_iff b.server_id a.server_id,
  eq_iff b.server_id c.server_id,
)

of_bucket_miss :
    (c : CheckRow) (a b : AggregateRow)
    → of_bucket c a ≡ false
    → of_bucket c b ≡ true
    → same_aggregate a b ≡ false
of_bucket_miss c a b h e = ground (
  arith,
  eq_iff a.server_id c.server_id,
  eq_iff b.server_id a.server_id,
  eq_iff b.server_id c.server_id,
)

-- One rollup leaves the bucket one row, which counts its checks.
rolled_quarter :
    (now : ℕ) (db : Db) (c : CheckRow)
    → floor_to quarter c.checked_at + quarter ≤ floor_to hour now
    → any (in_bucket c) db.checks ≡ true
    → (a : AggregateRow) × (of_bucket c a ≡ true)
      × (a.checks_total ≡ in_checks c db)
      × (filter (of_bucket c) (roll_up_quarters now db).quarters ≡ a ∷ [])
unfolding roll_up_quarters quarter_of
rolled_quarter now db c h e =
    let is_past = λ (d : CheckRow). in_bucket-past now c d h in
    let hour_past = λ (d : CheckRow). ltb d.checked_at (floor_to hour now) in
    let (y, k, g) =
      group-One (λ (d : CheckRow). d.server_id) (λ (d : CheckRow). floor_to quarter d.checked_at)
        (quarter_of db) (of_bucket c) c (past now db) (λ y. refl) (past now db)
        (any_within (in_bucket c) hour_past db.checks is_past ∙ e) in
    (
      quarter_of db y (filter (in_bucket c) (past now db)),
      k,
      ap length (filter_within (in_bucket c) hour_past db.checks is_past),
      filter-replace same_aggregate (of_bucket c) (of_bucket_hit c) (of_bucket_miss c) _ _
          db.quarters g,
    )

after_quarters :
    (year now : ℕ) (db : Db)
    → overflows now db ≡ false
    → (after year now db).quarters
      ≡ filter
          (λ (a : AggregateRow). not (expired now (90 * day) a.bucket_start))
          (roll_up_quarters now db).quarters
unfolding after run_retention roll_up_days delete_checks delete_quarters delete_hours
    roll_up_quarters roll_up_hours roll_up_reports delete_reports delete_report_quarters
after_quarters year now db e = rw (◌>>=◌, daily_rows-reports now (rolled_up now db), e) refl

after_checks :
    (year now : ℕ) (db : Db)
    → overflows now db ≡ false
    → (after year now db).checks ≡ filter (λ (c : CheckRow). not (old_check now c)) db.checks
unfolding after run_retention roll_up_days delete_checks delete_quarters delete_hours
    roll_up_quarters roll_up_hours roll_up_reports delete_reports delete_report_quarters
after_checks year now db e = rw (◌>>=◌, daily_rows-reports now (rolled_up now db), e) refl

of_bucket_kept :
    (now : ℕ) (c : CheckRow) (a : AggregateRow)
    → now ≤ floor_to quarter c.checked_at + 90 * day
    → of_bucket c a ≡ true
    → not (expired now (90 * day) a.bucket_start) ≡ true
of_bucket_kept now c a h e = ground arith

-- A run counts in the row of a past quarter of an hour the checks that are there when it starts.
counted_checks :
    (year now : ℕ) (db : Db) (c : CheckRow)
    → overflows now db ≡ false
    → floor_to quarter c.checked_at + quarter ≤ floor_to hour now
    → now ≤ floor_to quarter c.checked_at + 90 * day
    → any (in_bucket c) db.checks ≡ true
    → counted c (after year now db) ≡ in_checks c db ∷ []
counted_checks year now db c o h k e =
    let (a, _, n, r) = rolled_quarter now db c h e in
    let kept = λ (a : AggregateRow). not (expired now (90 * day) a.bucket_start) in
    ap (λ rows. checks_totals (filter (of_bucket c) rows)) (after_quarters year now db o)
    ∙ ap checks_totals (
        filter_within (of_bucket c) kept (roll_up_quarters now db).quarters
          (λ a. of_bucket_kept now c a k)
        ∙ r)
    ∙ ap (λ m. m ∷ []) n

later_hour :
    (now now' : ℕ) (c : CheckRow)
    → floor_to quarter c.checked_at + quarter ≤ floor_to hour now
    → now ≤ now'
    → floor_to quarter c.checked_at + quarter ≤ floor_to hour now'
later_hour now now' c h le = omega arith

-- Where a run deletes some of the checks of a quarter of an hour and leaves others, the row of that
-- quarter counts all of them after it, and after the next run only those that were left.
pub retention_forgets :
    (year now year' now' : ℕ) (db : Db) (c : CheckRow)
    → let left = after year now db in
      overflows now db ≡ false
      → overflows now' left ≡ false
      → floor_to quarter c.checked_at + quarter ≤ floor_to hour now
      → now ≤ now'
      → now' ≤ floor_to quarter c.checked_at + 90 * day
      → any (λ d. in_bucket c d && old_check now d) db.checks ≡ true
      → any (in_bucket c) left.checks ≡ true
      → (counted c left ≡ in_checks c db ∷ [])
        × (counted c (after year' now' left) ≡ in_checks c left ∷ [])
        × (in_checks c left < in_checks c db)
retention_forgets year now year' now' db c o o' h le k lost some_left =
    let e = after_checks year now db o in
    let all = any_both (in_bucket c) (old_check now) db.checks lost in
    (
      counted_checks year now db c o h (ground arith) all,
      counted_checks year' now' (after year now db) c o' (later_hour now now' c h le) k some_left,
      subst (λ checks. length (filter (in_bucket c) checks) < in_checks c db) (sym e)
          (filter_loses (in_bucket c) (old_check now) db.checks lost),
    )
