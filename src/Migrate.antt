-- ===== src/Migrate.antt =====
-- internal/migrate/migrate.go: the migrations of the schema.
pub mod Version
pub mod Calls
pub mod Transaction
pub mod Built
pub mod Baseline
use voxellink_monitor.Common.{
  ℕ, zero, suc, ◌+◌, ◌-◌, ◌*◌, ◌/◌, ◌%◌, ◌^◌, ◌≤◌, ◌<◌, bit_and, bit_or, min, max, String, ◌≡◌,
  refl, sym, ap, ◌∙◌, subst, ◌≢◌, ◌↔◌, ◌⊎◌, inl, inr, Bool, true, false, not, ◌&&◌, ◌||◌, Option,
  none, some, List, [], ◌∷◌, ◌++◌, arith, str_eq, eq_iff, Result, ok, err, Result-cases, ℤ, pos,
  negsuc, ltb, leb, ◌==◌, if◌then◌else◌, ltb→lt, leb→le, ==_iff, Bool-cases, Option-cases, length,
  take, drop, head?, filter, any, update_where, All, length-append, length-take-le,
  length-filter-le, length-update_where, is_empty, trim_prefix, trim_space, split_on, has_char,
  str_append, join, any-update_where, drop-nil, Pointwise, take-append, drop-append,
}
use voxellink_monitor.Store.Servers.{sort_by}
use voxellink_monitor.Migrate.Version.{version_of}

-- A file of the embedded directory: its source, if ReadFile does not fail.
pub record Entry : Type 0 where
  pub name : String
  pub is_dir : Bool
  pub source : Option String

-- The database: the rows of schema_migrations, if there is the table, and the rest, `schema`. As
-- in a session of the store, `faults` says of each coming call whether it is refused.
pub record Database (S : Type 0) : Type 0 where
  pub versions : Option (List ℕ)
  pub schema : S
  pub faults : List Bool

abbrev pub rows_of : Option (List ℕ) → List ℕ
rows_of none = []
rows_of (some vs) = vs

abbrev pub has_version : ℕ → List ℕ → Bool
has_version v = any (λ (u : ℕ). u == v)

-- strings.HasSuffix(name, ".sql")
unfoldable pub is_sql : String → Bool
is_sql String.[] = false
is_sql (String.◌∷◌ c s) = str_eq (String.◌∷◌ c s) ".sql" || is_sql s

-- `execute` runs a source on the schema, if no statement of it fails. `later` is the order of
-- names; `has_servers` and `has_rollups` are the two to_regclass queries.
module _ {S : Type 0} (execute : String → S → Option S) (has_servers has_rollups : S → Bool) where
  abbrev pub M : Type 0
  M = Database S → Bool × Database S

  -- A call: refused, or with its effect. Every error ends Apply with an error, which is `false`.
  abbrev pub call_with :
      (Database S → Bool × Database S) → Database S → List Bool → Bool × Database S
  call_with f db [] = f db
  call_with f db (true ∷ faults) = (false, record db { faults = faults })
  call_with f db (false ∷ faults) = f (record db { faults = faults })

  abbrev pub call : (Database S → Bool × Database S) → M
  call f db = call_with f db db.faults

  abbrev pub and_then : Bool × Database S → M → Bool × Database S
  and_then (true, db) k = k db
  and_then (false, db) k = (false, db)

  -- A primary key: a version is there once.
  abbrev insert_version : ℕ → M
  insert_version v db =
      if has_version v (rows_of db.versions)
      then (false, db)
      else (true, record db { versions = some (v ∷ rows_of db.versions) })

  -- CREATE TABLE IF NOT EXISTS
  abbrev create_table : M
  create_table db = (true, record db { versions = some (rows_of db.versions) })

  abbrev baseline_rollups : M
  baseline_rollups db = if has_rollups db.schema then call (insert_version 2) db else (true, db)

  abbrev baseline_existing : M
  baseline_existing db =
      if has_servers db.schema
      then and_then (call (insert_version 1) db) (call baseline_rollups)
      else (true, db)

  abbrev baseline_empty : M
  baseline_empty db =
      if length (rows_of db.versions) == 0 then call baseline_existing db else (true, db)

  unfoldable pub baseline : M
  baseline = call baseline_empty

  -- What is left after a transaction that fails: the faults that its calls have used up.
  abbrev rolled_back : Database S → Bool × Database S → Bool × Database S
  rolled_back before (true, db) = (true, db)
  rolled_back before (false, db) = (false, record before { faults = db.faults })

  abbrev executed : Database S → Option S → Bool × Database S
  executed db none = (false, db)
  executed db (some schema) = (true, record db { schema = schema })

  abbrev run_source : String → M
  run_source source db = executed db (execute source db.schema)

  -- Begin, the source, the row, Commit.
  unfoldable pub apply_file : ℕ → String → M
  apply_file v source db = rolled_back db (
      and_then (call (λ d. (true, d)) db) (λ d₁.
        and_then (call (run_source source) d₁)
          (λ d₂. and_then (call (insert_version v) d₂) (call (λ d. (true, d))))))

  abbrev apply_unread : ℕ → Option String → M
  apply_unread v none db = (false, db)
  apply_unread v (some source) db = apply_file v source db

  abbrev apply_missing : ℕ → Option String → M
  apply_missing v source db =
      if has_version v (rows_of db.versions) then (true, db) else apply_unread v source db

  abbrev apply_version : Entry → Option ℕ → M
  apply_version e none db = (false, db)
  apply_version e (some v) db = call (apply_missing v e.source) db

  -- One round of the loop over the files.
  unfoldable pub apply_entry : Entry → M
  unfolding apply_file version_of is_sql
  apply_entry e db =
      if e.is_dir || not (is_sql e.name) then (true, db) else apply_version e (version_of e.name) db

  unfoldable pub apply_all : List Entry → M
  unfolding apply_entry
  apply_all [] db = (true, db)
  apply_all (e ∷ rest) db = and_then (apply_entry e db) (apply_all rest)

  -- `earlier` is the order of names; `entries` is what ReadDir gives.
  unfoldable pub apply_migrations : (String → String → Bool) → List Entry → M
  unfolding baseline apply_all sort_by
  apply_migrations earlier entries db = and_then (call create_table db) (λ d₁.
      and_then (baseline d₁) (apply_all (sort_by (λ (a b : Entry). earlier a.name b.name) entries)))
