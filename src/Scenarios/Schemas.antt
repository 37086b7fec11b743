-- ===== src/Scenarios/Schemas.antt =====
-- Migrations of a small schema.
use voxellink_monitor.Common.{
  ℕ, ltb, String, ◌≡◌, refl, inr, Bool, true, false, Option, none, some, List, [], ◌∷◌, str_eq,
  if◌then◌else◌, any,
}
use voxellink_monitor.Store.Servers.{sort_by}
use voxellink_monitor.Migrate.Version.{version_of}
use voxellink_monitor.Migrate.{Entry, Database, is_sql, apply_migrations}
use voxellink_monitor.Migrate.Built.Rounds.{Reaches}
use voxellink_monitor.Migrate.Built.{apply_migrations-Runs}
use voxellink_monitor.Migrate.Baseline.{interrupted, baseline_interrupted}

-- A schema is what was created; a source names one thing to create, and fails if that is there.
abbrev create : String → List String → Option (List String)
create source s = if any (str_eq source) s then none else some (source ∷ s)

abbrev servers_there : List String → Bool
servers_there = any (str_eq "servers")

abbrev rollups_there : List String → Bool
rollups_there = any (str_eq "rollups")

abbrev initial : Entry
initial = record { name = "0001_initial.sql"; is_dir = false; source = some "servers" }

abbrev rollups : Entry
rollups = record { name = "0002_rollups.sql"; is_dir = false; source = some "rollups" }

-- The entries come in the order of their names.
abbrev in_order : String → String → Bool
in_order a b = false

version_of_initial : version_of "0001_initial.sql" ≡ some 1
unfolding version_of
version_of_initial = refl

version_of_letters : version_of "init_0001.sql" ≡ none
unfolding version_of
version_of_letters = refl

version_of_zero : version_of "0000_none.sql" ≡ none
unfolding version_of
version_of_zero = refl

is_sql_names :
    (is_sql "0001_initial.sql" ≡ true) × (is_sql "README.md" ≡ false) × (is_sql "1.sql.bak" ≡ false)
unfolding is_sql
is_sql_names = (refl, refl, refl)

abbrev new_database : Database (List String)
new_database = record { versions = none; schema = []; faults = [] }

apply_migrations-Runs_example :
    Reaches create servers_there rollups_there
      (sort_by (λ (a b : Entry). in_order a.name b.name) (initial ∷ rollups ∷ []))
      []
      []
      (apply_migrations create servers_there rollups_there in_order
        (initial ∷ rollups ∷ [])
        new_database)
apply_migrations-Runs_example =
    apply_migrations-Runs create servers_there rollups_there in_order (initial ∷ rollups ∷ [])
      new_database (inr refl)

-- A run on it makes both, in turn.
migrates_new :
    apply_migrations create servers_there rollups_there in_order
      (initial ∷ rollups ∷ [])
      new_database
    ≡ (
      true,
      record { versions = some (2 ∷ 1 ∷ []); schema = "rollups" ∷ "servers" ∷ []; faults = [] },
    )
unfolding apply_migrations
migrates_new = refl

abbrev both : List String
both = "rollups" ∷ "servers" ∷ []

abbrev unversioned : List Bool → Database (List String)
unversioned faults = record { versions = none; schema = both; faults = faults }

abbrev stuck : Database (List String)
stuck = record { versions = some (1 ∷ []); schema = both; faults = [] }

sorted : sort_by (λ (a b : ℕ). ltb a b) (3 ∷ 1 ∷ 2 ∷ []) ≡ 1 ∷ 2 ∷ 3 ∷ []
unfolding sort_by
sorted = refl

in_turn :
    sort_by (λ (a b : Entry). in_order a.name b.name) (initial ∷ rollups ∷ [])
    ≡ initial ∷ rollups ∷ []
unfolding sort_by
in_turn = refl

baseline_interrupted_example :
    let run =
      apply_migrations create servers_there rollups_there in_order (initial ∷ rollups ∷ []) in
    (run (unversioned interrupted) ≡ (false, stuck)) × (run stuck ≡ (false, stuck))
unfolding version_of is_sql
baseline_interrupted_example =
    baseline_interrupted create servers_there rollups_there in_order (initial ∷ rollups ∷ [])
      initial rollups [] "servers" "rollups" both
      (
        in_turn,
        record { is_file = refl; named = refl; versioned = refl; read = refl },
        record { is_file = refl; named = refl; versioned = refl; read = refl },
      )
      refl refl refl
