-- ===== src/Migrate/Baseline.antt =====
-- The baseline of a schema that was there before schema_migrations.
use voxellink_monitor.Common.{
  ℕ, String, ◌≡◌, refl, Bool, true, false, Option, none, some, List, [], ◌∷◌,
}
use voxellink_monitor.Store.Servers.{sort_by}
use voxellink_monitor.Migrate.Version.{version_of}
use voxellink_monitor.Migrate.{Entry, Database, is_sql, apply_file, apply_all, apply_migrations}

-- A file with a migration.
pub record IsFile (e : Entry) (v : ℕ) (source : String) : Type 0 where
  pub is_file : e.is_dir ≡ false
  pub named : is_sql e.name ≡ true
  pub versioned : version_of e.name ≡ some v
  pub read : e.source ≡ some source

-- The calls of the first Apply up to the query for the rollups, which is refused.
abbrev pub interrupted : List Bool
interrupted = false ∷ false ∷ false ∷ false ∷ true ∷ []

module _ {S : Type 0} (execute : String → S → Option S) (has_servers has_rollups : S → Bool)
    (earlier : String → String → Bool) (entries : List Entry) (first second : Entry)
    (rest : List Entry) (source₁ source₂ : String) where
  abbrev migrate : Database S → Bool × Database S
  migrate = apply_migrations execute has_servers has_rollups earlier entries

  abbrev with_versions : Option (List ℕ) → S → List Bool → Database S
  with_versions vs s faults = record { versions = vs; schema = s; faults = faults }

  -- In the order of their names, the files begin with the first two migrations.
  abbrev pub Begins : Type 0
  Begins =
      (sort_by (λ (a b : Entry). earlier a.name b.name) entries ≡ first ∷ second ∷ rest)
      × IsFile first 1 source₁
      × IsFile second 2 source₂

  after_interruption :
      (s : S)
      → has_servers s ≡ true
      → migrate (with_versions none s interrupted) ≡ (false, with_versions (some (1 ∷ [])) s [])
  unfolding apply_migrations
  after_interruption s there = rw there refl

  -- A schema with the tables of the first two migrations and no schema_migrations, where the second
  -- migration fails because its tables are there: if Apply is interrupted between the two rows of its
  -- baseline, every later Apply fails and changes nothing.
  pub baseline_interrupted :
      (s : S)
      → Begins
      → has_servers s ≡ true
      → has_rollups s ≡ true
      → execute source₂ s ≡ none
      → let stuck = with_versions (some (1 ∷ [])) s [] in
        (migrate (with_versions none s interrupted) ≡ (false, stuck))
        × (migrate stuck ≡ (false, stuck))
  unfolding apply_migrations
  baseline_interrupted s (order, one, two) there rolled fails = (
    after_interruption s there,
    rw
        (
          order, one.is_file, one.named, one.versioned, two.is_file, two.named, two.versioned,
          two.read, apply_file, fails,
        )
        refl,
  )

  -- Uninterrupted, Apply counts both as applied and goes on with the others.
  pub baseline_lem :
      (s : S)
      → Begins
      → has_servers s ≡ true
      → has_rollups s ≡ true
      → migrate (with_versions none s [])
        ≡ apply_all execute has_servers has_rollups rest (with_versions (some (2 ∷ 1 ∷ [])) s [])
  unfolding apply_migrations
  baseline_lem s (order, one, two) there rolled =
      rw
        (
          there, rolled, order, one.is_file, one.named, one.versioned, two.is_file, two.named,
          two.versioned,
        )
        refl
