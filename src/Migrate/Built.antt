-- ===== src/Migrate/Built.antt =====
-- What Apply leaves, whichever of its calls fail.
pub mod Rounds
use voxellink_monitor.Common.{
  ℕ, Option, String, ◌≡◌, refl, ap, ◌∙◌, subst, ◌⊎◌, inl, inr, Bool, true, false, List, arith, ◌==◌,
  Bool-cases, length,
}
use voxellink_monitor.Store.Servers.{sort_by}
use voxellink_monitor.Migrate.{
  Entry, Database, rows_of, call, create_table, baseline_existing, baseline_empty, baseline,
  and_then, apply_all, apply_migrations,
}
use voxellink_monitor.Migrate.Calls.{Keeps, call-Keeps}
use voxellink_monitor.Migrate.Built.Rounds.{Reaches, stopped_at, all-Reaches}

module _ {S : Type 0} (execute : String → S → Option S) (has_servers has_rollups : S → Bool) where
  -- No baseline is due: there are rows, or there is no schema yet.
  abbrev pub IsSettled : List ℕ → S → Type 0
  IsSettled us s = ((length us == 0) ≡ false) ⊎ (has_servers s ≡ false)

  module _ (vs : List ℕ) (start : S) (settled : IsSettled vs start) where
    abbrev Same : List ℕ → S → Type 0
    Same us s = (us ≡ vs) × (s ≡ start)

    existing-Same :
        has_servers start ≡ false
        → Keeps execute has_servers has_rollups Same
            (baseline_existing execute has_servers has_rollups)
    existing-Same no_schema d (u, t) =
        let absent : has_servers d.schema ≡ false = ap has_servers t ∙ no_schema in ground arith

    empty-Same :
        Keeps execute has_servers has_rollups Same (baseline_empty execute has_servers has_rollups)
    empty-Same db (e, f) = elim (Bool-cases (length (rows_of db.versions) == 0)) [
      | inl empty ↦ elim settled [
        | inl some_rows ↦ cc (empty, some_rows, ap (λ (us : List ℕ). length us == 0) e)
        | inr no_schema ↦ rw empty (
            call-Keeps execute has_servers has_rollups Same
              (baseline_existing execute has_servers has_rollups) (existing-Same no_schema) db
              (e, f))
      ]
      | inr full ↦ rw full (e, f)
    ]

    baseline-Same :
        Keeps execute has_servers has_rollups Same (baseline execute has_servers has_rollups)
    unfolding baseline
    baseline-Same db h =
        call-Keeps execute has_servers has_rollups Same
          (baseline_empty execute has_servers has_rollups) empty-Same db h

    -- A step that changes neither rows nor schema, and then what runs the files.
    Same-then :
        (files : List Entry) (given : Bool × Database S) (k : Database S → Bool × Database S)
        → Same (rows_of given.1.versions) given.1.schema
        → ((d : Database S)
            → Same (rows_of d.versions) d.schema
            → Reaches execute has_servers has_rollups files vs start (k d))
        → Reaches execute has_servers has_rollups files vs start
            (and_then execute has_servers has_rollups given k)
    Same-then files (false, d) k (u, t) later =
        stopped_at execute has_servers has_rollups files vs start d u t
    Same-then files (true, d) k h later = later d h

    all-From :
        (files : List Entry) (db : Database S)
        → Same (rows_of db.versions) db.schema
        → Reaches execute has_servers has_rollups files vs start
            (apply_all execute has_servers has_rollups files db)
    all-From files db (u, t) =
        subst
          (λ (us : List ℕ).
            Reaches execute has_servers has_rollups files us start
              (apply_all execute has_servers has_rollups files db))
          u
          (subst
            (λ (s : S).
              Reaches execute has_servers has_rollups files (rows_of db.versions) s
                (apply_all execute has_servers has_rollups files db))
            t (all-Reaches execute has_servers has_rollups files db))

  -- Whichever calls fail, and if no baseline is due, Apply leaves the rows and the schema that come of
  -- those before by the files in the order of their names, all of them if it returns no error, else
  -- up to some file: each is passed over, as a directory, no migration or of a version that is
  -- there, or its own source is run whole, where its version was not there, and its row is written.
  pub apply_migrations-Runs :
      (earlier : String → String → Bool) (entries : List Entry) (db : Database S)
      → IsSettled (rows_of db.versions) db.schema
      → Reaches execute has_servers has_rollups
          (sort_by (λ (a b : Entry). earlier a.name b.name) entries)
          (rows_of db.versions)
          db.schema
          (apply_migrations execute has_servers has_rollups earlier entries db)
  unfolding apply_migrations
  apply_migrations-Runs earlier entries db settled =
      let vs = rows_of db.versions in
      let start = db.schema in
      let files = sort_by (λ (a b : Entry). earlier a.name b.name) entries in
      let runs = apply_all execute has_servers has_rollups files in
      Same-then vs start settled files
        (call execute has_servers has_rollups (create_table execute has_servers has_rollups) db)
        (λ d.
          and_then execute has_servers has_rollups (baseline execute has_servers has_rollups d)
            runs)
        (call-Keeps execute has_servers has_rollups (Same vs start settled)
          (create_table execute has_servers has_rollups) (λ d h. h) db (refl, refl))
        (λ d₁ h₁.
          Same-then vs start settled files (baseline execute has_servers has_rollups d₁) runs
            (baseline-Same vs start settled d₁ h₁) (λ d₂ h₂. all-From vs start settled files d₂ h₂))
