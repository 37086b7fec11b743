-- ===== src/Migrate/Transaction.antt =====
-- The transaction of one file.
use voxellink_monitor.Common.{
  ℕ, String, ◌≡◌, refl, inl, inr, Bool, true, false, Option, none, some, List, ◌∷◌, Bool-cases,
}
use voxellink_monitor.Migrate.{
  Database, rows_of, has_version, call, and_then, insert_version, rolled_back, executed, run_source,
  apply_file,
}
use voxellink_monitor.Migrate.Calls.{call_with_post, last_call_post}

module _ {S : Type 0} (execute : String → S → Option S) (has_servers has_rollups : S → Bool) where
  module _ (v : ℕ) (source : String) (db : Database S) where
    -- A transaction that succeeds has run the source and written the row.
    abbrev pub Done : Bool × Database S → Type 0
    Done (false, d) = Unit {0}
    Done (true, d) =
        (execute source db.schema ≡ some d.schema)
        × (has_version v (rows_of db.versions) ≡ false)
        × (rows_of d.versions ≡ v ∷ rows_of db.versions)

    insert-Done :
        (s : S) (fs : List Bool)
        → execute source db.schema ≡ some s
        → Done (
            and_then execute has_servers has_rollups
              (insert_version execute has_servers has_rollups v
                (record { versions = db.versions; schema = s; faults = fs }))
              (call execute has_servers has_rollups (λ d. (true, d))))
    insert-Done s fs e = elim (Bool-cases (has_version v (rows_of db.versions))) [
      | inl there ↦ rw there tt
      | inr new ↦ rw new (
          last_call_post execute has_servers has_rollups Done (λ d. tt) (λ d. (true, d)) _ fs
            (λ gs. (e, new, refl)))
    ]

    source-Done :
        (fs : List Bool) (ran : Option S)
        → execute source db.schema ≡ ran
        → Done (
            and_then execute has_servers has_rollups
              (executed execute has_servers has_rollups
                (record { versions = db.versions; schema = db.schema; faults = fs })
                ran)
              (λ d₂.
                and_then execute has_servers has_rollups
                  (call execute has_servers has_rollups
                    (insert_version execute has_servers has_rollups v)
                    d₂)
                  (call execute has_servers has_rollups (λ d. (true, d)))))
    source-Done fs none e = tt
    source-Done fs (some s) e =
        call_with_post execute has_servers has_rollups Done (λ d. tt)
          (insert_version execute has_servers has_rollups v)
          (call execute has_servers has_rollups (λ d. (true, d)))
          (record { versions = db.versions; schema = s; faults = fs }) fs (λ gs. insert-Done s gs e)

    rolled_back-Done :
        (r : Bool × Database S) → Done r → Done (rolled_back execute has_servers has_rollups db r)
    rolled_back-Done (true, d) h = h
    rolled_back-Done (false, d) h = tt

    pub apply_file-Done : Done (apply_file execute has_servers has_rollups v source db)
    unfolding apply_file
    apply_file-Done = rolled_back-Done _ (
        call_with_post execute has_servers has_rollups Done (λ d. tt) (λ d. (true, d)) _ db
          db.faults
          λ fs.
            call_with_post execute has_servers has_rollups Done (λ d. tt)
              (run_source execute has_servers has_rollups source) _ (record db { faults = fs }) fs
              λ gs. source-Done gs (execute source db.schema) refl)
