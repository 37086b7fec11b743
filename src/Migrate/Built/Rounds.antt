-- ===== src/Migrate/Built/Rounds.antt =====
-- The rounds of the loop over the files, whichever of their calls fail.
use voxellink_monitor.Common.{
  any, ℕ, String, ◌≡◌, refl, sym, subst, ◌⊎◌, inl, inr, Bool, true, false, not, ◌||◌, Option, none,
  some, List, [], ◌∷◌, arith, ◌==◌, if◌then◌else◌, Bool-cases,
}
use voxellink_monitor.Migrate.Version.{version_of}
use voxellink_monitor.Migrate.{
  Entry, Database, rows_of, has_version, is_sql, call_with, and_then, rolled_back, apply_file,
  apply_unread, apply_missing, apply_version, apply_entry, apply_all,
}
use voxellink_monitor.Migrate.Transaction.{Done, apply_file-Done}

abbrev pub is_there : ℕ → List ℕ → Bool
is_there v = any (λ (u : ℕ). u == v)

-- Apply passes over a file: it is a directory or no migration, or its version is there.
abbrev pub IsPassed : Entry → List ℕ → Type 0
IsPassed e us =
    ((e.is_dir || not (is_sql e.name)) ≡ true)
    ⊎ ((v : ℕ) × (version_of e.name ≡ some v) × (is_there v us ≡ true))

module _ {S : Type 0} (execute : String → S → Option S) (has_servers has_rollups : S → Bool) where
  -- From rows and a schema to others, by files in their order, to the last (`true`) or up to some file
  -- (`false`): each is passed over, or its own source is run, its version was not there, and its
  -- row is written.
  pub data Runs : Bool → List Entry → List ℕ → S → List ℕ → S → Type 0 where
    ended : {us : List ℕ} {s : S} → Runs true [] us s us s
    stopped : {files : List Entry} {us : List ℕ} {s : S} → Runs false files us s us s
    passed :
        {b : Bool} {files : List Entry} {us us' : List ℕ} {s s' : S} (e : Entry)
        → IsPassed e us
        → Runs b files us s us' s'
        → Runs b (e ∷ files) us s us' s'
    applied :
        {b : Bool} {files : List Entry} {us us' : List ℕ} {s t s' : S} (e : Entry) (v : ℕ)
        (source : String)
        → e.is_dir ≡ false
        → is_sql e.name ≡ true
        → version_of e.name ≡ some v
        → e.source ≡ some source
        → is_there v us ≡ false
        → execute source s ≡ some t
        → Runs b files (v ∷ us) t us' s'
        → Runs b (e ∷ files) us s us' s'

  -- What one round may come to: nothing has changed, and if it succeeds the file is passed over; or
  -- the file is applied.
  abbrev IsRound : Entry → Database S → Bool × Database S → Type 0
  IsRound e db given =
      ((rows_of given.1.versions ≡ rows_of db.versions)
        × (given.1.schema ≡ db.schema)
        × (given.0 ≡ true → IsPassed e (rows_of db.versions)))
      ⊎ ((v : ℕ) × (source : String) × (e.is_dir ≡ false)
          × (is_sql e.name ≡ true)
          × (version_of e.name ≡ some v)
          × (e.source ≡ some source)
          × (is_there v (rows_of db.versions) ≡ false)
          × (execute source db.schema ≡ some given.1.schema)
          × (rows_of given.1.versions ≡ v ∷ rows_of db.versions))

  module _ (e : Entry) (file : e.is_dir ≡ false) (sql : is_sql e.name ≡ true) where
    file-IsRound :
        (v : ℕ) (source : String) (db : Database S) (r : Bool × Database S)
        → version_of e.name ≡ some v
        → e.source ≡ some source
        → Done execute has_servers has_rollups v source db
            (rolled_back execute has_servers has_rollups db r)
        → IsRound e db (rolled_back execute has_servers has_rollups db r)
    file-IsRound v source db (false, d) named read done = inl (refl, refl, λ f. cc f)
    file-IsRound v source db (true, d) named read (ran, new, rows) =
        inr (v, source, file, sql, named, read, new, ran, rows)

    unread-IsRound :
        (v : ℕ) (source : Option String) (db : Database S)
        → version_of e.name ≡ some v
        → e.source ≡ source
        → IsRound e db (apply_unread execute has_servers has_rollups v source db)
    unfolding apply_file
    unread-IsRound v none db named read = inl (refl, refl, λ f. cc f)
    unread-IsRound v (some source) db named read =
        file-IsRound v source db _ named read
          (apply_file-Done execute has_servers has_rollups v source db)

    missing-IsRound :
        (v : ℕ) (db : Database S)
        → version_of e.name ≡ some v
        → IsRound e db (apply_missing execute has_servers has_rollups v e.source db)
    missing-IsRound v db named = elim (Bool-cases (has_version v (rows_of db.versions))) [
      | inl there ↦ rw there (inl (refl, refl, λ _. inr (v, named, there)))
      | inr new ↦ rw new (unread-IsRound v e.source db named refl)
    ]

    called-IsRound :
        (v : ℕ) (db : Database S) (faults : List Bool)
        → version_of e.name ≡ some v
        → IsRound e db (
            call_with execute has_servers has_rollups
              (apply_missing execute has_servers has_rollups v e.source)
              db
              faults)
    called-IsRound v db [] named = missing-IsRound v db named
    called-IsRound v db (true ∷ faults) named = inl (refl, refl, λ f. cc f)
    called-IsRound v db (false ∷ faults) named =
        missing-IsRound v (record db { faults = faults }) named

    version-IsRound :
        (version : Option ℕ) (db : Database S)
        → version_of e.name ≡ version
        → IsRound e db (apply_version execute has_servers has_rollups e version db)
    version-IsRound none db named = inl (refl, refl, λ f. cc f)
    version-IsRound (some v) db named = called-IsRound v db db.faults named

  IsRound-at :
      (b : Bool) (e : Entry) (db : Database S)
      → (e.is_dir || not (is_sql e.name)) ≡ b
      → IsRound e db (
          if b
          then (true, db)
          else apply_version execute has_servers has_rollups e (version_of e.name) db)
  IsRound-at true e db skip = inl (refl, refl, λ _. inl skip)
  IsRound-at false e db take_it =
      version-IsRound e (ground arith) (ground arith) (version_of e.name) db refl

  entry-IsRound :
      (e : Entry) (db : Database S)
      → IsRound e db (apply_entry execute has_servers has_rollups e db)
  unfolding apply_entry
  entry-IsRound e db = IsRound-at (e.is_dir || not (is_sql e.name)) e db refl

  -- By the files: to the last, if what is given is no error.
  abbrev pub Reaches : List Entry → List ℕ → S → Bool × Database S → Type 0
  Reaches files us s given = Runs given.0 files us s (rows_of given.1.versions) given.1.schema

  pub stopped_at :
      (files : List Entry) (us : List ℕ) (s : S) (d : Database S)
      → rows_of d.versions ≡ us
      → d.schema ≡ s
      → Reaches files us s (false, d)
  stopped_at files us s d u t =
      subst (λ (vs : List ℕ). Runs false files us s vs d.schema) (sym u)
        (subst (λ (t : S). Runs false files us s us t) (sym t) stopped)

  went_on :
      (e : Entry) (files : List Entry) (db : Database S) (given : Bool × Database S)
      → IsRound e db given
      → ((d : Database S)
          → Reaches files
              (rows_of d.versions)
              d.schema
              (apply_all execute has_servers has_rollups files d))
      → Reaches (e ∷ files) (rows_of db.versions) db.schema (
          and_then execute has_servers has_rollups given
            (apply_all execute has_servers has_rollups files))
  went_on e files db (false, d) (inl (u, t, _)) later =
      stopped_at (e ∷ files) (rows_of db.versions) db.schema d u t
  went_on e files db (false, d) (inr (v, source, file, sql, named, read, new, ran, rows)) later =
      applied e v source file sql named read new ran
        (stopped_at files (v ∷ rows_of db.versions) d.schema d rows refl)
  went_on e files db (true, d) (inl (u, t, skip)) later = passed e (skip refl) (
      subst
        (λ (us : List ℕ).
          Reaches files us db.schema (apply_all execute has_servers has_rollups files d))
        u
        (subst
          (λ (s : S).
            Reaches files (rows_of d.versions) s
              (apply_all execute has_servers has_rollups files d))
          t (later d)))
  went_on e files db (true, d) (inr (v, source, file, sql, named, read, new, ran, rows)) later =
      applied e v source file sql named read new ran (
        subst
          (λ (us : List ℕ).
            Reaches files us d.schema (apply_all execute has_servers has_rollups files d))
          rows (later d))

  pub all-Reaches :
      (files : List Entry) (db : Database S)
      → Reaches files
          (rows_of db.versions)
          db.schema
          (apply_all execute has_servers has_rollups files db)
  unfolding apply_all
  all-Reaches [] db = ended
  all-Reaches (e ∷ files) db =
      went_on e files db (apply_entry execute has_servers has_rollups e db) (entry-IsRound e db)
        (all-Reaches files)
