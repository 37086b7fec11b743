-- ===== src/Migrate/Calls.antt =====
-- How a property passes through the calls of Apply, of which each may be refused.
use voxellink_monitor.Common.{ℕ, String, Bool, true, false, Option, List, [], ◌∷◌}
use voxellink_monitor.Migrate.{Database, rows_of, M, call_with, call, and_then}

module _ {S : Type 0} (execute : String → S → Option S) (has_servers has_rollups : S → Bool) where
  module _ (Q : List ℕ → S → Type 0) where
    abbrev pub Holds : Database S → Type 0
    Holds db = Q (rows_of db.versions) db.schema

    abbrev pub Keeps : M execute has_servers has_rollups → Type 0
    Keeps m = (db : Database S) → Holds db → Holds (m db).1

    pub call_with-Keeps :
        (f : M execute has_servers has_rollups) (faults : List Bool)
        → Keeps f
        → Keeps (λ db. call_with execute has_servers has_rollups f db faults)
    call_with-Keeps f [] k db h = k db h
    call_with-Keeps f (true ∷ faults) k db h = h
    call_with-Keeps f (false ∷ faults) k db h = k (record db { faults = faults }) h

    pub call-Keeps :
        (f : M execute has_servers has_rollups)
        → Keeps f
        → Keeps (call execute has_servers has_rollups f)
    call-Keeps f k db h = call_with-Keeps f db.faults k db h

  -- A property of what comes of a call and of what follows it, if errors have it.
  module _ (R : Bool × Database S → Type 0) (fails : (d : Database S) → R (false, d)) where
    pub call_with_post :
        (f k : M execute has_servers has_rollups) (d : Database S) (faults : List Bool)
        → ((fs : List Bool)
            → R (and_then execute has_servers has_rollups (f (record d { faults = fs })) k))
        → R (
            and_then execute has_servers has_rollups
              (call_with execute has_servers has_rollups f d faults)
              k)
    call_with_post f k d [] good = good d.faults
    call_with_post f k d (true ∷ faults) good = fails _
    call_with_post f k d (false ∷ faults) good = good faults

    pub last_call_post :
        (f : M execute has_servers has_rollups) (d : Database S) (faults : List Bool)
        → ((fs : List Bool) → R (f (record d { faults = fs })))
        → R (call_with execute has_servers has_rollups f d faults)
    last_call_post f d [] good = good d.faults
    last_call_post f d (true ∷ faults) good = fails _
    last_call_post f d (false ∷ faults) good = good faults
