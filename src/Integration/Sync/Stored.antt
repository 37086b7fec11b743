-- ===== src/Integration/Sync/Stored.antt =====
-- Sync of sync.go over the store.
use voxellink_monitor.Common.{
  ℕ, String, ◌≡◌, refl, sym, ◌∙◌, subst, inl, inr, Bool, List, [], ◌∷◌, str_eq, Result, ok, err,
  Bool-cases, filter, is_empty,
}
use voxellink_monitor.Domain.{Server, ImportedServer}
use voxellink_monitor.Store.Tables.{Db, ServerRow}
use voxellink_monitor.Store.Session.{Error, Session, query}
use voxellink_monitor.Store.Servers.{voxellink_external_server_ids, sort_by, map_rows}
use voxellink_monitor.Store.Imports.{upsert_voxellink_server}
use voxellink_monitor.Store.Imports.Members.{
  SameMonitoring, SameMonitoring-refl, upsert_voxellink_server-SameMonitoring,
}
use voxellink_monitor.Store.Imports.Claims.{claimed, upsert_voxellink_server-claimed}
use voxellink_monitor.Discord.Bot.Reads.{alone_reads}
use voxellink_monitor.Integration.Sync.{
  go_on, import_server, import_all, store_fetched, refresh_listed, sync,
}

-- What every fetch and every import keeps, a refresh keeps.
module _ {E S : Type 0} (required : E) (fetch : String → S → Result E ImportedServer × S)
    (upsert : ImportedServer → S → Result E Server × S) (P : S → Type 0)
    (fetch_keeps : (id : String) (s : S) → P s → P (fetch id s).1)
    (upsert_keeps : (i : ImportedServer) (s : S) → P s → P (upsert i s).1) where
  fetched_keeps :
      (given : Result E ImportedServer × S)
      → P given.1
      → P (store_fetched required fetch upsert given).1
  fetched_keeps (ok i, s) h = upsert_keeps i s h
  fetched_keeps (err e, s) h = h

  import_server_keeps : (id : String) (s : S) → P s → P (import_server required fetch upsert id s).1
  unfolding import_server
  import_server_keeps id s h = elim (Bool-cases (is_empty id)) [
    | inl e ↦ rw e h
    | inr e ↦ rw e (fetched_keeps (fetch id s) (fetch_keeps id s h))
  ]

  next_keeps :
      (id : String) (rest : S → Result (String × E) (Unit {0}) × S)
      → ((t : S) → P t → P (rest t).1)
      → (given : Result E Server × S) → P given.1
      → P (go_on required fetch upsert id rest given).1
  next_keeps id rest keep (ok _, s) h = keep s h
  next_keeps id rest keep (err e, s) h = h

  import_all_keeps :
      (ids : List String) (s : S) → P s → P (import_all required fetch upsert ids s).1
  unfolding import_all
  import_all_keeps [] s h = h
  import_all_keeps (id ∷ ids) s h =
      next_keeps id (import_all required fetch upsert ids) (import_all_keeps ids)
        (import_server required fetch upsert id s) (import_server_keeps id s h)

  listed_keeps :
      (given : Result E (List String) × S)
      → P given.1
      → P (refresh_listed required fetch upsert given).1
  listed_keeps (ok ids, s) h = import_all_keeps ids s h
  listed_keeps (err e, s) h = h

  pub sync_keeps :
      (ids : S → Result E (List String) × S) (s : S)
      → P (ids s).1
      → P (sync required fetch upsert ids s).1
  unfolding sync
  sync_keeps ids s h = listed_keeps (ids s) h

same_trans : (a b c : Db) → SameMonitoring a b → SameMonitoring b c → SameMonitoring a c
same_trans a b c h k = record {
  checks = h.checks ∙ k.checks;
  incidents = h.incidents ∙ k.incidents;
  reports = h.reports ∙ k.reports;
  pending = h.pending ∙ k.pending;
  windows = h.windows ∙ k.windows;
  channels = h.channels ∙ k.channels;
  quarters = h.quarters ∙ k.quarters;
  hours = h.hours ∙ k.hours;
  days = h.days ∙ k.days;
  report_quarters = h.report_quarters ∙ k.report_quarters;
}

-- What a refresh leaves of the database.
abbrev pub IsKept : Db → Db → Type 0
IsKept old w = SameMonitoring w old × (claimed w ≡ claimed old)

-- The session beside what the provider is: the synchronizer of the worker. `uuid` is what
-- gen_random_uuid() returns for a new server.
module _ {W : Type 0} (required : Error)
    (fetch : String → Session × W → Result Error ImportedServer × (Session × W))
    (uuid : ImportedServer → Session → String) (before : String → String → Bool) (now : ℕ) where
  abbrev beside : {A : Type 0} → W → Result Error A × Session → Result Error A × (Session × W)
  beside world (r, s) = (r, (s, world))

  abbrev pub store_listing : ImportedServer → Session × W → Result Error Server × (Session × W)
  store_listing i (s, world) = beside world (upsert_voxellink_server (uuid i s) now i s)

  abbrev pub stored_ids : Session × W → Result Error (List String) × (Session × W)
  stored_ids (s, world) = beside world (voxellink_external_server_ids before s)

  unfoldable pub refresh : Session × W → Result (String × Error) (Unit {0}) × (Session × W)
  refresh = sync required fetch store_listing stored_ids

  abbrev KeptBeside : Db → Session × W → Type 0
  KeptBeside old s = IsKept old s.0.stored

  store_listing-IsKept :
      (old : Db) (i : ImportedServer) (s : Session × W)
      → KeptBeside old s
      → KeptBeside old (store_listing i s).1
  store_listing-IsKept old i (s, world) (h, k) = (
    same_trans _ s.stored old (upsert_voxellink_server-SameMonitoring (uuid i s) now i s) h,
    upsert_voxellink_server-claimed (uuid i s) now i s ∙ k,
  )

  stored_ids-IsKept : (s : Session × W) → KeptBeside s.0.stored (stored_ids s).1
  unfolding voxellink_external_server_ids
  stored_ids-IsKept (s, world) =
      let e =
        alone_reads s
          (query (λ db. sort_by before (
            map_rows (λ (r : ServerRow). r.external_server_id)
              (filter (λ (r : ServerRow). str_eq r.external_source "voxellink") db.servers))))
          refl in
      subst (IsKept s.stored) (sym e) (SameMonitoring-refl s.stored, refl)

  -- Whatever the provider answers, as long as it leaves the session alone, and whichever calls fail,
  -- a refresh leaves the checks, the incidents, the reports, the queue, the maintenance windows, the
  -- channels, the rollups and the members of another source than VoxelLink as they are.
  pub refresh-IsKept :
      (s : Session × W)
      → ((id : String) (t : Session × W) → (fetch id t).1.0 ≡ t.0)
      → IsKept s.0.stored (refresh s).1.0.stored
  unfolding refresh
  refresh-IsKept s alone_there =
      sync_keeps required fetch store_listing (KeptBeside s.0.stored)
        (λ id t h. subst (λ (u : Session). IsKept s.0.stored u.stored) (sym (alone_there id t)) h)
        (store_listing-IsKept s.0.stored) stored_ids s (stored_ids-IsKept s)
