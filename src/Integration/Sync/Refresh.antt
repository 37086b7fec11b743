-- ===== src/Integration/Sync/Refresh.antt =====
-- Sync of sync.go, and the listings that cannot be fetched.
use voxellink_monitor.Common.{
  String, ◌≡◌, refl, inl, inr, List, [], ◌∷◌, Result, ok, err, Bool-cases, is_empty,
}
use voxellink_monitor.Domain.{Server, ImportedServer}
use voxellink_monitor.Integration.Sync.{import_server, import_all, refresh_listed, sync}

module _ {E S : Type 0} (required : E) (fetch : String → S → Result E ImportedServer × S)
    (upsert : ImportedServer → S → Result E Server × S) where
  import_server_down :
      (down : (id : String) (s : S) → (e : E) × (fetch id s ≡ (err e, s))) (id : String) (s : S)
      → (e : E) × (import_server required fetch upsert id s ≡ (err e, s))
  unfolding import_server
  import_server_down down id s = elim (Bool-cases (is_empty id)) [
    | inl e ↦ (required, rw e)
    | inr e ↦ ((down id s).0, rw (e, (down id s).1))
  ]

  import_all_down :
      (down : (id : String) (s : S) → (e : E) × (fetch id s ≡ (err e, s))) (ids : List String)
      (s : S)
      → (import_all required fetch upsert ids s).1 ≡ s
  unfolding import_all
  import_all_down down [] s = refl
  import_all_down down (id ∷ ids) s = rw (import_server_down down id s).1

  refresh_down :
      (down : (id : String) (s : S) → (e : E) × (fetch id s ≡ (err e, s)))
      (r : Result E (List String)) (s : S)
      → (refresh_listed required fetch upsert (r, s)).1 ≡ s
  refresh_down down (ok ids) s = import_all_down down ids s
  refresh_down down (err e) s = refl

  -- While VoxelLink answers no request, a refresh leaves the state as the list of ids left it.
  pub sync_down :
      (external_ids : S → Result E (List String) × S) (s : S)
      → ((id : String) (s : S) → (e : E) × (fetch id s ≡ (err e, s)))
      → (sync required fetch upsert external_ids s).1 ≡ (external_ids s).1
  unfolding sync
  sync_down external_ids s down = let (r, s') = external_ids s in refresh_down down r s'
