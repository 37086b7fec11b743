-- ===== src/Store/Imports/Claims.antt =====
-- Members that do not come from VoxelLink.
use voxellink_monitor.Common.{
  ℕ, String, ◌≡◌, refl, ◌∙◌, Bool, not, List, [], ◌∷◌, arith, str_eq, filter,
}
use voxellink_monitor.Domain.{ServerMember, ImportedServer}
use voxellink_monitor.Store.Tables.{MemberRow, Db}
use voxellink_monitor.Store.Session.{Session}
use voxellink_monitor.Store.Session.Invariants.{
  Leaves, Maintains, pure-Maintains, statement-Maintains, bind-Maintains, begun, maintain_rules,
}
use voxellink_monitor.Store.Imports.{
  upsert_row, is_imported_member, delete_members, insert_member, insert_members,
  upsert_voxellink_server,
}

abbrev pub is_claimed : MemberRow → Bool
is_claimed m = not (str_eq m.source "voxellink")

abbrev pub claimed : Db → List MemberRow
claimed w = filter is_claimed w.members

claimed-not_imported :
    (id : String) (ms : List MemberRow)
    → filter is_claimed (filter (λ (m : MemberRow). not (is_imported_member id m)) ms)
      ≡ filter is_claimed ms
claimed-not_imported id [] = refl
claimed-not_imported id (m ∷ rest) = ground (arith, claimed-not_imported id rest)

module _ (members : List MemberRow) where
  abbrev Keeps : Db → Type 0
  Keeps w = claimed w ≡ members

  upsert_row-Keeps :
      (uuid : String) (now : ℕ) (i : ImportedServer) (w : Db)
      → Keeps w
      → Leaves Keeps (upsert_row uuid now i w)
  unfolding upsert_row
  upsert_row-Keeps uuid now i w h = ground arith

  delete_members-Keeps : (id : String) (w : Db) → Keeps w → Keeps (delete_members id w)
  unfolding delete_members
  delete_members-Keeps id w h = claimed-not_imported id w.members ∙ h

  insert_member-Keeps :
      (id : String) (m : ServerMember) (w : Db) → Keeps w → Leaves Keeps (insert_member id m w)
  unfolding insert_member
  insert_member-Keeps id m w h = ground arith

  insert_members-Keeps :
      (id : String) (ms : List ServerMember) → Maintains Keeps (insert_members id ms)
  unfolding insert_members
  insert_members-Keeps id [] = pure-Maintains tt
  insert_members-Keeps id (m ∷ rest) =
      bind-Maintains _ _ (statement-Maintains _ (insert_member-Keeps id m))
        (λ _. insert_members-Keeps id rest)

-- Whichever calls fail, an import leaves the members that have another source than VoxelLink as they
-- are, of every server.
pub upsert_voxellink_server-claimed :
    (uuid : String) (now : ℕ) (i : ImportedServer) (s : Session)
    → claimed (upsert_voxellink_server uuid now i s).1.stored ≡ claimed s.stored
unfolding upsert_voxellink_server
upsert_voxellink_server-claimed uuid now i s =
    begun {P = Keeps (claimed s.stored)} _
      (λ u.
        search (maintain_rules, upsert_row-Keeps, insert_members-Keeps, delete_members-Keeps) depth
          12)
      s refl
