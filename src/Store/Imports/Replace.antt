-- ===== src/Store/Imports/Replace.antt =====
-- The members of a server after an import.
use voxellink_monitor.Common.{
  ℕ, String, ◌≡◌, refl, ◌∙◌, inl, inr, true, false, not, ◌&&◌, ◌||◌, none, some, List, [], ◌∷◌,
  arith, str_eq, ok, Option-cases, head?, filter, any, any-update_where,
}
use voxellink_monitor.Domain.{Server, ServerMember, ImportedServer}
use text.Mathlib.TextPositions.{eq_refl}
use voxellink_monitor.Store.Tables.{MemberRow, ServerRow, Db, server_exists}
use voxellink_monitor.Store.Session.{Session, connected, ◌>>=◌}
use voxellink_monitor.Store.Imports.{
  is_listing, find_listing, storable, relisted, upsert_row, delete_members, member_row,
  insert_member, insert_members, upsert_voxellink_server,
}

-- The id of the row that the listing has, or gets.
abbrev pub listing_id : String → ImportedServer → Db → String
listing_id uuid i db =
    elim (head? (
      filter
        (λ (s : ServerRow).
          str_eq s.external_source "voxellink" && str_eq s.external_server_id i.external_id)
        db.servers)) [ none ↦ uuid | some s ↦ s.id ]

-- What is left of the members before the new ones are inserted: those of another server, and those
-- of another source.
abbrev pub kept : String → List MemberRow → List MemberRow
kept id = filter (λ (m : MemberRow). not (str_eq m.server_id id && str_eq m.source "voxellink"))

-- The row of a member of the listing.
abbrev pub listed_row : String → ServerMember → MemberRow
listed_row id m = record {
  server_id = id;
  discord_user_id = m.discord_user_id;
  role = m.role;
  source = "voxellink";
}

-- The members of the listing put before the others, the last one first.
abbrev pub listed : String → List ServerMember → List MemberRow → List MemberRow
listed id [] rows = rows
listed id (m ∷ ms) rows = listed id ms (listed_row id m ∷ rows)

-- Every role is known, and no member is there twice.
abbrev pub Insertable : String → List ServerMember → List MemberRow → Type 0
Insertable id [] rows = Unit
Insertable id (m ∷ ms) rows =
    ((str_eq m.role "owner" || (str_eq m.role "manager" || str_eq m.role "viewer")) ≡ true)
    × (any (λ (r : MemberRow). str_eq r.server_id id && str_eq r.discord_user_id m.discord_user_id)
          rows
        ≡ false)
    × Insertable id ms (listed_row id m ∷ rows)

abbrev seeing : Db → Db → Session
seeing db w = record (connected db) { working = w }

insert_members_lem :
    (id : String) (ms : List ServerMember) (db w : Db)
    → server_exists id w ≡ true
    → Insertable id ms w.members
    → insert_members id ms (seeing db w)
      ≡ (ok tt, seeing db (record w { members = listed id ms w.members }))
unfolding insert_members insert_member
insert_members_lem id [] db w known k = refl
insert_members_lem id (m ∷ ms) db w known (role, fresh, k) =
    rw (◌>>=◌, role, fresh, known)
      (insert_members_lem id ms db (record w { members = member_row id m ∷ w.members }) known k)

find_listing-known :
    (external_id : String) (rows : List ServerRow) (s : ServerRow)
    → find_listing external_id rows ≡ some s
    → any (λ (r : ServerRow). str_eq r.id s.id) rows ≡ true
find_listing-known external_id [] s h = cc
find_listing-known external_id (r ∷ rest) s h =
    ground (arith, eq_refl s.id, find_listing-known external_id rest s)

-- The row that an import makes or finds.
upsert_row_lem :
    (uuid : String) (now : ℕ) (i : ImportedServer) (db : Db)
    → storable i ≡ true
    → (server : Server) × (w : Db) × (upsert_row uuid now i db ≡ ok (server, w))
      × (server.id ≡ listing_id uuid i db)
      × (server_exists server.id w ≡ true)
      × (w.members ≡ db.members)
unfolding upsert_row
upsert_row_lem uuid now i db fits = elim (Option-cases (find_listing i.external_id db.servers)) [
  | inl none_found ↦
      rw (fits, none_found)
        (_, _, refl, rw (listing_id, none_found) refl, rw (eq_refl uuid) refl, refl)
  | inr (s, found) ↦
      rw (fits, found)
        (
          _,
          _,
          refl,
          rw (listing_id, found) refl,
          any-update_where (is_listing i.external_id) (λ (r : ServerRow). str_eq r.id s.id)
                (relisted now i) db.servers (λ r. refl)
              ∙ find_listing-known i.external_id db.servers s found,
          refl,
        )
]

-- On a server that refuses no call, an import of a listing that fits the table and whose members
-- can be inserted succeeds, and replaces the members of its server that came from VoxelLink by
-- those of the listing.
pub upsert_voxellink_server_lem :
    (uuid : String) (now : ℕ) (i : ImportedServer) (db : Db)
    → storable i ≡ true
    → Insertable (listing_id uuid i db) i.members (kept (listing_id uuid i db) db.members)
    → let (r, s) = upsert_voxellink_server uuid now i (connected db) in
      (server : Server) × (r ≡ ok server)
      × (server.id ≡ listing_id uuid i db)
      × (s.stored.members ≡ listed server.id i.members (kept server.id db.members))
unfolding upsert_voxellink_server delete_members
upsert_voxellink_server_lem uuid now i db fits insertable =
    let (server, w, e, same_id, known, same) = upsert_row_lem uuid now i db fits in
    let insertable' : Insertable server.id i.members (kept server.id w.members) =
      rw (same_id, same) insertable in
    rw
      (
        ◌>>=◌,
        e,
        insert_members_lem server.id i.members db (delete_members server.id w) known insertable',
      )
      (server, refl, same_id, rw same refl)
