-- ===== src/Store/Imports.antt =====
-- UpsertVoxelLinkServer of postgres.go: a listing and its members, in one transaction.
pub mod Members
pub mod Replace
pub mod Claims
use voxellink_monitor.Common.{
  ℕ, zero, suc, ◌+◌, ◌-◌, ◌*◌, ◌/◌, ◌%◌, ◌^◌, ◌≤◌, ◌<◌, bit_and, bit_or, min, max, String, ◌≡◌,
  refl, sym, ap, ◌∙◌, subst, ◌≢◌, ◌↔◌, ◌⊎◌, inl, inr, Bool, true, false, not, ◌&&◌, ◌||◌, Option,
  none, some, List, [], ◌∷◌, ◌++◌, arith, str_eq, eq_iff, Result, ok, err, Result-cases, ℤ, pos,
  negsuc, ltb, leb, ◌==◌, if◌then◌else◌, ltb→lt, leb→le, ==_iff, Bool-cases, Option-cases, length,
  take, drop, head?, filter, any, update_where, All, length-append, length-take-le,
  length-filter-le, length-update_where, is_empty, drop-nil, Pointwise, take-append, drop-append,
}
use voxellink_monitor.Domain.{
  PublicStatus, operational, degraded, outage, maintenance, unknown, Outcome, success, dns_failure,
  connection_refused, connect_timeout, status_timeout, connection_reset, invalid_status_response,
  probe_error, UserReportType, connection, login, timeout, lag, other, CheckResult, Server,
  ServerMember, ImportedServer, UserReport, CrowdSignal, PendingStateNotification, status_eq,
  outcome_eq, is_failure,
}
use voxellink_monitor.Store.Tables.{ServerRow, MemberRow, Db, server_exists}
use voxellink_monitor.Store.Session.{
  Error, violation, Session, Tx, pure, statement, change, begin, commit, ◌>>=◌, ◌>>◌,
}
use voxellink_monitor.Store.Servers.{to_server}

-- ON CONFLICT (external_source, external_server_id)
abbrev pub is_listing : String → ServerRow → Bool
is_listing external_id s =
    str_eq s.external_source "voxellink" && str_eq s.external_server_id external_id

abbrev pub find_listing : String → List ServerRow → Option ServerRow
find_listing external_id rows = head? (filter (is_listing external_id) rows)

-- The cast to transport_kind and the check of the port.
abbrev pub storable : ImportedServer → Bool
storable i =
    (str_eq i.transport "DIRECT"
      || (str_eq i.transport "CLOUDFLARE_TUNNEL" || str_eq i.transport "CLOUDFLARE_SPECTRUM"))
    && (leb 1 i.port && leb i.port 65535)

abbrev pub relisted : ℕ → ImportedServer → ServerRow → ServerRow
relisted now i s = record s {
  name = i.name;
  hostname = i.hostname;
  port = i.port;
  transport = i.transport;
  updated_at = now;
}

-- A new row has the defaults of the table.
abbrev pub new_row : String → ℕ → ImportedServer → ServerRow
new_row uuid now i = record {
  id = uuid;
  external_source = "voxellink";
  external_server_id = i.external_id;
  name = i.name;
  hostname = i.hostname;
  port = i.port;
  transport = i.transport;
  status = unknown;
  enabled = true;
  status_changed_at = now;
  created_at = now;
  updated_at = now;
}

-- INSERT ... ON CONFLICT DO UPDATE ... RETURNING
unfoldable pub upsert_row : String → ℕ → ImportedServer → Db → Result Error (Server × Db)
upsert_row uuid now i db =
    if storable i
    then elim (find_listing i.external_id db.servers) [
      | some s ↦ ok (
        to_server s.status (relisted now i s),
        record db { servers = update_where (is_listing i.external_id) (relisted now i) db.servers },
      )
      | none ↦ ok (
        to_server unknown (new_row uuid now i),
        record db { servers = new_row uuid now i ∷ db.servers },
      )
    ]
    else err violation

abbrev pub is_imported_member : String → MemberRow → Bool
is_imported_member id m = str_eq m.server_id id && str_eq m.source "voxellink"

unfoldable pub delete_members : String → Db → Db
delete_members id db = record db {
  members = filter (λ (m : MemberRow). not (is_imported_member id m)) db.members;
}

abbrev pub member_row : String → ServerMember → MemberRow
member_row id m = record {
  server_id = id;
  discord_user_id = m.discord_user_id;
  role = m.role;
  source = "voxellink";
}

-- PRIMARY KEY (server_id, discord_user_id), the check of the role and the foreign key
abbrev pub is_taken : String → ServerMember → Db → Bool
is_taken id m db =
    any (λ (r : MemberRow). str_eq r.server_id id && str_eq r.discord_user_id m.discord_user_id)
      db.members

unfoldable pub insert_member : String → ServerMember → Db → Result Error (Unit {0} × Db)
insert_member id m db =
    if not (str_eq m.role "owner" || (str_eq m.role "manager" || str_eq m.role "viewer"))
    then err violation
    else if is_taken id m db
    then err violation
    else if server_exists id db
    then ok (tt, record db { members = member_row id m ∷ db.members })
    else err violation

unfoldable pub insert_members : String → List ServerMember → Tx (Unit {0})
unfolding ◌>>=◌
insert_members id [] = pure tt
insert_members id (m ∷ rest) = do statement (insert_member id m); insert_members id rest

-- `uuid` is what gen_random_uuid() returns.
unfoldable pub upsert_voxellink_server : String → ℕ → ImportedServer → Tx Server
unfolding ◌>>=◌ upsert_row insert_members delete_members
upsert_voxellink_server uuid now i = do
  begin
  server ← statement (upsert_row uuid now i)
  statement (change (delete_members server.id))
  insert_members server.id i.members
  commit
  pure server
