-- ===== src/Store/Servers.antt =====
-- EnabledServers, NotificationChannelIDs and VoxelLinkExternalServerIDs of postgres.go.
pub mod Sorted
use voxellink_monitor.Common.{
  ℕ, String, Bool, ◌&&◌, List, [], ◌∷◌, str_eq, ltb, if◌then◌else◌, filter,
}
use voxellink_monitor.Domain.{PublicStatus, maintenance, Server}
use voxellink_monitor.Store.Tables.{ServerRow, ChannelRow, Db, in_maintenance}
use voxellink_monitor.Store.Session.{Tx, query, alone}

-- CASE WHEN EXISTS (a running maintenance window) THEN 'MAINTENANCE' ELSE status END
abbrev pub shown_status : ℕ → Db → ServerRow → PublicStatus
shown_status now db s = if in_maintenance db s.id now then maintenance else s.status

abbrev pub to_server : PublicStatus → ServerRow → Server
to_server status s = record {
  id = s.id;
  name = s.name;
  hostname = s.hostname;
  port = s.port;
  status = status;
  transport = s.transport;
  enabled = s.enabled;
}

abbrev pub map_rows : {A B : Type 0} → (A → B) → List A → List B
map_rows f [] = []
map_rows f (x ∷ xs) = f x ∷ map_rows f xs

-- A stable insertion sort: ORDER BY key, where `before` says that a key is strictly smaller.
module _ {A : Type 0} (before : A → A → Bool) where
  insert_by : A → List A → List A
  insert_by x [] = x ∷ []
  insert_by x (y ∷ ys) = if before y x then y ∷ insert_by x ys else x ∷ y ∷ ys

  unfoldable pub sort_by : List A → List A
  unfolding insert_by
  sort_by [] = []
  sort_by (x ∷ xs) = insert_by x (sort_by xs)

unfoldable pub enabled_rows : ℕ → Db → List Server
unfolding sort_by
enabled_rows now db =
    map_rows (λ (s : ServerRow). to_server (shown_status now db s) s)
      (sort_by (λ (a b : ServerRow). ltb a.created_at b.created_at)
        (filter (λ (s : ServerRow). s.enabled) db.servers))

unfoldable pub enabled_servers : ℕ → Tx (List Server)
unfolding alone enabled_rows
enabled_servers now = alone (query (enabled_rows now))

unfoldable pub notification_channel_ids : String → Tx (List String)
unfolding alone
notification_channel_ids id = alone (
    query (λ db.
      map_rows (λ (c : ChannelRow). c.channel_id)
        (filter (λ (c : ChannelRow). str_eq c.server_id id && c.enabled) db.channels)))

-- ORDER BY external_server_id: `before` is the order of the database's collation.
unfoldable pub voxellink_external_server_ids : (String → String → Bool) → Tx (List String)
unfolding alone sort_by
voxellink_external_server_ids before = alone (
    query (λ db. sort_by before (
      map_rows (λ (s : ServerRow). s.external_server_id)
        (filter (λ (s : ServerRow). str_eq s.external_source "voxellink") db.servers))))
