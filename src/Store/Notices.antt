-- ===== src/Store/Notices.antt =====
-- The queue pending_state_notifications: PendingStateNotifications and
-- MarkStateNotificationDelivered of postgres.go.
use voxellink_monitor.Common.{
  ℕ, Bool, true, false, ◌&&◌, none, some, List, [], ◌∷◌, ◌++◌, str_eq, pos, ltb, ◌==◌, take, filter,
  update_where,
}
use voxellink_monitor.Domain.{PendingStateNotification}
use voxellink_monitor.Store.Tables.{ServerRow, PendingRow, Db}
use voxellink_monitor.Store.Session.{Tx, query, change, alone}
use voxellink_monitor.Store.Servers.{to_server, map_rows, sort_by}

abbrev pub is_undelivered : PendingRow → Bool
is_undelivered n = elim n.delivered_at [ none ↦ true | some t ↦ false ]

-- A scanned row: of the result the query fills the outcome and the instant only.
abbrev pub to_notification : PendingRow → ServerRow → PendingStateNotification
to_notification n s = record {
  id = n.id;
  server = to_server s.status s;
  state = n.state;
  result = record {
    outcome = n.outcome;
    latency = 0;
    players_online = pos 0;
    players_max = pos 0;
    detail = "";
    at = n.created_at;
  };
}

-- JOIN monitored_servers s ON s.id = n.server_id
abbrev pub join_server : PendingRow → List ServerRow → List PendingStateNotification
join_server n servers =
    map_rows (to_notification n) (filter (λ (s : ServerRow). str_eq s.id n.server_id) servers)

abbrev pub join_all : List PendingRow → List ServerRow → List PendingStateNotification
join_all [] servers = []
join_all (n ∷ ns) servers = join_server n servers ++ join_all ns servers

unfoldable pub pending_rows : ℕ → Db → List PendingStateNotification
unfolding sort_by
pending_rows limit db = take limit (
    join_all (sort_by (λ (a b : PendingRow). ltb a.id b.id) (filter is_undelivered db.pending))
      db.servers)

unfoldable pub pending_state_notifications : ℕ → Tx (List PendingStateNotification)
unfolding alone pending_rows
pending_state_notifications limit = alone (query (pending_rows limit))

unfoldable pub mark_row : ℕ → ℕ → Db → Db
mark_row now id db = record db {
  pending =
      update_where (λ (n : PendingRow). n.id == id && is_undelivered n)
        (λ (n : PendingRow). record n { delivered_at = some now }) db.pending;
}

unfoldable pub mark_state_notification_delivered : ℕ → ℕ → Tx (Unit {0})
unfolding alone mark_row
mark_state_notification_delivered now id = alone (change (mark_row now id))
