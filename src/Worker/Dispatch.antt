-- ===== src/Worker/Dispatch.antt =====
-- The delivery of queued notifications.
use voxellink_monitor.Common.{
  ℕ, String, ◌≡◌, refl, ap, ◌∙◌, inl, inr, Bool, true, false, ◌&&◌, Option, none, some, List, [],
  ◌∷◌, ◌++◌, str_eq, ltb, ◌==◌, pos, if◌then◌else◌, Bool-cases, length, take, drop, filter, any,
  update_where, drop-nil,
}
use voxellink_monitor.Domain.{PendingStateNotification}
use voxellink_monitor.Store.Tables.{Db, PendingRow, ServerRow}
use voxellink_monitor.Store.Servers.{to_server, sort_by}
use voxellink_monitor.Store.Notices.{
  join_server, join_all, to_notification, pending_rows, pending_state_notifications, mark_row,
  mark_state_notification_delivered,
}
use voxellink_monitor.Worker.{dispatch_all, dispatch_pending}
use voxellink_monitor.Worker.World.{World, Notice, services}

-- A row of the queue that no instant of delivery is written in.
abbrev pub is_waiting : PendingRow → Bool
is_waiting n = elim n.delivered_at [ none ↦ true | some _ ↦ false ]

-- A row with each of the servers of its id.
abbrev pub notes_of : PendingRow → List ServerRow → List PendingStateNotification
notes_of n [] = []
notes_of n (s ∷ rest) =
    let others = notes_of n rest in
    if str_eq s.id n.server_id
    then record {
      id = n.id;
      server = to_server s.status s;
      state = n.state;
      result = record {
        outcome = n.outcome;
        latency = 0;
        players_online = pos 0;
        players_max = pos 0;
        detail = "";
        at = n.created_at;
      };
    }
      ∷ others
    else others

abbrev pub notes : List PendingRow → List ServerRow → List PendingStateNotification
notes [] servers = []
notes (n ∷ rest) servers = notes_of n servers ++ notes rest servers

-- The first hundred of the waiting notifications, in the order of their ids.
abbrev pub queue : Db → List PendingStateNotification
queue db = take 100 (
    notes (sort_by (λ (a b : PendingRow). ltb a.id b.id) (filter is_waiting db.pending)) db.servers)

-- The waiting rows of some notifications get the instant, no other row changes.
abbrev pub marked : ℕ → List PendingStateNotification → List PendingRow → List PendingRow
marked now items ns =
    update_where
      (λ (n : PendingRow).
        is_waiting n && any (λ (i : PendingStateNotification). n.id == i.id) items)
      (λ (n : PendingRow). record n { delivered_at = some now }) ns

join_server-notes_of :
    (n : PendingRow) (servers : List ServerRow) → join_server n servers ≡ notes_of n servers
join_server-notes_of n [] = refl
join_server-notes_of n (s ∷ rest) = elim (Bool-cases (str_eq s.id n.server_id)) [
  | inl same ↦ rw same (
      ap (λ (l : List PendingStateNotification). to_notification n s ∷ l)
        (join_server-notes_of n rest))
  | inr other ↦ rw other (join_server-notes_of n rest)
]

join_all-notes :
    (ns : List PendingRow) (servers : List ServerRow) → join_all ns servers ≡ notes ns servers
join_all-notes [] servers = refl
join_all-notes (n ∷ rest) servers =
    rw (join_server-notes_of n servers, join_all-notes rest servers) refl

pending_rows-queue : (db : Db) → pending_rows 100 db ≡ queue db
unfolding pending_rows
pending_rows-queue db = ap (take 100) (
    join_all-notes (sort_by (λ (a b : PendingRow). ltb a.id b.id) (filter is_waiting db.pending))
      db.servers)

marked-nil : (now : ℕ) (ns : List PendingRow) → marked now [] ns ≡ ns
marked-nil now [] = refl
marked-nil now (n ∷ rest) = elim (Bool-cases (is_waiting n)) [
  | inl waits ↦ rw (waits, marked-nil now rest) refl
  | inr done ↦ rw (done, marked-nil now rest) refl
]

-- A row that is marked for one notification, then for others.
abbrev after_one : ℕ → ℕ → PendingRow → PendingRow
after_one now id n = if n.id == id && is_waiting n then record n { delivered_at = some now } else n

abbrev marked_row : ℕ → List PendingStateNotification → PendingRow → PendingRow
marked_row now items n =
    if is_waiting n && any (λ (i : PendingStateNotification). n.id == i.id) items
    then record n { delivered_at = some now }
    else n

marked_row-after_one :
    (now : ℕ) (i : PendingStateNotification) (items : List PendingStateNotification)
    (n : PendingRow) (d : Option ℕ)
    → marked_row now items (after_one now i.id (record n { delivered_at = d }))
      ≡ marked_row now (i ∷ items) (record n { delivered_at = d })
marked_row-after_one now i items n none = elim (Bool-cases (n.id == i.id)) [
  | inl same ↦ rw same refl
  | inr other ↦ rw other refl
]
marked_row-after_one now i items n (some t) = elim (Bool-cases (n.id == i.id)) [
  | inl same ↦ rw same refl
  | inr other ↦ rw other refl
]

marked-mark_row :
    (now : ℕ) (i : PendingStateNotification) (items : List PendingStateNotification)
    (ns : List PendingRow)
    → marked now items (
        update_where
          (λ (n : PendingRow). n.id == i.id && is_waiting n)
          (λ (n : PendingRow). record n { delivered_at = some now })
          ns)
      ≡ marked now (i ∷ items) ns
marked-mark_row now i items [] = refl
marked-mark_row now i items (n ∷ rest) =
    ap
      (λ (m : PendingRow).
        m
        ∷ marked now items (
            update_where (λ (n : PendingRow). n.id == i.id && is_waiting n)
              (λ (n : PendingRow). record n { delivered_at = some now }) rest))
      (marked_row-after_one now i items n n.delivered_at)
    ∙ ap (λ (ms : List PendingRow). marked_row now (i ∷ items) n ∷ ms)
        (marked-mark_row now i items rest)

-- The items whose call of StateChanged returns no error.
abbrev pub accepted : List Bool → List PendingStateNotification → List PendingStateNotification
accepted refusals [] = []
accepted [] (i ∷ rest) = i ∷ accepted [] rest
accepted (true ∷ refusals) (i ∷ rest) = accepted refusals rest
accepted (false ∷ refusals) (i ∷ rest) = i ∷ accepted refusals rest

abbrev pub mark_all : ℕ → List PendingStateNotification → Db → Db
mark_all now [] db = db
mark_all now (i ∷ rest) db = mark_all now rest (mark_row now i.id db)

mark_all-marked :
    (now : ℕ) (items : List PendingStateNotification) (db : Db)
    → mark_all now items db ≡ record db { pending = marked now items db.pending }
unfolding mark_row
mark_all-marked now [] db = rw (marked-nil now db.pending) refl
mark_all-marked now (i ∷ rest) db =
    mark_all-marked now rest (mark_row now i.id db)
    ∙ ap (λ (ns : List PendingRow). record db { pending = ns })
        (marked-mark_row now i rest db.pending)

abbrev to_notice : PendingStateNotification → Notice
to_notice i = record { server = i.server; state = i.state; result = i.result }

-- The newest notice first.
abbrev pub tell : List PendingStateNotification → List Notice → List Notice
tell [] sent = sent
tell (i ∷ rest) sent = tell rest (to_notice i ∷ sent)

-- The world with PostgreSQL refusing no call, and the notifier failing as `refusals` says.
abbrev pub online : World → Db → List Bool → List Notice → World
online s db refusals notices = record s {
  session = record s.session { stored = db; faults = [] };
  refusals = refusals;
  notices = notices;
}

module _ (uuid : World → String) (s : World) where
  dispatch_all-online :
      (items : List PendingStateNotification) (db : Db) (refusals : List Bool)
      (notices : List Notice)
      → dispatch_all (services uuid) items (online s db refusals notices)
        ≡ online s
            (mark_all s.clock (accepted refusals items) db)
            (drop (length items) refusals)
            (tell (accepted refusals items) notices)
  unfolding dispatch_all services mark_state_notification_delivered
  dispatch_all-online [] db refusals notices = refl
  dispatch_all-online (i ∷ rest) db [] notices =
      dispatch_all-online rest (mark_row s.clock i.id db) [] (to_notice i ∷ notices) ∙ rw drop-nil
  dispatch_all-online (i ∷ rest) db (true ∷ refusals) notices =
      dispatch_all-online rest db refusals notices
  dispatch_all-online (i ∷ rest) db (false ∷ refusals) notices =
      dispatch_all-online rest (mark_row s.clock i.id db) refusals (to_notice i ∷ notices)

  -- With the database up, of the first hundred waiting notifications, in the order of their ids, exactly
  -- those are handed on whose call of StateChanged returns no error, in that order; their rows, which
  -- had no instant of delivery, get that of the clock, and no other row of the queue and no other
  -- table changes.
  pub dispatch_pending-online :
      (db : Db) (refusals : List Bool) (notices : List Notice)
      → let taken = accepted refusals (queue db) in
        dispatch_pending (services uuid) (online s db refusals notices)
        ≡ online s
            (record db { pending = marked s.clock taken db.pending })
            (drop (length (queue db)) refusals)
            (tell taken notices)
  unfolding dispatch_pending services pending_state_notifications
  dispatch_pending-online db refusals notices =
      dispatch_all-online (pending_rows 100 db) db refusals notices
      ∙ rw (pending_rows-queue db, mark_all-marked s.clock (accepted refusals (queue db)) db) refl
