-- ===== src/Discord/Bot/Reads.antt =====
-- The queries of the bot leave what is committed.
use voxellink_monitor.Common.{
  ℕ, String, ◌≡◌, refl, inl, inr, ◌&&◌, List, [], ◌∷◌, str_eq, Result, ok, err, Bool-cases, filter,
  any,
}
use voxellink_monitor.Store.Tables.{ServerRow, ChannelRow, Db}
use voxellink_monitor.Store.Session.{
  Error, Session, alone, query, answer_alone, next_fault, later_faults,
}
use voxellink_monitor.Store.Session.Invariants.{Leaves}
use voxellink_monitor.Store.Snapshots.{
  first_row, snapshot, snapshot_of, incident_rows, snapshot_by_external_id,
  snapshot_by_discord_channel, recent_incidents,
}
use voxellink_monitor.Store.Uptime.{uptime_24h, uptime_of_day}
use voxellink_monitor.Store.Servers.{map_rows}

module _ {A : Type 0} (s : Session) where
  answer_kept :
      (r : Result Error (A × Db)) (t : Session)
      → Leaves (λ (w : Db). w ≡ s.stored) r
      → t.stored ≡ s.stored
      → (answer_alone r t).1.stored ≡ s.stored
  answer_kept (ok (a, db)) t h k = h
  answer_kept (err e) t h k = k

  -- A statement that only reads leaves what is committed.
  pub alone_reads :
      (f : Db → Result Error (A × Db))
      → Leaves (λ (w : Db). w ≡ s.stored) (f s.stored)
      → (alone f s).1.stored ≡ s.stored
  unfolding alone
  alone_reads f h = elim (Bool-cases (next_fault s.faults)) [
    | inl down ↦ rw down refl
    | inr up ↦ rw up (answer_kept (f s.stored) (record s { faults = later_faults s.faults }) h refl)
  ]

first_row_reads :
    {A : Type 0} (db : Db) (rows : List A) → Leaves (λ (w : Db). w ≡ db) (first_row db rows)
first_row_reads db [] = tt
first_row_reads db (x ∷ xs) = refl

pub uptime_reads : (now : ℕ) (id : String) (s : Session) → (uptime_24h now id s).1.stored ≡ s.stored
unfolding uptime_24h
uptime_reads now id s = alone_reads s (query (uptime_of_day now id)) refl

pub incidents_read : (id : String) (s : Session) → (recent_incidents id 5 s).1.stored ≡ s.stored
unfolding recent_incidents
incidents_read id s = alone_reads s (query (incident_rows id 5)) refl

snapshot_reads :
    (now : ℕ) (clause : Db → List ServerRow) (s : Session)
    → (snapshot now clause s).1.stored ≡ s.stored
unfolding snapshot
snapshot_reads now clause s =
    alone_reads s (λ db. first_row db (map_rows (snapshot_of now db) (clause db)))
      (first_row_reads s.stored (map_rows (snapshot_of now s.stored) (clause s.stored)))

pub external_reads :
    (now : ℕ) (external_id : String) (s : Session)
    → (snapshot_by_external_id now external_id s).1.stored ≡ s.stored
unfolding snapshot_by_external_id
external_reads now external_id s =
    snapshot_reads now
      (λ db.
        filter
          (λ (r : ServerRow).
            str_eq r.external_source "voxellink" && str_eq r.external_server_id external_id)
          db.servers)
      s

pub channel_reads :
    (now : ℕ) (channel : String) (s : Session)
    → (snapshot_by_discord_channel now channel s).1.stored ≡ s.stored
unfolding snapshot_by_discord_channel
channel_reads now channel s =
    snapshot_reads now
      (λ db.
        filter
          (λ (r : ServerRow).
            any
              (λ (c : ChannelRow).
                str_eq c.server_id r.id && (str_eq c.channel_id channel && c.enabled))
              db.channels)
          db.servers)
      s
