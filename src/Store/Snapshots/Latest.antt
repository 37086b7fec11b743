-- ===== src/Store/Snapshots/Latest.antt =====
-- The pages show what the scheduler recorded last.
use voxellink_monitor.Common.{
  ℕ, String, ◌≡◌, refl, sym, ap, ◌∙◌, subst, inl, inr, Bool, true, false, not, ◌&&◌, Option, none,
  some, List, [], ◌∷◌, arith, str_eq, eq_iff, Result, ok, if◌then◌else◌, Bool-cases, filter, any,
  All, any-update_where,
}
use voxellink_monitor.Domain.{
  PublicStatus, maintenance, CheckResult, Server, ServerSnapshot, status_eq,
}
use voxellink_monitor.Store.Tables.{ServerRow, CheckRow, Db, in_maintenance, server_exists}
use voxellink_monitor.Store.Session.{Error, connected}
use voxellink_monitor.Store.Checks.{check_row, with_check, recent}
use voxellink_monitor.Store.Checks.Order.{IsNewest, recent-with_check}
use voxellink_monitor.Store.Servers.{to_server, shown_status}
use voxellink_monitor.Store.Servers.Sorted.{All-of}
use voxellink_monitor.Store.Record.{record_check, set_status, open_incident, resolve_incident}
use voxellink_monitor.Store.Record.Policy.{policy, recorded, settle, record_check_lem}
use voxellink_monitor.Store.Record.Refinement.{set_status-rows}
use voxellink_monitor.Store.Snapshots.{latest_check, scan_snapshot, snapshot_of, snapshot_by_id}

abbrev is_row : String → ServerRow → Bool
is_row id s = str_eq s.id id

-- The first of the selected rows.
first_selected :
    (p : ServerRow → Bool) (Q : ServerRow → Type 0) (rows : List ServerRow)
    → any p rows ≡ true
    → All Q rows
    → (s : ServerRow) × (rest : List ServerRow) × (filter p rows ≡ s ∷ rest) × (p s ≡ true) × Q s
first_selected p Q [] h all = cc
first_selected p Q (s ∷ rows) h (q, all) = elim (Bool-cases (p s)) [
  | inl e ↦ (s, filter p rows, rw e, e, q)
  | inr e ↦
      let (t, rest, f, pt, qt) = first_selected p Q rows (rw e at h) all in
      (t, rest, rw e f, pt, qt)
]

All-imp :
    {A : Type 0} {P Q : A → Type 0} → ((x : A) → P x → Q x) → (xs : List A) → All P xs → All Q xs
All-imp f [] h = tt
All-imp f (x ∷ xs) (p, h) = (f x p, All-imp f xs h)

scan_server : (server : Server) (c : Option CheckRow) → (scan_snapshot server c).server ≡ server
unfolding scan_snapshot
scan_server server none = refl
scan_server server (some c) = refl

module _ (uuid : String) (now : ℕ) (server : Server) (r : CheckResult) (db : Db) where
  abbrev final : Db
  final = recorded uuid now server r db

  abbrev verdict : PublicStatus × Bool
  verdict = policy server r (with_check server.id r db)

  abbrev settled : Bool
  settled = not (status_eq server.status maintenance) && verdict.1

  servers_after : final.servers ≡ (
      if settled
      then (set_status now server.id verdict.0 r.at (with_check server.id r db)).servers
      else db.servers)
  unfolding recorded settle open_incident resolve_incident
  servers_after = ground arith

  exists_settled :
      any
        (is_row server.id)
        (set_status now server.id verdict.0 r.at (with_check server.id r db)).servers
      ≡ any (is_row server.id) db.servers
  unfolding set_status
  exists_settled = any-update_where (is_row server.id) (is_row server.id) _ db.servers (λ s. refl)

  exists_after : server_exists server.id db ≡ true → server_exists server.id final ≡ true
  exists_after known = elim (Bool-cases settled) [
    | inl e ↦ rw (servers_after, e, exists_settled) known
    | inr e ↦ rw (servers_after, e) known
  ]

  -- If the verdict was a change, the rows of the server have its status.
  abbrev HasVerdict : ServerRow → Type 0
  HasVerdict s = str_eq s.id server.id ≡ true → settled ≡ true → s.status ≡ verdict.0

  rows_after : All HasVerdict final.servers
  rows_after = elim (Bool-cases settled) [
    | inl e ↦ subst (All HasVerdict) (sym (servers_after ∙ rw e)) (
        All-imp (λ s h same _. h same) _
          (set_status-rows now server.id verdict.0 r.at (with_check server.id r db)))
    | inr e ↦ All-of HasVerdict (λ s same k. cc (e, k)) final.servers
  ]

  recent_after : recent final server.id 1 ≡ recent (with_check server.id r db) server.id 1
  unfolding recent recorded settle set_status open_incident resolve_incident
  recent_after = ground arith

  latest_after :
      IsNewest server.id r db
      → latest_check server.id final ≡ some (check_row db.check_serial server.id r)
  unfolding latest_check
  latest_after newest = rw (recent_after, recent-with_check server.id r db newest 0)

  -- The snapshot of the server, as a page or a command asks for it after the check.
  abbrev pub Shows : (later : ℕ) → Result Error ServerSnapshot → Type 0
  Shows later result =
      (v : ServerSnapshot) × (result ≡ ok v)
      × (v.last_checked_at ≡ some r.at)
      × (v.last_outcome ≡ some r.outcome)
      × (v.server.id ≡ server.id)
      × (settled ≡ true
          → in_maintenance final server.id later ≡ false
          → v.server.status ≡ verdict.0)

  row-Shows :
      (later : ℕ) (s : ServerRow)
      → IsNewest server.id r db
      → str_eq s.id server.id ≡ true
      → HasVerdict s
      → Shows later (ok (snapshot_of later final s))
  row-Shows later s newest same verdict_shown =
      let e : s.id ≡ server.id = (eq_iff s.id server.id).0 same in
      let shown : (snapshot_of later final s).server ≡ to_server (shown_status later final s) s =
        unfold snapshot_of in
        scan_server (to_server (shown_status later final s) s) (latest_check s.id final) in
      (
        snapshot_of later final s,
        refl,
        unfold snapshot_of in rw (e, latest_after newest),
        unfold snapshot_of in rw (e, latest_after newest),
        ap (λ (v : Server). v.id) shown ∙ e,
        λ k quiet. ap (λ (v : Server). v.status) shown ∙ rw (e, quiet) (verdict_shown same k),
      )

  -- On a server that refuses no call, after RecordCheck of a known server with the newest check its
  -- snapshot shows the instant and the outcome of that check; and it shows the status of the
  -- verdict, if that was a change and no maintenance is on.
  pub snapshot-record_check :
      (later : ℕ)
      → server_exists server.id db ≡ true
      → IsNewest server.id r db
      → Shows later
          (snapshot_by_id later server.id (record_check uuid now server r (connected db)).1).0
  unfolding snapshot_by_id
  snapshot-record_check later known newest =
      let (s, rest, selected, same, verdict_shown) =
        first_selected (is_row server.id) HasVerdict final.servers (exists_after known)
          rows_after in
      rw (record_check_lem uuid now server r db known, selected)
        (row-Shows later s newest same verdict_shown)
