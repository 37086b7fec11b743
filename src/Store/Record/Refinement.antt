-- ===== src/Store/Record/Refinement.antt =====
-- The persisted state policy against the state machine of internal/incident.
use voxellink_monitor.Common.{
  ℕ, suc, min, String, ◌≡◌, refl, sym, ◌∙◌, inl, inr, Bool, true, false, List, [], ◌∷◌, arith,
  str_eq, ok, leb, ◌==◌, if◌then◌else◌, Bool-cases, length, take, filter, update_where, All,
}
use voxellink_monitor.Domain.{
  PublicStatus, outage, maintenance, Outcome, success, CheckResult, Server, status_eq, outcome_eq,
  is_failure,
}
use voxellink_monitor.Incident
use voxellink_monitor.Incident.{Machine}
use voxellink_monitor.Incident.Confirmation.{apply-changed}
use voxellink_monitor.Store.Tables.{ServerRow, CheckRow, Db, server_exists}
use voxellink_monitor.Store.Session.{connected}
use voxellink_monitor.Store.Checks.{
  check_row, with_check, recent, recent_matching_count, recent_failures,
}
use voxellink_monitor.Store.Checks.Order.{IsNewest, recent-with_check}
use voxellink_monitor.Store.Signal.{crowd_signal}
use voxellink_monitor.Store.Record.{record_check, set_status, open_incident, resolve_incident}
use voxellink_monitor.Store.Record.Policy.{settle, probe_policy, policy, recorded, record_check_lem}

-- How many of the newest checks in a row fit.
abbrev pub leading : (Outcome → Bool) → List CheckRow → ℕ
leading p [] = 0
leading p (c ∷ cs) = let rest = leading p cs in if p c.outcome then suc rest else 0

abbrev is_success : Outcome → Bool
is_success o = outcome_eq o success

-- The machine that has seen the server's checks: its state is the status that the caller hands on
-- and that the server's row has; it counts its failures as the last three checks show them, and
-- during an outage its successes as the last check does.
pub record Tracks (m : Machine) (server : Server) (db : Db) : Type 0 where
  pub status : server.status ≡ m.state
  pub rows : All (λ (s : ServerRow). str_eq s.id server.id ≡ true → s.status ≡ m.state) db.servers
  pub failures : min 3 m.failures ≡ leading is_failure (recent db server.id 3)
  pub successes :
      m.state ≡ outage → m.successes ≡ min 1 (leading is_success (recent db server.id 3))

take_one : (xs : List CheckRow) → take 1 xs ≡ take 1 (take 3 xs)
take_one [] = refl
take_one (x ∷ xs) = refl

take_two : (xs : List CheckRow) → take 2 xs ≡ take 2 (take 3 xs)
take_two [] = refl
take_two (x ∷ []) = refl
take_two (x ∷ y ∷ xs) = refl

newest_one : (id : String) (db : Db) → recent db id 1 ≡ take 1 (recent db id 3)
unfolding recent
newest_one id db = take_one _

newest_two : (id : String) (db : Db) → recent db id 2 ≡ take 2 (recent db id 3)
unfolding recent
newest_two id db = take_two _

leading-take_two :
    (p : Outcome → Bool) (xs : List CheckRow) → leading p (take 2 xs) ≡ min 2 (leading p xs)
leading-take_two p [] = refl
leading-take_two p (x ∷ []) = ground arith
leading-take_two p (x ∷ y ∷ xs) = ground arith

count-take_two :
    (p : Outcome → Bool) (xs : List CheckRow)
    → (length (filter (λ (c : CheckRow). p c.outcome) (take 2 xs)) == 2) ≡ leb 2 (leading p xs)
count-take_two p [] = refl
count-take_two p (x ∷ []) = ground arith
count-take_two p (x ∷ y ∷ xs) = ground arith

count-take_one :
    (p : Outcome → Bool) (xs : List CheckRow)
    → (length (filter (λ (c : CheckRow). p c.outcome) (take 1 xs)) == 1) ≡ leb 1 (leading p xs)
count-take_one p [] = refl
count-take_one p (x ∷ xs) = ground arith

module _ (server : Server) (result : CheckResult) (db : Db)
    (newest : IsNewest server.id result db) where
  abbrev history : List CheckRow
  history = recent db server.id 3

  abbrev after : Db
  after = with_check server.id result db

  recent-three :
      recent after server.id 3 ≡ check_row db.check_serial server.id result ∷ take 2 history
  recent-three = rw (recent-with_check server.id result db newest 2) (rw (newest_two server.id db))

  recent-two :
      recent after server.id 2 ≡ check_row db.check_serial server.id result ∷ take 1 history
  recent-two = rw (recent-with_check server.id result db newest 1) (rw (newest_one server.id db))

  failures_after :
      is_failure result.outcome ≡ true
      → (recent_failures server.id 3 after == 3) ≡ leb 2 (leading is_failure history)
  unfolding recent_failures
  failures_after h = rw recent-three (ground (arith, h, count-take_two is_failure history))

  successes_after :
      is_success result.outcome ≡ true
      → (recent_matching_count server.id 2 success after == 2) ≡ leb 1 (leading is_success history)
  unfolding recent_matching_count
  successes_after h = rw recent-two (ground (arith, h, count-take_one is_success history))

  -- Fed with the next observation, the machine and the policy give one verdict.
  probe_policy-apply :
      (m : Machine)
      → Tracks m server db
      → let (next, changed) = probe_policy server result.outcome after in
        ((Incident.apply m result.outcome).2 ≡ changed)
        × (changed ≡ true → (Incident.apply m result.outcome).1 ≡ next)
  unfolding Incident.apply probe_policy
  probe_policy-apply m t = ground (arith, failures_after, successes_after)

  leading-after :
      (p : Outcome → Bool)
      → leading p (recent after server.id 3)
        ≡ (if p result.outcome then suc (min 2 (leading p history)) else 0)
  leading-after p = rw recent-three (ground (arith, leading-take_two p history))

  recent-recorded :
      (uuid : String) (now : ℕ)
      → recent (recorded uuid now server result db) server.id 3 ≡ recent after server.id 3
  unfolding recent recorded settle set_status open_incident resolve_incident
  recent-recorded uuid now = ground arith

rows_updated :
    (now : ℕ) (id : String) (next : PublicStatus) (at : ℕ) (rows : List ServerRow)
    → All
        (λ (s : ServerRow). str_eq s.id id ≡ true → s.status ≡ next)
        (update_where
          (λ (s : ServerRow). str_eq s.id id)
          (λ (s : ServerRow). record s { status = next; status_changed_at = at; updated_at = now })
          rows)
rows_updated now id next at [] = tt
rows_updated now id next at (s ∷ rest) = elim (Bool-cases (str_eq s.id id)) [
  | inl e ↦ rw e ((λ _. refl), rows_updated now id next at rest)
  | inr e ↦ rw e ((λ k. cc (e, k)), rows_updated now id next at rest)
]

-- After the update the rows of the server have the new status.
pub set_status-rows :
    (now : ℕ) (id : String) (next : PublicStatus) (at : ℕ) (w : Db)
    → All
        (λ (s : ServerRow). str_eq s.id id ≡ true → s.status ≡ next)
        (set_status now id next at w).servers
unfolding set_status
set_status-rows now id next at w = rows_updated now id next at w.servers

pub settle-servers :
    (uuid : String) (now : ℕ) (server : Server) (result : CheckResult) (next : PublicStatus)
    (w : Db)
    → (settle uuid now server result next w).servers
      ≡ (set_status now server.id next result.at w).servers
unfolding settle open_incident resolve_incident
settle-servers uuid now server result next w = ground arith

apply_unchanged :
    (m : Machine) (o : Outcome) → (Incident.apply m o).2 ≡ false → (Incident.apply m o).1 ≡ m.state
unfolding Incident.apply
apply_unchanged m o h = ground arith

policy_calm :
    (server : Server) (result : CheckResult) (w : Db)
    → (crowd_signal server.id result.at w).anomalous ≡ false
    → policy server result w ≡ probe_policy server result.outcome w
unfolding policy
policy_calm server result w h = ground arith

module _ (uuid : String) (now : ℕ) (m : Machine) (server : Server) (result : CheckResult) (db : Db)
    (newest : IsNewest server.id result db) (t : Tracks m server db)
    (active : status_eq server.status maintenance ≡ false)
    (calm : (crowd_signal server.id result.at (with_check server.id result db)).anomalous
      ≡ false) where
  rows_after :
      All
        (λ (s : ServerRow).
          str_eq s.id server.id ≡ true → s.status ≡ (Incident.apply m result.outcome).1)
        (recorded uuid now server result db).servers
  unfolding recorded
  rows_after =
      let w = with_check server.id result db in
      let v = probe_policy-apply server result db newest m t in
      rw (active, policy_calm server result w calm, ← v.0)
        (elim (Bool-cases (Incident.apply m result.outcome).2) [
          | inl c ↦
              rw (c, settle-servers, ← v.1 (sym v.0 ∙ c))
                (set_status-rows now server.id _ result.at w)
          | inr c ↦ rw (c, apply_unchanged m result.outcome c) t.rows
        ])

  counters_after :
      let m' = (Incident.apply m result.outcome).0 in
      let past = recent (recorded uuid now server result db) server.id 3 in
      (min 3 m'.failures ≡ leading is_failure past)
      × (m'.state ≡ outage → m'.successes ≡ min 1 (leading is_success past))
  unfolding Incident.apply
  counters_after = rw (recent-recorded server result db newest uuid now) (
      ground (
        arith,
        t.failures,
        t.successes,
        leading-after server result db newest is_failure,
        leading-after server result db newest is_success,
      ))

  -- On a server that refuses no call, for a known server that the machine tracks, not in MAINTENANCE,
  -- with the new check the newest and no anomaly in the reports, RecordCheck stores the check, reports
  -- a change exactly when the machine does and then returns its state; and the machine goes on
  -- tracking the server.
  pub record_check-Machine :
      server_exists server.id db ≡ true
      → let (m', state, changed) = Incident.apply m result.outcome in
        let final = recorded uuid now server result db in
        (p : PublicStatus) × (record_check uuid now server result (connected db)
          ≡ (ok (changed, p), connected final))
        × (changed ≡ true → p ≡ state)
        × Tracks m' (record server { status = state }) final
  record_check-Machine known =
      let w = with_check server.id result db in
      let v = probe_policy-apply server result db newest m t in
      (
        (probe_policy server result.outcome w).0,
        rw (
          record_check_lem uuid now server result db known,
          active,
          policy_calm server result w calm,
          ← v.0,
        ),
        (λ c. sym (v.1 (sym v.0 ∙ c))),
        record {
          status = (apply-changed m result.outcome).0;
          rows = rw (← (apply-changed m result.outcome).0) rows_after;
          failures = counters_after.0;
          successes = counters_after.1;
        },
      )
