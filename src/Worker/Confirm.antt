-- ===== src/Worker/Confirm.antt =====
-- How many observations a pass of the worker needs before a change of status is confirmed.
use voxellink_monitor.Common.{
  ℕ, suc, ◌+◌, String, ◌≡◌, refl, ap, ◌∙◌, Bool, true, false, not, ◌&&◌, ◌||◌, List, ◌∷◌, arith,
  str_eq, ok, ◌==◌, if◌then◌else◌,
}
use voxellink_monitor.Domain.{
  PublicStatus, operational, outage, maintenance, success, CheckResult, Server, status_eq,
  is_failure,
}
use voxellink_monitor.Store.Tables.{Db, server_exists}
use voxellink_monitor.Store.Session.{connected}
use voxellink_monitor.Store.Checks.{with_check, recent_failures, recent_matching_count}
use voxellink_monitor.Store.Signal.{crowd_signal}
use voxellink_monitor.Store.Record.Policy.{policy, recorded, record_check_lem}
use voxellink_monitor.Worker.{probe, after_record, check_from, check}
use voxellink_monitor.Worker.World.{World, services}

-- The transports that the worker can probe.
abbrev pub is_supported : String → Bool
is_supported t =
    (str_eq t "DIRECT" || str_eq t "CLOUDFLARE_SPECTRUM") || str_eq t "CLOUDFLARE_TUNNEL"

-- The world between two calls, with PostgreSQL holding `db` and the probes about to find `answers`.
abbrev pub facing : World → Db → List CheckResult → World
facing s db answers = record s { session = connected db; answers = answers }

module _ (uuid : World → String) (server : Server) (s : World) where
  probe-facing :
      (db : Db) (r : CheckResult) (rest : List CheckResult)
      → is_supported server.transport ≡ true
      → probe (services uuid) server (facing s db (r ∷ rest)) ≡ (r, facing s db rest)
  unfolding probe services
  probe-facing db r rest h = ground arith

  abbrev verdict : CheckResult → Db → Bool × PublicStatus
  verdict r db =
      let (next, changed) = policy server r (with_check server.id r db) in
      if status_eq server.status maintenance then (false, server.status) else (changed, next)

  -- One round: a probe, and the transaction that records it.
  pub check_from-facing :
      (left attempt : ℕ) (db : Db) (r : CheckResult) (rest : List CheckResult)
      → is_supported server.transport ≡ true
      → server_exists server.id db ≡ true
      → check_from (services uuid) (suc left) attempt server (facing s db (r ∷ rest))
        ≡ after_record
            (services uuid)
            attempt
            server
            r
            (check_from (services uuid) left (attempt + 1))
            (
              ok (verdict r db),
              facing s (recorded (uuid (facing s db rest)) s.clock server r db) rest,
            )
  unfolding check_from services
  check_from-facing left attempt db r rest h known = rw (
    probe-facing db r rest h,
    record_check_lem (uuid (facing s db rest)) s.clock server r db known,
  )

-- An unconfirmed failure: nothing but the observation is written.
module _ (server : Server) (r : CheckResult) (db : Db) (failed : is_failure r.outcome ≡ true) where
  pub policy-failure : policy server r (with_check server.id r db) ≡ (
    outage,
    not (status_eq server.status outage)
        && recent_failures server.id 3 (with_check server.id r db) == 3,
  )
  unfolding policy
  policy-failure = ground arith

  recorded-unconfirmed :
      (uuid : String) (now : ℕ)
      → (not (status_eq server.status outage)
          && recent_failures server.id 3 (with_check server.id r db) == 3)
        ≡ false
      → recorded uuid now server r db ≡ with_check server.id r db
  unfolding recorded
  recorded-unconfirmed uuid now h = ground (arith, policy-failure)

module _ (uuid : World → String) (server : Server) (s : World) where
  pub failing_round :
      (left attempt : ℕ) (db : Db) (r : CheckResult) (rest : List CheckResult)
      → is_supported server.transport ≡ true
      → server_exists server.id db ≡ true
      → status_eq server.status maintenance ≡ false
      → s.cancelled ≡ false
      → is_failure r.outcome ≡ true
      → (not (status_eq server.status outage)
          && recent_failures server.id 3 (with_check server.id r db) == 3)
        ≡ false
      → check_from (services uuid) (suc left) attempt server (facing s db (r ∷ rest)) ≡ (
          if attempt == 2
          then facing s (with_check server.id r db) rest
          else check_from
              (services uuid)
              left
              (attempt + 1)
              (record server { status = outage })
              (facing s (with_check server.id r db) rest))
  unfolding after_record services
  failing_round left attempt db r rest h known active going failed few =
      rw
        (
          check_from-facing uuid server s left attempt db r rest h known,
          recorded-unconfirmed server r db failed (uuid (facing s db rest)) s.clock few,
          policy-failure server r db failed,
          active,
          few,
        )
        (ground arith)

-- A pass that sees the first failures confirms no outage. If a known server of a supported
-- transport is handed on in a status other than MAINTENANCE, the pass is not cancelled, and its
-- first failure is not the third in a row, then three failing probes in a row are stored, and
-- nothing else happens: the status stays, no incident opens, nobody is told.
pub three_failures_unconfirmed :
    (uuid : World → String) (server : Server) (s : World) (db : Db) (r₁ r₂ r₃ : CheckResult)
    (rest : List CheckResult)
    → is_supported server.transport ≡ true
    → server_exists server.id db ≡ true
    → status_eq server.status maintenance ≡ false
    → s.cancelled ≡ false
    → is_failure r₁.outcome ≡ true
    → is_failure r₂.outcome ≡ true
    → is_failure r₃.outcome ≡ true
    → (recent_failures server.id 3 (with_check server.id r₁ db) == 3) ≡ false
    → check (services uuid) server (facing s db (r₁ ∷ r₂ ∷ r₃ ∷ rest))
      ≡ facing s
          (with_check server.id r₃ (with_check server.id r₂ (with_check server.id r₁ db)))
          rest
unfolding check
three_failures_unconfirmed uuid server s db r₁ r₂ r₃ rest h known active going f₁ f₂ f₃ few =
    let down = record server { status = outage } in
    let db₁ = with_check server.id r₁ db in
    let db₂ = with_check server.id r₂ db₁ in
    failing_round uuid server s 2 0 db r₁ (r₂ ∷ r₃ ∷ rest) h known active going f₁ (ground arith)
    ∙ failing_round uuid down s 1 1 db₁ r₂ (r₃ ∷ rest) h known refl going f₂ refl
    ∙ failing_round uuid down s 0 2 db₂ r₃ rest h known refl going f₃ refl

module _ (server : Server) (r : CheckResult) (db : Db) (up : r.outcome ≡ success) where
  pub policy-success :
      (crowd_signal server.id r.at (with_check server.id r db)).anomalous ≡ false
      → policy server r (with_check server.id r db) ≡ (
        operational,
        if status_eq server.status outage
            then recent_matching_count server.id 2 success (with_check server.id r db) == 2
            else not (status_eq server.status operational),
      )
  unfolding policy
  policy-success calm = ground arith

  recorded-still :
      (uuid : String) (now : ℕ)
      → (policy server r (with_check server.id r db)).1 ≡ false
      → recorded uuid now server r db ≡ with_check server.id r db
  unfolding recorded
  recorded-still uuid now h = ground arith

module _ (uuid : World → String) (server : Server) (s : World) where
  -- A round that finds a success which changes nothing.
  pub quiet_success :
      (left attempt : ℕ) (db : Db) (r : CheckResult) (rest : List CheckResult)
      → is_supported server.transport ≡ true
      → server_exists server.id db ≡ true
      → status_eq server.status maintenance ≡ false
      → s.cancelled ≡ false
      → r.outcome ≡ success
      → policy server r (with_check server.id r db) ≡ (operational, false)
      → check_from (services uuid) (suc left) attempt server (facing s db (r ∷ rest)) ≡ (
          if not (status_eq server.status outage) || (attempt == 1 || attempt == 2)
          then facing s (with_check server.id r db) rest
          else check_from
              (services uuid)
              left
              (attempt + 1)
              (record server { status = operational })
              (facing s (with_check server.id r db) rest))
  unfolding after_record services
  quiet_success left attempt db r rest h known active going up e =
      rw
        (
          check_from-facing uuid server s left attempt db r rest h known,
          recorded-still server r db up (uuid (facing s db rest)) s.clock
              (ap (λ (v : PublicStatus × Bool). v.1) e),
          e,
          active,
        )
        (ground arith)

-- A pass that sees the first successes confirms no recovery. If a known server of a supported
-- transport is handed on in OUTAGE, the pass is not cancelled, the check before the pass was no
-- success and the reports are no anomaly, then two successful probes in a row are stored, and
-- nothing else happens: the status stays, the incident stays open, nobody is told.
pub two_successes_unconfirmed :
    (uuid : World → String) (server : Server) (s : World) (db : Db) (r₁ r₂ : CheckResult)
    (rest : List CheckResult)
    → is_supported server.transport ≡ true
    → server_exists server.id db ≡ true
    → server.status ≡ outage
    → s.cancelled ≡ false
    → r₁.outcome ≡ success
    → r₂.outcome ≡ success
    → (recent_matching_count server.id 2 success (with_check server.id r₁ db) == 2) ≡ false
    → (crowd_signal server.id r₁.at (with_check server.id r₁ db)).anomalous ≡ false
    → (crowd_signal server.id r₂.at
        (with_check server.id r₂ (with_check server.id r₁ db))).anomalous
      ≡ false
    → check (services uuid) server (facing s db (r₁ ∷ r₂ ∷ rest))
      ≡ facing s (with_check server.id r₂ (with_check server.id r₁ db)) rest
unfolding check
two_successes_unconfirmed uuid server s db r₁ r₂ rest h known down going u₁ u₂ first calm₁ calm₂ =
    let up = record server { status = operational } in
    let db₁ = with_check server.id r₁ db in
    let quiet : policy server r₁ db₁ ≡ (operational, false) =
      ground (arith, policy-success server r₁ db u₁ calm₁) in
    quiet_success uuid server s 2 0 db r₁ (r₂ ∷ rest) h known (ground arith) going u₁ quiet
    ∙ rw down (
        quiet_success uuid up s 1 1 db₁ r₂ rest h known refl going u₂
          (policy-success up r₂ db₁ u₂ calm₂))
