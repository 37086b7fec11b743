-- ===== src/Worker/Outage.antt =====
-- internal/monitor/worker.go: two passes over a server that stays down.
use voxellink_monitor.Common.{
  ℕ, suc, String, ◌≡◌, refl, ◌∙◌, true, false, List, [], ◌∷◌, arith, str_eq, ◌==◌, All,
}
use voxellink_monitor.Domain.{outage, maintenance, CheckResult, Server, status_eq, is_failure}
use voxellink_monitor.Store.Tables.{ServerRow, IncidentRow, opened, Db, server_exists}
use voxellink_monitor.Store.Checks.{with_check, recent, recent_failures}
use voxellink_monitor.Store.Checks.Order.{IsNewest, recent-with_check}
use voxellink_monitor.Store.Record.{set_status, open_incident}
use voxellink_monitor.Store.Record.Policy.{recorded, settle}
use voxellink_monitor.Store.Record.Refinement.{set_status-rows}
use voxellink_monitor.Store.Record.Orphans.{exists-set_status}
use voxellink_monitor.Worker.{after_record, check_from, check}
use voxellink_monitor.Worker.World.{Notice, World, services}
use voxellink_monitor.Worker.Confirm.{
  is_supported, facing, check_from-facing, policy-failure, failing_round,
  three_failures_unconfirmed,
}

-- Three failures that are each the newest check when it is stored are the last three.
three_recent :
    (id : String) (r₁ r₂ r₃ : CheckResult) (db : Db)
    → let db₁ = with_check id r₁ db in
      let db₂ = with_check id r₂ db₁ in
      is_failure r₁.outcome ≡ true
      → is_failure r₂.outcome ≡ true
      → is_failure r₃.outcome ≡ true
      → IsNewest id r₁ db
      → IsNewest id r₂ db₁
      → IsNewest id r₃ db₂
      → recent_failures id 3 (with_check id r₃ db₂) ≡ 3
unfolding recent_failures recent
three_recent id r₁ r₂ r₃ db f₁ f₂ f₃ n₁ n₂ n₃ =
    let db₁ = with_check id r₁ db in
    let db₂ = with_check id r₂ db₁ in
    rw
      (
        recent-with_check id r₃ db₂ n₃ 2,
        recent-with_check id r₂ db₁ n₂ 1,
        recent-with_check id r₁ db n₁ 0,
        f₁,
        f₂,
        f₃,
      )
      refl

module _ (uuid : World → String) (server : Server) (s : World) where
  abbrev pub down : Server
  down = record server { status = outage }

  abbrev pub outage_notice : CheckResult → Notice
  outage_notice r = record { server = server; state = outage; result = r }

  -- The world after the notice is sent.
  abbrev pub told : CheckResult → World
  told r = record s { notices = outage_notice r ∷ s.notices }

  -- The database after the failure that confirms the outage.
  abbrev pub confirmed : Db → CheckResult → List CheckResult → Db
  confirmed db r rest =
      settle (uuid (facing s db rest)) s.clock server r outage (with_check server.id r db)

  -- The first round of a pass, where the failure is the third in a row.
  confirming_round :
      (left : ℕ) (db : Db) (r : CheckResult) (rest : List CheckResult)
      → is_supported server.transport ≡ true
      → server_exists server.id db ≡ true
      → status_eq server.status maintenance ≡ false
      → status_eq server.status outage ≡ false
      → s.cancelled ≡ false
      → s.refusals ≡ []
      → is_failure r.outcome ≡ true
      → recent_failures server.id 3 (with_check server.id r db) ≡ 3
      → check_from (services uuid) (suc left) 0 server (facing s db (r ∷ rest))
        ≡ check_from (services uuid) left 1 down (facing (told r) (confirmed db r rest) rest)
  unfolding after_record services recorded
  confirming_round left db r rest h known active up going open_line failed third =
      rw
        (
          check_from-facing uuid server s left 0 db r rest h known,
          policy-failure server r db failed,
          active,
          up,
          third,
        )
        (ground arith)

exists-settle :
    (uuid : String) (now : ℕ) (server : Server) (r : CheckResult) (w : Db)
    → server_exists server.id (settle uuid now server r outage w) ≡ server_exists server.id w
unfolding settle open_incident
exists-settle uuid now server r w = exists-set_status now server.id server.id outage r.at w

-- A second pass of failures, whose first is the third in a row.
module _ (uuid : World → String) (server : Server) (s : World) (db : Db) (r₁ r₂ r₃ : CheckResult)
    (rest : List CheckResult) (h : is_supported server.transport ≡ true)
    (known : server_exists server.id db ≡ true)
    (active : status_eq server.status maintenance ≡ false)
    (up : status_eq server.status outage ≡ false) (going : s.cancelled ≡ false)
    (open_line : s.refusals ≡ []) (f₁ : is_failure r₁.outcome ≡ true)
    (f₂ : is_failure r₂.outcome ≡ true) (f₃ : is_failure r₃.outcome ≡ true)
    (third : recent_failures server.id 3 (with_check server.id r₁ db) ≡ 3) where
  abbrev opened_db : Db
  opened_db = confirmed uuid server s db r₁ (r₂ ∷ r₃ ∷ rest)

  confirming_pass :
      check (services uuid) server (facing s db (r₁ ∷ r₂ ∷ r₃ ∷ rest))
      ≡ facing
          (told uuid server s r₁)
          (with_check server.id r₃ (with_check server.id r₂ opened_db))
          rest
  unfolding check
  confirming_pass =
      let db₁ = opened_db in
      let there : server_exists server.id db₁ ≡ true =
        exists-settle (uuid (facing s db (r₂ ∷ r₃ ∷ rest))) s.clock server r₁
          (with_check server.id r₁ db)
        ∙ known in
      confirming_round uuid server s 2 db r₁ (r₂ ∷ r₃ ∷ rest) h known active up going open_line f₁
        third
      ∙ failing_round uuid (down uuid server s) (told uuid server s r₁) 1 1 db₁ r₂ (r₃ ∷ rest) h
          there refl going f₂ refl
      ∙ failing_round uuid (down uuid server s) (told uuid server s r₁) 0 2
          (with_check server.id r₂ db₁) r₃ rest h there refl going f₃ refl

-- The rows of the server are in OUTAGE, and a new incident is open for it.
abbrev pub ShowsOutage : Server → CheckResult → Db → Db → Type 0
ShowsOutage server r before after =
    All (λ (row : ServerRow). str_eq row.id server.id ≡ true → row.status ≡ outage) after.servers
    × ((i : IncidentRow) × (after.incidents ≡ i ∷ before.incidents)
        × (i.server_id ≡ server.id)
        × (i.state ≡ opened)
        × (i.reason ≡ r.outcome))

settle-ShowsOutage :
    (uuid : String) (now : ℕ) (server : Server) (r : CheckResult) (w : Db)
    → ShowsOutage server r w (settle uuid now server r outage w)
unfolding settle open_incident set_status
settle-ShowsOutage uuid now server r w =
    (set_status-rows now server.id outage r.at w, (_, refl, refl, refl, refl))

-- A server that is not in OUTAGE or MAINTENANCE and answers none of the six probes of two passes,
-- which are neither cancelled nor given an error by the notifier, and each of which is the newest
-- check when it is stored: the notifier is not called in the first pass, whose first failure is
-- not the third in a row; after the second its rows are in OUTAGE, a new incident is open for it,
-- and the notifier was called once, with the outage.
pub outage_by_second_pass :
    (uuid : World → String) (server : Server) (s : World) (db : Db)
    (r₁ r₂ r₃ r₄ r₅ r₆ : CheckResult) (rest : List CheckResult)
    → let db₁ = with_check server.id r₁ db in
      let db₂ = with_check server.id r₂ db₁ in
      let db₃ = with_check server.id r₃ db₂ in
      is_supported server.transport ≡ true
      → server_exists server.id db ≡ true
      → status_eq server.status maintenance ≡ false
      → status_eq server.status outage ≡ false
      → s.cancelled ≡ false
      → s.refusals ≡ []
      → All (λ (r : CheckResult). is_failure r.outcome ≡ true) (r₁ ∷ r₂ ∷ r₃ ∷ r₄ ∷ r₅ ∷ r₆ ∷ [])
      → (recent_failures server.id 3 db₁ == 3) ≡ false
      → IsNewest server.id r₂ db₁
      → IsNewest server.id r₃ db₂
      → IsNewest server.id r₄ db₃
      → let first =
          check (services uuid) server (facing s db (r₁ ∷ r₂ ∷ r₃ ∷ r₄ ∷ r₅ ∷ r₆ ∷ rest)) in
        let second = check (services uuid) server first in
        (first.notices ≡ s.notices)
        × (second.notices ≡ outage_notice uuid server s r₄ ∷ s.notices)
        × ShowsOutage server r₄ db second.session.stored
outage_by_second_pass uuid server s db r₁ r₂ r₃ r₄ r₅ r₆ rest h known active up going open_line
      (f₁, (f₂, (f₃, (f₄, (f₅, (f₆, _)))))) few n₂ n₃ n₄ =
    let db₃ = with_check server.id r₃ (with_check server.id r₂ (with_check server.id r₁ db)) in
    let third = three_recent server.id r₂ r₃ r₄ (with_check server.id r₁ db) f₂ f₃ f₄ n₂ n₃ n₄ in
    let e₁ =
      three_failures_unconfirmed uuid server s db r₁ r₂ r₃ (r₄ ∷ r₅ ∷ r₆ ∷ rest) h known active
        going f₁ f₂ f₃ few in
    let e₂ =
      confirming_pass uuid server s db₃ r₄ r₅ r₆ rest h known active up going open_line f₄ f₅ f₆
        third in
    rw (e₁, e₂)
      (
        refl,
        refl,
        settle-ShowsOutage (uuid (facing s db₃ (r₅ ∷ r₆ ∷ rest))) s.clock server r₄
            (with_check server.id r₄ db₃),
      )
