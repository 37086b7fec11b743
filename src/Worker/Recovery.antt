-- ===== src/Worker/Recovery.antt =====
-- internal/monitor/worker.go: two passes over a server that comes back.
use voxellink_monitor.Common.{ℕ, String, ◌≡◌, true, some, List, ◌∷◌, str_eq, update_where, All}
use voxellink_monitor.Domain.{operational, CheckResult, Server}
use voxellink_monitor.Store.Tables.{ServerRow, IncidentRow, Db}
use voxellink_monitor.Store.Checks.{with_check}
use voxellink_monitor.Store.Record.{latest_open, resolve}
use voxellink_monitor.Store.Record.Policy.{settle}
use voxellink_monitor.Store.Record.Shown.{with_id}
use voxellink_monitor.Worker.World.{Notice, World}
use voxellink_monitor.Worker.Confirm.{facing}

module _ (uuid : World → String) (server : Server) (s : World) where
  abbrev pub recovery_notice : CheckResult → Notice
  recovery_notice r = record { server = server; state = operational; result = r }

  -- The world after the notice is sent.
  abbrev pub told : CheckResult → World
  told r = record s { notices = recovery_notice r ∷ s.notices }

  -- The database after the success that confirms the recovery.
  abbrev pub confirmed : Db → CheckResult → List CheckResult → Db
  confirmed db r rest =
      settle (uuid (facing s db rest)) s.clock server r operational (with_check server.id r db)

-- The rows of the server are OPERATIONAL, and its open incident that began last, if there is one,
-- is resolved at the instant of the observation.
abbrev pub ShowsRecovery : Server → CheckResult → Db → Db → Type 0
ShowsRecovery server r before after =
    All (λ (row : ServerRow). str_eq row.id server.id ≡ true → row.status ≡ operational)
      after.servers
    × ((i : IncidentRow)
        → latest_open server.id before.incidents ≡ some i
        → (t : ℕ) × (after.incidents
            ≡ update_where (with_id i.id) (resolve t r.at) before.incidents))
