-- ===== src/Store/Connect.antt =====
-- Connect of postgres.go.
use voxellink_monitor.Common.{String, Option, none, some, Result, ok, err, str_append}

-- `create` is the error of pgxpool.New and `ping` that of the first use of the pool, if there is one.
unfoldable pub connect : (create ping : String → Option String) → String → Result String (Unit {0})
connect create ping url = elim (create url) [
  | some e ↦ err (str_append "create PostgreSQL pool: " e)
  | none ↦ elim (ping url) [ some e ↦ err (str_append "ping PostgreSQL: " e) | none ↦ ok tt ]
]
