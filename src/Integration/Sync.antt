-- ===== src/Integration/Sync.antt =====
-- internal/integration/importer.go and sync.go: one listing imported, and all of them refreshed.
pub mod Refresh
pub mod Stored
use voxellink_monitor.Common.{
  ℕ, zero, suc, ◌+◌, ◌-◌, ◌*◌, ◌/◌, ◌%◌, ◌^◌, ◌≤◌, ◌<◌, bit_and, bit_or, min, max, String, ◌≡◌,
  refl, sym, ap, ◌∙◌, subst, ◌≢◌, ◌↔◌, ◌⊎◌, inl, inr, Bool, true, false, not, ◌&&◌, ◌||◌, Option,
  none, some, List, [], ◌∷◌, ◌++◌, arith, str_eq, eq_iff, Result, ok, err, Result-cases, ℤ, pos,
  negsuc, ltb, leb, ◌==◌, if◌then◌else◌, ltb→lt, leb→le, ==_iff, Bool-cases, Option-cases, length,
  take, drop, head?, filter, any, update_where, All, length-append, length-take-le,
  length-filter-le, length-update_where, is_empty, drop-nil, Pointwise, take-append, drop-append,
}
use voxellink_monitor.Domain.{
  PublicStatus, operational, degraded, outage, maintenance, unknown, Outcome, success, dns_failure,
  connection_refused, connect_timeout, status_timeout, connection_reset, invalid_status_response,
  probe_error, UserReportType, connection, login, timeout, lag, other, CheckResult, Server,
  ServerMember, ImportedServer, UserReport, CrowdSignal, PendingStateNotification, status_eq,
  outcome_eq, is_failure,
}

-- `fetch` is the provider and `upsert` the repository; `S` is the state of both.
module _ {E S : Type 0} (required : E) (fetch : String → S → Result E ImportedServer × S)
    (upsert : ImportedServer → S → Result E Server × S) where
  abbrev store_fetched : Result E ImportedServer × S → Result E Server × S
  store_fetched (ok imported, s) = upsert imported s
  store_fetched (err e, s) = (err e, s)

  -- Importer.Import
  unfoldable pub import_server : String → S → Result E Server × S
  import_server external_id s =
      if is_empty external_id then (err required, s) else store_fetched (fetch external_id s)

  -- The loop of Sync: the first error ends it, with the id that it is about.
  abbrev go_on :
      String
      → (S → Result (String × E) (Unit {0}) × S)
      → Result E Server × S
      → Result (String × E) (Unit {0}) × S
  go_on id rest (ok _, s) = rest s
  go_on id rest (err e, s) = (err (id, e), s)

  unfoldable pub import_all : List String → S → Result (String × E) (Unit {0}) × S
  import_all [] s = (ok tt, s)
  import_all (id ∷ ids) s = go_on id (import_all ids) (import_server id s)

  abbrev refresh_listed : Result E (List String) × S → Result (String × E) (Unit {0}) × S
  refresh_listed (ok ids, s) = import_all ids s
  refresh_listed (err e, s) = (err ("", e), s)

  -- Synchronizer.Sync, given the repository's list of external ids
  unfoldable pub sync : (S → Result E (List String) × S) → S → Result (String × E) (Unit {0}) × S
  unfolding import_all
  sync external_ids s = refresh_listed (external_ids s)
