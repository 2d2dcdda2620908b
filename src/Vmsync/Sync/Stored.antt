-- ===== src/Vmsync/Sync/Stored.antt =====
-- Storing a reply of VMaaS: its CVEs are written, and then the CVEs absent from it pruned.
use vuln4shift_backend.Prelude.{ℕ, ◌≡◌, arith, Option, List, [], Str, str_eq, Result, ok, err}
use vuln4shift_backend.Prelude.Action.{Action, bind-eq-ok}
use vuln4shift_backend.Prelude.GoMap.{GoMap}
use vuln4shift_backend.Models.{Cve}
use vuln4shift_backend.Vmsync.Api.{ApiCve, ApiCveRequest, ApiCveResponse}
use vuln4shift_backend.Vmsync.Sync.{
  Database, sync_cves, prune_cves, rows_to_sync, Fatal, not_synced, not_pruned, fatal, store_reply,
  cve_map,
}
use vuln4shift_backend.Vmsync.Sync.Left.{cve_map-IsDistinct}
use vuln4shift_backend.Vmsync.Sync.Pruned.{PruneLaws, IsPruned, prune_cves-IsPruned}
use vuln4shift_backend.Vmsync.Sync.Written.{WriteLaws, IsWritten, sync_cves-IsWritten}

module _ {D W E F : Type 0} (db : Database D E)
    (fetch : ApiCveRequest → W → W × Result F ApiCveResponse) (page_size : ℕ)
    (parse_float : Str → Option ℕ) where
  fatal-eq-ok :
      (why : E → Fatal E F) (r : D × Result E (Unit {0})) (d' : D) (u : Unit {0})
      → fatal db fetch page_size parse_float why r ≡ (d', ok u)
      → r ≡ (d', ok tt)
  unfolding fatal
  fatal-eq-ok why (d, ok v) d' u e = ground (arith, e)
  fatal-eq-ok why (d, err x) d' u e = ground (arith, e)

  module _ (laws : PruneLaws db) (writes : WriteLaws db laws) (rows : List Cve) (names : List Str)
      (api : GoMap Str ApiCve) where
    abbrev known : GoMap Str Cve
    known = cve_map rows []

    abbrev synced : List Cve × GoMap Str Cve
    synced = rows_to_sync parse_float names api known

    -- If a reply is stored with no error, then its CVEs were written first: each of its names had the
    -- row of its data, the rows of other names were as before, and no CVE and no link was lost. From
    -- then on the CVEs that were known before, are absent from the reply and affect no image were
    -- removed, no other CVE was, and the links of CVEs to images stayed.
    pub store_reply-IsPruned :
        (d d' : D)
        → store_reply db fetch page_size parse_float known (ok (names, api)) d ≡ (d', ok tt)
        → (d1 : D) × IsWritten db laws writes parse_float names api d d1
          × IsPruned db laws known names d1 d'
    unfolding store_reply
    store_reply-IsPruned d d' e =
        let write : D × Result (Fatal E F) (Unit {0}) =
          fatal db fetch page_size parse_float not_synced (sync_cves db synced.0 d) in
        let prune : Unit {0} → Action D (Fatal E F) (Unit {0}) =
          λ _ d1. fatal db fetch page_size parse_float not_pruned (prune_cves db synced.1 d1) in
        let (u, written, then) = bind-eq-ok write prune d' tt e in
        let d1 = write.0 in
        (
          d1,
          sync_cves-IsWritten db laws writes parse_float names api known d d1
              (fatal-eq-ok not_synced (sync_cves db synced.0 d) d1 u written),
          prune_cves-IsPruned db laws parse_float names api known d1 d'
              (cve_map-IsDistinct rows [] tt)
              (fatal-eq-ok not_pruned (prune_cves db synced.1 d1) d' tt then),
        )
