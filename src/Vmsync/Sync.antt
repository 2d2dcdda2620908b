-- ===== src/Vmsync/Sync.antt =====
-- The CVEs of a reply are written and those absent from it removed (vmsync/vmsync.go and
-- vmsync/database.go), over an interface of the statements on the database.
pub mod Left
pub mod Pruned
pub mod Stored
pub mod Written
use vuln4shift_backend.Prelude.{
  ℕ, zero, suc, ◌+◌, Bool, Option, none, some, List, [], ◌∷◌, map, length, nat_beq, if◌then◌else◌,
  Str, str_eq, Result, ok, err,
}
use vuln4shift_backend.Prelude.Action.{Action, pure, fail, ◌>>=◌, ◌>>◌}
use vuln4shift_backend.Prelude.GoMap.{GoMap, lookup, insert, delete, has, values}
use vuln4shift_backend.Models.{Cve, Severity}
use vuln4shift_backend.Vmsync.Api.{ApiCve, ApiCveRequest, ApiCveResponse, Fetched, get_api_cves}

-- The statements on a database in state `D`, which fail with an `E`.
pub record Database (D E : Type 0) : Type 0 where
  pub begin_ : D → D
  pub commit : D → D × Result E (Unit {0})
  pub rollback : D → D
  pub find_cves : D → D × Result E (List Cve)
  -- updates all columns on a conflict of the name
  pub create_in_batches : List Cve → D → D × Result E (Unit {0})
  -- those of the IDs that no row of `image_cve` has
  pub find_not_affecting : List ℕ → D → D × Result E (List ℕ)
  pub delete_account_caches : List ℕ → D → D × Result E (Unit {0})
  pub delete_cluster_caches : List ℕ → D → D × Result E (Unit {0})
  pub delete_image_cves : List ℕ → D → D × Result E (Unit {0})
  pub delete_cves : List ℕ → D → D × Result E (Unit {0})

abbrev pub blank_cve : ApiCve
blank_cve = record {
  redhat_url = [];
  secondary_url = [];
  synopsis = [];
  impact = [];
  public_date = none;
  modified_date = none;
  cwe_list = [];
  cvss3_score = [];
  cvss3_metrics = [];
  cvss2_score = [];
  cvss2_metrics = [];
  description = [];
  package_list = [];
  source_package_list = [];
  errata_list = [];
}

-- `m[k]` of a key that may be missing.
abbrev or_blank : Option ApiCve → ApiCve
or_blank none = blank_cve
or_blank (some cve) = cve

module _ (parse_float : Str → Option ℕ) where
  score : Str → ℕ
  score text = elim (parse_float text) [ none ↦ 0 | some n ↦ n ]

  -- The row to write. `Severity.Scan` takes every string.
  unfoldable pub cve_row : Str → ApiCve → Cve
  unfolding score
  cve_row name cve = record {
    id = 0;
    name = name;
    description = cve.description;
    severity = cve.impact;
    cvss3_score = score cve.cvss3_score;
    cvss3_metrics = cve.cvss3_metrics;
    cvss2_score = score cve.cvss2_score;
    cvss2_metrics = cve.cvss2_metrics;
    public_date = cve.public_date;
    modified_date = cve.modified_date;
    redhat_url = cve.redhat_url;
    secondary_url = cve.secondary_url;
    exploit_data = [];
  }

  forget : Str → GoMap Str Cve → GoMap Str Cve
  forget name db = if has name db then delete name db else db

  -- The loop over the names: the rows to write, and what is left of `dbCveMap`.
  unfoldable pub rows_to_sync :
      List Str → GoMap Str ApiCve → GoMap Str Cve → List Cve × GoMap Str Cve
  unfolding cve_row forget
  rows_to_sync [] api db = ([], db)
  rows_to_sync (name ∷ names) api db =
      let (rows, rest) = rows_to_sync names api (forget name db) in
      (cve_row name (or_blank (lookup name api)) ∷ rows, rest)

-- `prepareDbCvesMap`, of the rows found.
unfoldable pub cve_map : List Cve → GoMap Str Cve → GoMap Str Cve
cve_map [] m = m
cve_map (cve ∷ cves) m = cve_map cves (insert cve.name cve m)

module _ {D E : Type 0} (db : Database D E) where
  -- The deferred rollback does nothing after a commit.
  close : D × Result E (Unit {0}) → D × Result E (Unit {0})
  close (d, ok u) = (d, ok u)
  close (d, err e) = (db.rollback d, err e)

  unfoldable pub transact : Action D E (Unit {0}) → Action D E (Unit {0})
  unfolding close
  transact statements d = close ((statements >>= λ _. db.commit) (db.begin_ d))

  insert_update_cves : List Cve → Action D E (Unit {0})
  insert_update_cves [] = pure tt
  insert_update_cves (row ∷ rows) = db.create_in_batches (row ∷ rows)

  unfoldable pub sync_cves : List Cve → Action D E (Unit {0})
  unfolding transact insert_update_cves
  sync_cves rows = transact (insert_update_cves rows)

  unfoldable pub delete_not_affecting_cves : List ℕ → Action D E ℕ
  delete_not_affecting_cves ids = do
    to_delete ← db.find_not_affecting ids
    _ ← db.delete_account_caches to_delete
    _ ← db.delete_cluster_caches to_delete
    _ ← db.delete_image_cves to_delete
    _ ← db.delete_cves to_delete
    pure (length to_delete)

  delete_ids : List ℕ → Action D E (Unit {0})
  unfolding delete_not_affecting_cves
  delete_ids [] = pure tt
  delete_ids (id ∷ ids) = delete_not_affecting_cves (id ∷ ids) >>= λ _. pure tt

  -- `pruneCves`, of what is left of `dbCveMap`.
  unfoldable pub prune_cves : GoMap Str Cve → Action D E (Unit {0})
  unfolding transact delete_ids
  prune_cves left = transact (delete_ids (map (λ cve. cve.id) (values left)))

-- An error ends the program.
pub data Fatal (E F : Type 0) : Type 0 where
  not_fetched : E → Fatal E F
  not_received : F → Fatal E F
  not_synced : E → Fatal E F
  not_pruned : E → Fatal E F

module _ {D W E F : Type 0} (db : Database D E)
    (fetch : ApiCveRequest → W → W × Result F ApiCveResponse) (page_size : ℕ)
    (parse_float : Str → Option ℕ) where
  fatal : {A : Type 0} → (E → Fatal E F) → D × Result E A → D × Result (Fatal E F) A
  fatal why (d, ok a) = (d, ok a)
  fatal why (d, err e) = (d, err (why e))

  -- `syncCveMetadata`, from the reply on.
  unfoldable pub store_reply : GoMap Str Cve → Result F Fetched → Action D (Fatal E F) (Unit {0})
  unfolding sync_cves prune_cves rows_to_sync fatal
  store_reply m (err e) d = (d, err (not_received e))
  store_reply m (ok (list, api)) d =
      let (rows, left) = rows_to_sync parse_float list api m in
      ((λ d. fatal not_synced (sync_cves db rows d)) >>= λ _ d.
      fatal not_pruned (prune_cves db left d))
        d

  with_map : ℕ → W → D × Result E (List Cve) → Option (W × D × Result (Fatal E F) (Unit {0}))
  unfolding cve_map store_reply
  with_map fuel w (d, err e) = some (w, d, err (not_fetched e))
  with_map fuel w (d, ok rows) = elim (get_api_cves fetch page_size fuel w) [
    | none ↦ none
    | some (w', reply) ↦ let (d', r) = store_reply (cve_map rows []) reply d in some (w', d', r)
  ]

  -- `Start`, once the database is there: the map of its CVEs, and `syncCveMetadata`.
  unfoldable pub start : ℕ → W → D → Option (W × D × Result (Fatal E F) (Unit {0}))
  unfolding with_map
  start fuel w d = with_map fuel w (db.find_cves d)
