-- ===== src/Cleaner.antt =====
-- The cleaner of old clusters (cleaner/cluster.go), over an interface of the statements on the
-- database. Times count nanoseconds from the zero time of Go.
pub mod Deletion
use vuln4shift_backend.Prelude.{
  ℕ, ◌+◌, ◌-◌, ◌*◌, ◌/◌, ◌%◌, ◌^◌, Option, none, some, List, [], ◌∷◌, ◌++◌, map, leb, if◌then◌else◌,
  Str, Result, ok, err,
}
use vuln4shift_backend.Prelude.Action.{Action, ◌>>=◌}
use vuln4shift_backend.Models.{ClusterLight}

-- The statements on a database in state `D`, which fail with an `E`; `conn_error` is the field of the
-- connection, which a statement of a transaction does not set.
pub record Database (D E : Type 0) : Type 0 where
  pub conn_error : Option E
  pub begin_ : D → D
  pub commit : D → D × Result E (Unit {0})
  pub rollback : D → D
  pub find_before : ℕ → D → Result E (List ClusterLight)
  pub delete_caches_of : List ℕ → D → D × Result E (Unit {0})
  pub delete_images_of : List ℕ → D → D × Result E (Unit {0})
  pub delete_clusters_of : List ℕ → D → D × Result E (Unit {0})

-- `time.Hour * 24`
abbrev pub day : ℕ
day = 86400000000000

-- `now.Truncate(day).Add(-day * Duration(retention))`: the product is an `int64`, and negative up to
-- 2 ^ 63.
unfoldable pub cluster_deadline : ℕ → ℕ → ℕ
cluster_deadline retention now =
    let back = (day * retention) % 2 ^ 64 in
    let start = now / day * day in
    if leb back (2 ^ 63) then start - back else start + (2 ^ 64 - back)

-- `make([]int64, len(clusters))`, to which the IDs are appended.
abbrev pub zeros : {A : Type 0} → List A → List ℕ
zeros [] = []
zeros (x ∷ xs) = 0 ∷ zeros xs

unfoldable pub expired_ids : List ClusterLight → List ℕ
expired_ids clusters = zeros clusters ++ map (λ c. c.id) clusters

module _ {D E : Type 0} (db : Database D E) where
  -- An error of the query leaves no rows.
  fetched : Result E (List ClusterLight) → List ClusterLight
  fetched (ok clusters) = clusters
  fetched (err e) = []

  unfoldable pub fetch_expired_clusters : ℕ → D → List ClusterLight
  unfolding fetched
  fetch_expired_clusters deadline d = fetched (db.find_before deadline d)

  conn_result : Option E → Result E (Unit {0})
  conn_result none = ok tt
  conn_result (some e) = err e

  -- A statement of which `c.conn.Error` is returned.
  unfoldable pub unheeded : (D → D × Result E (Unit {0})) → Action D E (Unit {0})
  unfolding conn_result
  unheeded run d = ((run d).0, conn_result db.conn_error)

  delete_caches : List ℕ → Action D E (Unit {0})
  unfolding unheeded
  delete_caches ids = unheeded (db.delete_caches_of ids)

  delete_cluster_image : List ℕ → Action D E (Unit {0})
  unfolding unheeded
  delete_cluster_image ids = unheeded (db.delete_images_of ids)

  delete_clusters : List ℕ → Action D E (Unit {0})
  unfolding unheeded
  delete_clusters ids = unheeded (db.delete_clusters_of ids)

  -- The deferred rollback does nothing after a commit.
  close : D × Result E (Unit {0}) → D × Result E (Unit {0})
  close (d, ok u) = (d, ok u)
  close (d, err e) = (db.rollback d, err e)

  delete_all : List ℕ → Action D E (Unit {0})
  unfolding delete_caches delete_cluster_image delete_clusters
  delete_all ids = do
    _ ← delete_caches ids
    _ ← delete_cluster_image ids
    _ ← delete_clusters ids
    db.commit

  -- `Clean`, at a retention in days and a time.
  unfoldable pub clean : ℕ → ℕ → Action D E (Unit {0})
  unfolding cluster_deadline expired_ids fetch_expired_clusters delete_all close
  clean retention now d =
      let clusters = fetch_expired_clusters (cluster_deadline retention now) d in
      close (delete_all (expired_ids clusters) (db.begin_ d))
