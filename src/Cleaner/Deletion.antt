-- ===== src/Cleaner/Deletion.antt =====
-- What a clean that ends with no error has deleted, though it does not heed the errors of its
-- statements.
use vuln4shift_backend.Prelude.{
  ℕ, ◌+◌, ◌*◌, ◌/◌, ◌%◌, ◌^◌, ◌≤◌, ◌≡◌, ◌≢◌, refl, sym, ap, ◌∙◌, Bool, true, false, not, ◌&&◌, ◌||◌,
  none, List, [], ◌∷◌, map, ltb, nat_eq, contains, contains-append, arith, Result, ok, err,
}
use vuln4shift_backend.Prelude.Action.{Action, ◌>>=◌, continue}
use vuln4shift_backend.Models.{ClusterLight}
use vuln4shift_backend.Cleaner.{
  Database, day, cluster_deadline, zeros, expired_ids, fetched, fetch_expired_clusters, conn_result,
  unheeded, delete_caches, delete_cluster_image, delete_clusters, close, delete_all, clean,
}

-- The tables, by the cluster that a row is about.
pub data Table : Type 0 where
  caches images clusters : Table

abbrev pub same : Table → Table → Bool
same caches caches = true
same images images = true
same clusters clusters = true
same _ _ = false

same-some : (t : Table) → (same clusters t || (same images t || same caches t)) ≡ true
same-some caches = refl
same-some images = refl
same-some clusters = refl

-- What a database is taken to do. A failed statement aborts its transaction, and an aborted one is not
-- committed.
pub record CleanLaws {D E : Type 0} (db : Database D E) : Type 0 where
  pub has : D → Table → ℕ → Bool
  pub last_seen : D → ℕ → ℕ
  pub aborted : D → Bool
  pub begun :
      (d : D)
      → (aborted (db.begin_ d) ≡ false) × ((t : Table) (i : ℕ) → has (db.begin_ d) t i ≡ has d t i)
  pub found :
      (deadline : ℕ) (rows : List ClusterLight) (d : D)
      → db.find_before deadline d ≡ ok rows
      → (i : ℕ)
      → contains (map (λ c. c.id) rows) i ≡ (has d clusters i && ltb (last_seen d i) deadline)
  pub deletes :
      (t : Table) (ids : List ℕ) (d d' : D)
      → (elim t [
        | caches ↦ db.delete_caches_of ids d
        | images ↦ db.delete_images_of ids d
        | clusters ↦ db.delete_clusters_of ids d
      ])
        ≡ (d', ok tt)
      → (aborted d' ≡ aborted d)
        × ((u : Table) (i : ℕ) → has d' u i ≡ (has d u i && not (same t u && contains ids i)))
  pub fails :
      (t : Table) (ids : List ℕ) (d d' : D) (e : E)
      → (elim t [
        | caches ↦ db.delete_caches_of ids d
        | images ↦ db.delete_images_of ids d
        | clusters ↦ db.delete_clusters_of ids d
      ])
        ≡ (d', err e)
      → aborted d' ≡ true
  pub committed :
      (d d' : D)
      → db.commit d ≡ (d', ok tt)
      → (aborted d ≡ false) × ((t : Table) (i : ℕ) → has d' t i ≡ has d t i)

-- Up to a retention of 106751 days the deadline is that many days before the day's beginning.
pub before-cluster_deadline :
    (retention now seen : ℕ)
    → retention ≤ 106751
    → ltb seen (cluster_deadline retention now) ≡ ltb (seen + day * retention) (now / day * day)
unfolding cluster_deadline
before-cluster_deadline retention now seen few =
    let whole : (day * retention) % 2 ^ 64 ≡ day * retention = omega (arith, few) in
    rw whole (ground (arith, few))

contains-expired_ids :
    (rows : List ClusterLight) (i : ℕ)
    → i ≢ 0
    → contains (expired_ids rows) i ≡ contains (map (λ c. c.id) rows) i
unfolding expired_ids
contains-expired_ids rows i n =
    ground (arith, contains-append (zeros rows) (map (λ c. c.id) rows) i, contains-zeros rows)
  where
    contains-zeros : (rows : List ClusterLight) → contains (zeros rows) i ≡ false
    contains-zeros [] = refl
    contains-zeros (row ∷ rows) = ground (arith, n, contains-zeros rows)

module _ {D E : Type 0} (db : Database D E) (laws : CleanLaws db) where
  abbrev statement : Table → List ℕ → D → D × Result E (Unit {0})
  statement t ids d = elim t [
    | caches ↦ db.delete_caches_of ids d
    | images ↦ db.delete_images_of ids d
    | clusters ↦ db.delete_clusters_of ids d
  ]

  -- Unless it is aborted, the transaction has the rows `h`.
  abbrev Tracks : (Table → ℕ → Bool) → D → Type 0
  Tracks h d = laws.aborted d ≡ false → (t : Table) (i : ℕ) → laws.has d t i ≡ h t i

  abbrev less : Table → List ℕ → (Table → ℕ → Bool) → Table → ℕ → Bool
  less t ids h u i = h u i && not (same t u && contains ids i)

  statement-Tracks :
      (t : Table) (ids : List ℕ) (h : Table → ℕ → Bool) (d : D) (r : D × Result E (Unit {0}))
      → statement t ids d ≡ r
      → Tracks h d
      → Tracks (less t ids h) r.0
  statement-Tracks t ids h d (d', ok u) e k going v i =
      let (same_flag, gone) = laws.deletes t ids d d' e in
      ground (arith, gone v i, k (ground (arith, same_flag, going)) v i)
  statement-Tracks t ids h d (d', err x) e k going v i =
      ground (arith, laws.fails t ids d d' x e, going)

  unheeded-ok :
      (run : D → D × Result E (Unit {0})) (d : D)
      → db.conn_error ≡ none
      → unheeded db run d ≡ ((run d).0, ok tt)
  unfolding unheeded conn_result
  unheeded-ok run d e = ap (λ c. ((run d).0, conn_result db c)) e

  -- The states after the three statements.
  module _ (ids : List ℕ) (d : D) where
    abbrev without_caches : D
    without_caches = (statement caches ids d).0

    abbrev without_images : D
    without_images = (statement images ids without_caches).0

    abbrev without_clusters : D
    without_clusters = (statement clusters ids without_images).0

    delete_all-commit : db.conn_error ≡ none → delete_all db ids d ≡ db.commit without_clusters
    unfolding delete_all delete_caches delete_cluster_image delete_clusters
    delete_all-commit e =
        let third : Unit {0} → Action D E (Unit {0}) = λ _. db.commit in
        let second : Unit {0} → Action D E (Unit {0}) = λ _. delete_clusters db ids >>= third in
        let first : Unit {0} → Action D E (Unit {0}) =
          λ _. delete_cluster_image db ids >>= second in
        ap (continue first) (unheeded-ok (db.delete_caches_of ids) d e)
        ∙ ap (continue second) (unheeded-ok (db.delete_images_of ids) without_caches e)
        ∙ ap (continue third) (unheeded-ok (db.delete_clusters_of ids) without_images e)

    all-Tracks :
        (h : Table → ℕ → Bool)
        → Tracks h d
        → Tracks (less clusters ids (less images ids (less caches ids h))) without_clusters
    all-Tracks h k =
        statement-Tracks clusters ids (less images ids (less caches ids h)) without_images _ refl (
          statement-Tracks images ids (less caches ids h) without_caches _ refl
            (statement-Tracks caches ids h d _ refl k))

  close-eq-ok : (r : D × Result E (Unit {0})) (d : D) → close db r ≡ (d, ok tt) → r ≡ (d, ok tt)
  unfolding close
  close-eq-ok (d', ok u) d e = e
  close-eq-ok (d', err x) d e = ground (arith, e)

  -- Whatever its statements came to, a clean that ends with no error, of which the query had none and
  -- the retention is at most 106751 days, has deleted exactly the rows about clusters last seen before
  -- the beginning of the day less the retention, from all three tables.
  pub clean-deletes :
      (retention now : ℕ) (rows : List ClusterLight) (d d' : D)
      → db.conn_error ≡ none
      → retention ≤ 106751
      → db.find_before (cluster_deadline retention now) d ≡ ok rows
      → clean db retention now d ≡ (d', ok tt)
      → (t : Table) (i : ℕ) → i ≢ 0
      → laws.has d' t i ≡ (
          laws.has d t i
          && not (
              laws.has d clusters i
              && ltb (laws.last_seen d i + day * retention) (now / day * day)))
  unfolding clean fetch_expired_clusters fetched
  clean-deletes retention now rows d d' quiet few found e t i n =
      let start = db.begin_ d in
      let ids = expired_ids (fetch_expired_clusters db (cluster_deadline retention now) d) in
      let committed : db.commit (without_clusters ids start) ≡ (d', ok tt) =
        sym (delete_all-commit ids start quiet) ∙ close-eq-ok (delete_all db ids start) d' e in
      let (going, kept) = laws.committed (without_clusters ids start) d' committed in
      let tracked = all-Tracks ids start (laws.has d) (λ _. (laws.begun d).1) going t i in
      let listed : contains ids i ≡ contains (map (λ c. c.id) rows) i =
        ap (λ r. contains (expired_ids (fetched db r)) i) found ∙ contains-expired_ids rows i n in
      ground (
        arith,
        kept t i,
        tracked,
        listed,
        laws.found (cluster_deadline retention now) rows d found i,
        before-cluster_deadline retention now (laws.last_seen d i) few,
        same-some t,
      )
