-- ===== src/Tests/Cleaner.antt =====
-- A database of three clusters, each last seen on the day of its ID.
use vuln4shift_backend.Prelude.{
  ℕ, ◌+◌, ◌*◌, ◌/◌, ◌≡◌, refl, sym, ap, ◌∙◌, Bool, true, false, not, ◌&&◌, none, List, [], ◌∷◌, map,
  arith, ltb, nat_eq, contains, contains-select, select, Result, ok, err,
}
use vuln4shift_backend.Models.{ClusterLight}
use vuln4shift_backend.Cleaner.{Database, day, cluster_deadline, clean}
use vuln4shift_backend.Cleaner.Deletion.{
  Table, caches, images, clusters, same, CleanLaws, clean-deletes,
}

-- The clusters that each table has, and whether the transaction is aborted.
abbrev Rows : Type 0
Rows = (Table → List ℕ) × Bool

abbrev row : ℕ → ClusterLight
row id = record {
  id = id;
  uuid = [];
  display_name = [];
  status = [];
  type_ = [];
  version = [];
  provider = [];
  account_id = 1;
  cve_cache_critical = 0;
  cve_cache_important = 0;
  cve_cache_moderate = 0;
  cve_cache_low = 0;
  last_seen = id * day;
}

abbrev drop_if : Bool → List ℕ → List ℕ → List ℕ
drop_if true ids xs = select (λ i. not (contains ids i)) xs
drop_if false ids xs = xs

abbrev delete_from : Table → List ℕ → Rows → Rows × Result ℕ (Unit {0})
delete_from t ids d = (((λ u. drop_if (same t u) ids (d.0 u)), d.1), ok tt)

abbrev seen_before : ℕ → List ℕ → List ℕ
seen_before deadline ids = select (λ i. ltb (i * day) deadline) ids

abbrev commit_rows : Rows → Rows × Result ℕ (Unit {0})
commit_rows (d, true) = ((d, true), err 5)
commit_rows (d, false) = ((d, false), ok tt)

abbrev rows_db : Database Rows ℕ
rows_db = record {
  conn_error = none;
  begin_ = λ d. (d.0, false);
  commit = commit_rows;
  rollback = λ d. d;
  find_before = λ deadline d. ok (map row (seen_before deadline (d.0 clusters)));
  delete_caches_of = delete_from caches;
  delete_images_of = delete_from images;
  delete_clusters_of = delete_from clusters;
}

abbrev rows_or_none : Result ℕ (List ClusterLight) → List ClusterLight
rows_or_none (ok rows) = rows
rows_or_none (err e) = []

ids-row : (ids : List ℕ) → map (λ c. c.id) (map row ids) ≡ ids
ids-row [] = refl
ids-row (i ∷ ids) = ap (λ l. i ∷ l) (ids-row ids)

contains-drop_if :
    (b : Bool) (ids xs : List ℕ) (i : ℕ)
    → contains (drop_if b ids xs) i ≡ (contains xs i && not (b && contains ids i))
contains-drop_if true ids xs i = ground (arith, contains-select (λ j. not (contains ids j)) xs i)
contains-drop_if false ids xs i = ground arith

delete_from-elim :
    (t : Table) (ids : List ℕ) (d : Rows)
    → (elim t [
      | caches ↦ rows_db.delete_caches_of ids d
      | images ↦ rows_db.delete_images_of ids d
      | clusters ↦ rows_db.delete_clusters_of ids d
    ])
      ≡ delete_from t ids d
delete_from-elim caches ids d = refl
delete_from-elim images ids d = refl
delete_from-elim clusters ids d = refl

commit_rows-eq-ok :
    (d d' : Rows)
    → commit_rows d ≡ (d', ok tt)
    → (d.1 ≡ false) × ((t : Table) (i : ℕ) → contains (d'.0 t) i ≡ contains (d.0 t) i)
commit_rows-eq-ok (d, true) d' e = absurd (ground (arith, ap (λ r. r.1) e))
commit_rows-eq-ok (d, false) d' e = (refl, λ t i. ap (λ r. contains (r.0.0 t) i) (sym e))

rows_laws : CleanLaws rows_db
rows_laws = record {
  has = λ d t i. contains (d.0 t) i;
  last_seen = λ d i. i * day;
  aborted = λ d. d.1;
  begun = λ d. (refl, λ t i. refl);
  found = λ deadline rows d e i. ground (
    arith,
    ap (λ r. contains (map (λ c. c.id) (rows_or_none r)) i) e,
    ap (λ l. contains l i) (ids-row (seen_before deadline (d.0 clusters))),
    contains-select (λ j. ltb (j * day) deadline) (d.0 clusters) i,
  );
  deletes = λ t ids d d' e.
      let e' = sym (delete_from-elim t ids d) ∙ e in
      (
        ap (λ r. r.0.1) (sym e'),
        λ u i. ap (λ r. contains (r.0.0 u) i) (sym e') ∙ contains-drop_if (same t u) ids (d.0 u) i,
      );
  fails = λ t ids d d' x e.
      let e' = ap (λ r. r.1) (sym (delete_from-elim t ids d) ∙ e) in absurd (ground (arith, e'));
  committed = commit_rows-eq-ok;
}

abbrev three : Rows
three = ((λ t. 1 ∷ 2 ∷ 3 ∷ []), false)

-- Noon of the day 4, and two days kept.
abbrev noon : ℕ
noon = 4 * day + day / 2

abbrev kept : Rows
kept = (clean rows_db 2 noon three).0

first_deleted : kept.0 images ≡ 2 ∷ 3 ∷ []
unfolding clean
first_deleted = refl

clean-deletes_example : contains (kept.0 images) 1 ≡ (
    contains (three.0 images) 1
    && not (contains (three.0 clusters) 1 && ltb (1 * day + day * 2) (noon / day * day)))
unfolding clean rows_laws
clean-deletes_example =
    clean-deletes rows_db rows_laws 2 noon
      (map row (seen_before (cluster_deadline 2 noon) (1 ∷ 2 ∷ 3 ∷ []))) three kept refl
      (omega arith) refl refl images 1 (λ e. omega (arith, e))
