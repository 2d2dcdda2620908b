-- ===== src/Vmsync/Sync/Pruned.antt =====
-- Which CVEs the database has after those absent from a reply are removed.
use mathlib.Core.Path.{subst}
use vuln4shift_backend.Prelude.{
  ℕ, ◌≡◌, refl, ◌∙◌, Bool, true, false, not, ◌&&◌, Option, some, List, [], ◌∷◌, length, arith,
  nat_eq, Str, str_eq, contains, IsDistinct, Result, ok, err,
}
use vuln4shift_backend.Prelude.Action.{
  Action, pure, ◌>>=◌, Outcome, Holds, Holds-bind, Any, Holds-ok,
}
use vuln4shift_backend.Prelude.GoMap.{GoMap, lookup, keys}
use vuln4shift_backend.Models.{Cve}
use vuln4shift_backend.Vmsync.Api.{ApiCve}
use vuln4shift_backend.Vmsync.Sync.{
  Database, close, transact, delete_not_affecting_cves, delete_ids, prune_cves, rows_to_sync,
}
use vuln4shift_backend.Vmsync.Sync.Left.{ids, lookup-ids, ids-lookup, left-IsDistinct, lookup-left}

-- What a database is taken to do: which CVEs it has, and which of them a row of `image_cve` has.
pub record PruneLaws {D E : Type 0} (db : Database D E) : Type 0 where
  pub has_cve : D → ℕ → Bool
  pub affects : D → ℕ → Bool
  pub begun :
      (d : D) (i : ℕ)
      → (has_cve (db.begin_ d) i ≡ has_cve d i) × (affects (db.begin_ d) i ≡ affects d i)
  pub committed :
      (d d' : D)
      → db.commit d ≡ (d', ok tt)
      → (i : ℕ) → (has_cve d' i ≡ has_cve d i) × (affects d' i ≡ affects d i)
  pub found :
      (asked rows : List ℕ) (d d' : D)
      → db.find_not_affecting asked d ≡ (d', ok rows)
      → (i : ℕ)
      → (has_cve d' i ≡ has_cve d i)
        × (affects d' i ≡ affects d i)
        × (contains rows i ≡ (contains asked i && (has_cve d i && not (affects d i))))
  pub accounts_cleared :
      (rows : List ℕ) (d d' : D)
      → db.delete_account_caches rows d ≡ (d', ok tt)
      → (i : ℕ) → (has_cve d' i ≡ has_cve d i) × (affects d' i ≡ affects d i)
  pub clusters_cleared :
      (rows : List ℕ) (d d' : D)
      → db.delete_cluster_caches rows d ≡ (d', ok tt)
      → (i : ℕ) → (has_cve d' i ≡ has_cve d i) × (affects d' i ≡ affects d i)
  pub unlinked :
      (rows : List ℕ) (d d' : D)
      → db.delete_image_cves rows d ≡ (d', ok tt)
      → (i : ℕ)
      → (has_cve d' i ≡ has_cve d i) × (affects d' i ≡ (affects d i && not (contains rows i)))
  pub deleted :
      (rows : List ℕ) (d d' : D)
      → db.delete_cves rows d ≡ (d', ok tt)
      → (i : ℕ)
      → (has_cve d' i ≡ (has_cve d i && not (contains rows i))) × (affects d' i ≡ affects d i)

module _ {D E : Type 0} (db : Database D E) (laws : PruneLaws db) where
  -- The database has the CVEs `h`, of which those of `a` affect an image.
  abbrev Sees : (ℕ → Bool) → (ℕ → Bool) → D → Type 0
  Sees h a d = (i : ℕ) → (laws.has_cve d i ≡ h i) × (laws.affects d i ≡ a i)

  abbrev less : (ℕ → Bool) → List ℕ → ℕ → Bool
  less h rows i = h i && not (contains rows i)

  -- What is left when the CVEs asked for are pruned.
  abbrev pruned : (ℕ → Bool) → (ℕ → Bool) → List ℕ → ℕ → Bool
  pruned h a asked i = h i && not (contains asked i && not (a i))

  module _ (h a : ℕ → Bool) (asked : List ℕ) where
    abbrev Found : List ℕ → Type 0
    Found rows = (i : ℕ) → contains rows i ≡ (contains asked i && (h i && not (a i)))

    abbrev At : (ℕ → Bool) → (ℕ → Bool) → List ℕ → D → Type 0
    At h' a' rows d = Sees h' a' d × Found rows

    abbrev Done : {A : Type 0} → A → D → Type 0
    Done x = Sees (pruned h a asked) a

    find-Holds : Holds (Sees h a) (db.find_not_affecting asked) (λ rows. At h a rows) Any
    find-Holds =
        Holds-ok (Sees h a) (λ rows. At h a rows) (db.find_not_affecting asked)
          λ d d' rows s e. (
            (λ i. let (k, l, f) = laws.found asked rows d d' e i in (k ∙ (s i).0, l ∙ (s i).1)),
            λ i. ground (arith, laws.found asked rows d d' e i, s i),
          )

    module _ (rows : List ℕ) where
      accounts-Holds : Holds (At h a rows) (db.delete_account_caches rows) (λ _. At h a rows) Any
      accounts-Holds =
          Holds-ok (At h a rows) (λ _. At h a rows) (db.delete_account_caches rows)
            λ d d' u (s, f) e. (
              (λ i. let (k, l) = laws.accounts_cleared rows d d' e i in (k ∙ (s i).0, l ∙ (s i).1)),
              f,
            )

      clusters-Holds : Holds (At h a rows) (db.delete_cluster_caches rows) (λ _. At h a rows) Any
      clusters-Holds =
          Holds-ok (At h a rows) (λ _. At h a rows) (db.delete_cluster_caches rows)
            λ d d' u (s, f) e. (
              (λ i. let (k, l) = laws.clusters_cleared rows d d' e i in (k ∙ (s i).0, l ∙ (s i).1)),
              f,
            )

      links-Holds :
          Holds (At h a rows) (db.delete_image_cves rows) (λ _. At h (less a rows) rows) Any
      links-Holds =
          Holds-ok (At h a rows) (λ _. At h (less a rows) rows) (db.delete_image_cves rows)
            λ d d' u (s, f) e. ((λ i. ground (arith, laws.unlinked rows d d' e i, s i)), f)

      cves-Holds :
          Holds
            (At h (less a rows) rows)
            (db.delete_cves rows)
            (λ _. At (less h rows) (less a rows) rows)
            Any
      cves-Holds =
          Holds-ok (At h (less a rows) rows) (λ _. At (less h rows) (less a rows) rows)
            (db.delete_cves rows)
            λ d d' u (s, f) e. ((λ i. ground (arith, laws.deleted rows d d' e i, s i)), f)

      end-Holds : Holds (At (less h rows) (less a rows) rows) (pure {E = E} (length rows)) Done Any
      end-Holds d (s, f) = λ i. ground (arith, s i, f i)

      -- The deletions, from the last one on.
      abbrev remove_cves : Action D E ℕ
      remove_cves = db.delete_cves rows >>= λ _. pure (length rows)

      abbrev remove_links : Action D E ℕ
      remove_links = db.delete_image_cves rows >>= λ _. remove_cves

      abbrev remove_clusters : Action D E ℕ
      remove_clusters = db.delete_cluster_caches rows >>= λ _. remove_links

      abbrev remove_accounts : Action D E ℕ
      remove_accounts = db.delete_account_caches rows >>= λ _. remove_clusters

      remove_cves-Holds : Holds (At h (less a rows) rows) remove_cves Done Any
      remove_cves-Holds =
          Holds-bind Any (At h (less a rows) rows) (λ _. At (less h rows) (less a rows) rows) Done
            (db.delete_cves rows) (λ _. pure (length rows)) cves-Holds λ _. end-Holds

      remove_links-Holds : Holds (At h a rows) remove_links Done Any
      remove_links-Holds =
          Holds-bind Any (At h a rows) (λ _. At h (less a rows) rows) Done
            (db.delete_image_cves rows) (λ _. remove_cves) links-Holds λ _. remove_cves-Holds

      remove_clusters-Holds : Holds (At h a rows) remove_clusters Done Any
      remove_clusters-Holds =
          Holds-bind Any (At h a rows) (λ _. At h a rows) Done (db.delete_cluster_caches rows)
            (λ _. remove_links) clusters-Holds λ _. remove_links-Holds

      remove_accounts-Holds : Holds (At h a rows) remove_accounts Done Any
      remove_accounts-Holds =
          Holds-bind Any (At h a rows) (λ _. At h a rows) Done (db.delete_account_caches rows)
            (λ _. remove_clusters) accounts-Holds λ _. remove_clusters-Holds

    delete_not_affecting_cves-Holds : Holds (Sees h a) (delete_not_affecting_cves db asked) Done Any
    unfolding delete_not_affecting_cves
    delete_not_affecting_cves-Holds =
        Holds-bind Any (Sees h a) (λ rows. At h a rows) Done (db.find_not_affecting asked)
          remove_accounts find-Holds remove_accounts-Holds

  delete_ids-Holds :
      (h a : ℕ → Bool) (asked : List ℕ)
      → Holds (Sees h a) (delete_ids db asked) (λ _. Sees (pruned h a asked) a) Any
  unfolding delete_ids
  delete_ids-Holds h a [] d s = λ i. ground (arith, s i)
  delete_ids-Holds h a (id ∷ asked) d s =
      Holds-bind Any (Sees h a) (λ _. Sees (pruned h a (id ∷ asked)) a)
        (λ _. Sees (pruned h a (id ∷ asked)) a) (delete_not_affecting_cves db (id ∷ asked))
        (λ _. pure tt) (delete_not_affecting_cves-Holds h a (id ∷ asked)) (λ _ d' s'. s') d s

  commit-Holds : (h a : ℕ → Bool) → Holds (Sees h a) db.commit (λ _. Sees h a) Any
  commit-Holds h a =
      Holds-ok (Sees h a) (λ _. Sees h a) db.commit
        λ d d' u s e i. let (k, l) = laws.committed d d' e i in (k ∙ (s i).0, l ∙ (s i).1)

  close-Outcome :
      (Q : D → Type 0) (r : D × Result E (Unit {0}))
      → Outcome (λ _. Q) Any r
      → Outcome (λ _. Q) Any (close db r)
  unfolding close
  close-Outcome Q (d, ok u) h = h
  close-Outcome Q (d, err e) h = tt

  prune_cves-Holds :
      (h a : ℕ → Bool) (left : GoMap Str Cve)
      → Holds (Sees h a) (prune_cves db left) (λ _. Sees (pruned h a (ids left)) a) Any
  unfolding prune_cves transact
  prune_cves-Holds h a left d s =
      let Q : D → Type 0 = Sees (pruned h a (ids left)) a in
      close-Outcome Q _ (
        Holds-bind Any (Sees h a) (λ _. Q) (λ _. Q) (delete_ids db (ids left)) (λ _. db.commit)
          (delete_ids-Holds h a (ids left)) (λ _. commit-Holds (pruned h a (ids left)) a)
          (db.begin_ d) λ i. let (k, l) = laws.begun d i in (k ∙ (s i).0, l ∙ (s i).1))

  pub prune_cves-pruned :
      (left : GoMap Str Cve) (d d' : D)
      → prune_cves db left d ≡ (d', ok tt)
      → Sees (pruned (laws.has_cve d) (laws.affects d) (ids left)) (laws.affects d) d'
  prune_cves-pruned left d d' e =
      let Q : Unit {0} → D → Type 0 =
        λ _. Sees (pruned (laws.has_cve d) (laws.affects d) (ids left)) (laws.affects d) in
      subst (Outcome Q Any) e
        (prune_cves-Holds (laws.has_cve d) (laws.affects d) left d λ i. (refl, refl))

-- After a reply is stored: the links are as they were after its CVEs were written; a known CVE that
-- the reply does not name is gone if it affects no image; and no other CVE is.
pub record IsPruned {D E : Type 0} (db : Database D E) (laws : PruneLaws db) (m : GoMap Str Cve)
    (names : List Str) (d d' : D) : Type 0 where
  pub links : (i : ℕ) → laws.affects d' i ≡ laws.affects d i
  pub gone :
      (n : Str) (row : Cve)
      → lookup n m ≡ some row
      → contains names n ≡ false
      → laws.affects d row.id ≡ false
      → laws.has_cve d' row.id ≡ false
  pub only :
      (i : ℕ)
      → laws.has_cve d i ≡ true
      → laws.has_cve d' i ≡ false
      → (laws.affects d i ≡ false)
        × (n : Str) × (row : Cve) × (lookup n m ≡ some row)
        × (contains names n ≡ false)
        × (row.id ≡ i)

module _ {D E : Type 0} (db : Database D E) (laws : PruneLaws db) (parse_float : Str → Option ℕ)
    (names : List Str) (api : GoMap Str ApiCve) (m : GoMap Str Cve) where
  abbrev left : GoMap Str Cve
  left = (rows_to_sync parse_float names api m).1

  -- If the CVEs absent from a reply are pruned with no error, then the known ones that the reply does
  -- not name and that affect no image are gone, no other CVE is, and the links of CVEs to images are
  -- as before.
  pub prune_cves-IsPruned :
      (d d' : D)
      → IsDistinct (keys m)
      → prune_cves db left d ≡ (d', ok tt)
      → IsPruned db laws m names d d'
  prune_cves-IsPruned d d' h e =
      let sees = prune_cves-pruned db laws left d d' e in
      record {
        links = λ i. (sees i).1;
        gone = λ n row found absent free.
            let stale =
              lookup-ids left n row
                (ground (arith, lookup-left parse_float names api m n, found, absent)) in
            ground (arith, sees row.id, stale, free);
        only = λ i had lost.
            let (n, row, found, same) =
              ids-lookup left i (left-IsDistinct parse_float names api m h)
                (ground (arith, sees i, had, lost)) in
            (
              ground (arith, sees i, had, lost),
              n,
              row,
              ground (arith, found, lookup-left parse_float names api m n),
              ground (arith, found, lookup-left parse_float names api m n),
              same,
            );
      }
