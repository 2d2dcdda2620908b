-- ===== src/Pyxis/Image/Links.antt =====
-- After its CVEs are linked an image has exactly the CVEs that Pyxis gives.
use vuln4shift_backend.Prelude.{
  ℕ, ◌≡◌, refl, ap, inl, inr, Bool, not, ◌&&◌, ◌||◌, some, List, [], ◌∷◌, arith, if◌then◌else◌,
  ◌==◌, nat_eq, nat_beq_iff, contains, IsDistinct, Str, Result, ok, All, Result-cases,
}
use vuln4shift_backend.Prelude.Action.{bind-eq-ok}
use vuln4shift_backend.Prelude.GoMap.{
  GoMap, lookup, insert, has, values, lookup-insert, AllEntries, AllEntries-insert,
}
use vuln4shift_backend.Models.{ImageCve}
use vuln4shift_backend.Pyxis.Cache.{Maps, image_cve_map}
use vuln4shift_backend.Pyxis.Image.{
  Database, Client, Config, Tx, split_cves, write_split, link_rows, link_cves, unless_empty,
  statement, read,
}
use vuln4shift_backend.Pyxis.Image.Diff.{
  linked, cve_ids, IsRowOf, SplitOf, split_cves-SplitOf, linked-values,
}

-- What the statements mean for the table `image_cve`: `links d i c` says that the CVE `c` is linked
-- to the image `i`. The query promises the rows of the image as the transaction found them.
pub record CveLaws {D E : Type 0} (db : Database D E) : Type 0 where
  pub links : D → ℕ → ℕ → Bool
  pub queried : (i : ℕ) (d : D) (k c : ℕ) → links (db.find_image_cves i d).0 k c ≡ links d k c
  pub owned :
      (i : ℕ) (d : D) (rows : List ImageCve)
      → (db.find_image_cves i d).1 ≡ ok rows
      → All (λ row. row.image_id ≡ i) rows
  pub created :
      (rows : List ImageCve) (d : D)
      → (db.create_image_cves rows d).1 ≡ ok tt
      → (i c : ℕ) → links (db.create_image_cves rows d).0 i c ≡ (links d i c || linked rows i c)
  pub deleted :
      (rows : List ImageCve) (d : D)
      → (db.delete_image_cves rows d).1 ≡ ok tt
      → (i c : ℕ)
      → links (db.delete_image_cves rows d).0 i c ≡ (links d i c && not (linked rows i c))

image_cve_map-has :
    (i c : ℕ) (rows : List ImageCve) (m : GoMap ℕ ImageCve)
    → All (λ row. row.image_id ≡ i) rows
    → has c (image_cve_map rows m) ≡ (linked rows i c || has c m)
unfolding image_cve_map
image_cve_map-has i c [] m h = ground arith
image_cve_map-has i c (row ∷ rows) m (h, hs) = ground (
  arith,
  image_cve_map-has i c rows (insert row.cve_id row m) hs,
  lookup-insert row.cve_id c row m,
  h,
)

image_cve_map-rows :
    (i : ℕ) (rows : List ImageCve) (m : GoMap ℕ ImageCve)
    → All (λ row. row.image_id ≡ i) rows
    → AllEntries (IsRowOf i) m
    → AllEntries (IsRowOf i) (image_cve_map rows m)
unfolding image_cve_map
image_cve_map-rows i [] m h hm = hm
image_cve_map-rows i (row ∷ rows) m (h, hs) hm =
    image_cve_map-rows i rows (insert row.cve_id row m) hs
      (AllEntries-insert (IsRowOf i) row.cve_id row m (h, refl) hm)

module _ {D W E F : Type 0} where
  statement-eq-ok :
      {A : Type 0} (run : D → D × Result E A) (s s' : Tx D W) (a : A)
      → statement {D = D} {W = W} {E = E} {F = F} run s ≡ (s', ok a)
      → ((run s.db).1 ≡ ok a) × (s'.db ≡ (run s.db).0) × (s'.pending ≡ s.pending)
  statement-eq-ok run s s' a e = elim (Result-cases (run s.db).1) [
    | inl (b, fine) ↦ ground (arith, e, fine)
    | inr (x, bad) ↦ ground (arith, e, bad)
  ]

module _ {D W E F : Type 0} (db : Database D E) (client : Client W F) (config : Config)
    (maps : Maps) (laws : CveLaws db) where
  open laws use {links, queried, owned, created, deleted}

  create_step :
      (rows : List ImageCve) (s s' : Tx D W)
      → unless_empty {D = D} {W = W} {E = E} {F = F} db.create_image_cves rows s ≡ (s', ok tt)
      → (i c : ℕ) → links s'.db i c ≡ (links s.db i c || linked rows i c)
  create_step [] s s' e i c = ground arith
  create_step (row ∷ rows) s s' e i c =
      let (fine, at, _) = statement-eq-ok (db.create_image_cves (row ∷ rows)) s s' tt e in
      ground (arith, at, created (row ∷ rows) s.db fine i c)

  delete_step :
      (rows : List ImageCve) (s s' : Tx D W)
      → unless_empty {D = D} {W = W} {E = E} {F = F} db.delete_image_cves rows s ≡ (s', ok tt)
      → (i c : ℕ) → links s'.db i c ≡ (links s.db i c && not (linked rows i c))
  delete_step [] s s' e i c = ground arith
  delete_step (row ∷ rows) s s' e i c =
      let (fine, at, _) = statement-eq-ok (db.delete_image_cves (row ∷ rows)) s s' tt e in
      ground (arith, at, deleted (row ∷ rows) s.db fine i c)

  module _ (i : ℕ) (names : List Str) (ids : List ℕ) (rows : List ImageCve) where
    write_split-links :
        (m rest : GoMap ℕ ImageCve) (to_insert : List ImageCve) (s s' : Tx D W)
        → SplitOf i ids m (to_insert, rest)
        → ((c : ℕ) → has c m ≡ links s.db i c)
        → write_split {D = D} {W = W} {E = E} {F = F} db client config maps (to_insert, rest) s
          ≡ (s', ok tt)
        → (k c : ℕ) → links s'.db k c ≡ (if i == k then contains ids c else links s.db k c)
    unfolding write_split
    write_split-links m rest to_insert s s' h current e k c =
        let (_, first, second) =
          bind-eq-ok (unless_empty db.create_image_cves to_insert s)
            (λ _. unless_empty db.delete_image_cves (values rest)) s' tt e in
        ground (
          arith,
          create_step to_insert s _ first k c,
          delete_step (values rest) _ s' second k c,
          linked-values i k c rest h.rows,
          h.inserted k c,
          h.kept c,
          current c,
          nat_beq_iff i k,
        )

    link_rows-links :
        (s s' : Tx D W)
        → cve_ids maps s.pending names ≡ some ids
        → IsDistinct ids
        → All (λ row. row.image_id ≡ i) rows
        → ((c : ℕ) → linked rows i c ≡ links s.db i c)
        → link_rows {D = D} {W = W} {E = E} {F = F} db client config maps i names rows s
          ≡ (s', ok tt)
        → (k c : ℕ) → links s'.db k c ≡ (if i == k then contains ids c else links s.db k c)
    unfolding link_rows lookup
    link_rows-links s s' found distinct mine current e =
        let m = image_cve_map rows [] in
        let (split, got, rest) =
          bind-eq-ok (read (λ p. split_cves maps p i names (image_cve_map rows [])) s)
            (write_split db client config maps) s' tt e in
        let (to_insert, left) = split in
        write_split-links m left to_insert s s'
          (split_cves-SplitOf maps s.pending i names ids m (to_insert, left) found distinct
            (image_cve_map-rows i rows [] mine tt) (ap (λ r. r.1) got))
          (λ c. ground (arith, image_cve_map-has i c rows [] mine, current c)) rest

    -- If the CVEs of an image are linked with no error, their IDs are distinct, and the rows read
    -- are those that the transaction holds, then the image is linked to exactly these CVEs, and the
    -- links of every other image are as before.
    pub link_cves-links :
        (s s' : Tx D W)
        → cve_ids maps s.pending names ≡ some ids
        → IsDistinct ids
        → (db.find_image_cves i s.db).1 ≡ ok rows
        → ((c : ℕ) → linked rows i c ≡ links s.db i c)
        → link_cves {D = D} {W = W} {E = E} {F = F} db client config maps i names s ≡ (s', ok tt)
        → (k c : ℕ) → links s'.db k c ≡ (if i == k then contains ids c else links s.db k c)
    unfolding link_cves
    link_cves-links s s' found distinct got current e k c =
        let s1 : Tx D W = record {
          db = (db.find_image_cves i s.db).0;
          world = s.world;
          pending = s.pending;
        } in
        ground (
          arith,
          link_rows-links s1 s' found distinct (owned i s.db rows got)
              (λ j. ground (arith, current j, queried i s.db i j)) (rw got at e) k c,
          queried i s.db k c,
        )
