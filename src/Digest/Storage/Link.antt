-- ===== src/Digest/Storage/Link.antt =====
-- After a successful link a cluster has exactly the images that were found for its digests.
use vuln4shift_backend.Prelude.{
  ℕ, ◌≡◌, ◌≢◌, refl, inl, inr, Bool, not, ◌&&◌, ◌||◌, Option, none, some, List, [], ◌∷◌, arith,
  if◌then◌else◌, ◌==◌, nat_eq, nat_beq_iff, contains, IsDistinct, Str, ok, Result-cases,
}
use vuln4shift_backend.Prelude.GoMap.{lookup}
use vuln4shift_backend.Digest.Storage.{
  ClusterImage, Database, id_set, prepare_cluster_image_lists, unless_empty, after, relink,
  link_found, link_digests_to_cluster,
}
use vuln4shift_backend.Digest.Storage.Diff.{
  linked, image_in, has-id_set, prepare_cluster_image_lists-insert,
  prepare_cluster_image_lists-delete,
}

-- What the statements mean for the table `cluster_image`: `links c d i` says that the image `i` is
-- linked to the cluster `c`. A failed statement promises nothing.
pub record LinkLaws {D E : Type 0} (db : Database D E) : Type 0 where
  pub links : ℕ → D → ℕ → Bool
  pub found :
      (c : ℕ) (d : D) (rows : List ClusterImage)
      → db.find_cluster_images c d ≡ ok rows
      → (i : ℕ) → image_in rows i ≡ links c d i
  pub created :
      (rows : List ClusterImage) (d d' : D)
      → db.create_cluster_images rows d ≡ (d', none)
      → (c i : ℕ) → links c d' i ≡ (links c d i || linked rows c i)
  pub deleted :
      (rows : List ClusterImage) (d d' : D)
      → db.delete_cluster_images rows d ≡ (d', none)
      → (c i : ℕ) → links c d' i ≡ (links c d i && not (linked rows c i))
  pub cached :
      (k : ℕ) (d d' : D)
      → db.update_cluster_cache k d ≡ (d', none)
      → (c i : ℕ) → links c d' i ≡ links c d i

module _ {D E : Type 0} (db : Database D E) (laws : LinkLaws db) where
  open laws use {links, found, created, deleted, cached}

  create_step :
      (rows : List ClusterImage) (d d' : D)
      → unless_empty db db.create_cluster_images rows d ≡ (d', none)
      → (c i : ℕ) → links c d' i ≡ (links c d i || linked rows c i)
  unfolding unless_empty
  create_step [] d d' e c i = ground arith
  create_step (row ∷ rows) d d' e c i = created (row ∷ rows) d d' e c i

  delete_step :
      (rows : List ClusterImage) (d d' : D)
      → unless_empty db db.delete_cluster_images rows d ≡ (d', none)
      → (c i : ℕ) → links c d' i ≡ (links c d i && not (linked rows c i))
  unfolding unless_empty
  delete_step [] d d' e c i = ground arith
  delete_step (row ∷ rows) d d' e c i = deleted (row ∷ rows) d d' e c i

  after-eq-none :
      (r : D × Option E) (next : D → D × Option E) (d' : D)
      → after db r next ≡ (d', none)
      → (r ≡ (r.0, none)) × (next r.0 ≡ (d', none))
  unfolding after
  after-eq-none (d, none) next d' e = (refl, e)
  after-eq-none (d, some x) next d' e = ground arith

  relink-links :
      (c : ℕ) (existing : List ℕ) (rows : List ClusterImage) (d d' : D)
      → IsDistinct existing
      → db.find_cluster_images c d ≡ ok rows
      → relink db c existing rows d ≡ (d', none)
      → (k i : ℕ) → links k d' i ≡ (if c == k then contains existing i else links k d i)
  unfolding relink lookup
  relink-links c existing rows d d' distinct rows_found e k i =
      let current = id_set rows [] in
      let (to_insert, to_delete) = prepare_cluster_image_lists c current existing in
      let (first, rest) = after-eq-none _ _ d' e in
      let (second, last) = after-eq-none _ _ d' rest in
      ground (
        arith,
        create_step to_insert d _ first k i,
        delete_step to_delete _ _ second k i,
        cached c _ d' last k i,
        prepare_cluster_image_lists-insert c i k current existing distinct,
        prepare_cluster_image_lists-delete c i k current existing,
        has-id_set rows [] i,
        found c d rows rows_found i,
        nat_beq_iff c k,
      )

  -- If images were found for the digests and the link succeeds, the cluster is linked to exactly
  -- those images, and the links of every other cluster are as before.
  pub link_digests_to_cluster-links :
      (c arch : ℕ) (digests : List Str) (existing : List ℕ) (d d' : D)
      → db.find_images digests arch d ≡ ok existing
      → IsDistinct existing
      → existing ≢ []
      → link_digests_to_cluster db c arch digests d ≡ (d', none)
      → (k i : ℕ) → links k d' i ≡ (if c == k then contains existing i else links k d i)
  unfolding link_digests_to_cluster link_found
  link_digests_to_cluster-links c arch digests [] d d' images distinct n e k i = absurd (n refl)
  link_digests_to_cluster-links c arch digests (id ∷ ids) d d' images distinct n e k i =
      elim (Result-cases (db.find_cluster_images c d)) [
        | inl (rows, rows_found) ↦
            relink-links c (id ∷ ids) rows d d' distinct rows_found (ground arith) k i
        | inr (x, failed) ↦ ground arith
      ]
