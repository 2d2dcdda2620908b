-- ===== src/Digest/Storage/Diff.antt =====
-- The difference between the images that a cluster has and those it runs.
use vuln4shift_backend.Prelude.{
  ℕ, ◌≡◌, inl, inr, Bool, false, not, ◌&&◌, ◌||◌, List, [], ◌∷◌, map, arith, ◌==◌, nat_eq,
  nat_beq_iff, contains, IsDistinct, Bool-cases,
}
use vuln4shift_backend.Prelude.GoMap.{
  insert, delete, has, keys, lookup-insert, lookup-delete, contains-keys,
}
use vuln4shift_backend.Digest.Storage.{
  ClusterImage, IdSet, split_images, prepare_cluster_image_lists, id_set,
}

-- Whether a list of rows links an image to a cluster.
abbrev pub linked : List ClusterImage → ℕ → ℕ → Bool
linked [] c i = false
linked (row ∷ rows) c i = (row.cluster_id == c && row.image_id == i) || linked rows c i

abbrev pub image_in : List ClusterImage → ℕ → Bool
image_in [] i = false
image_in (row ∷ rows) i = (row.image_id == i) || image_in rows i

pub has-id_set :
    (rows : List ClusterImage) (ids : IdSet) (i : ℕ)
    → has i (id_set rows ids) ≡ (has i ids || image_in rows i)
unfolding id_set
has-id_set [] ids i = ground arith
has-id_set (row ∷ rows) ids i =
    ground
      (arith, has-id_set rows (insert row.image_id tt ids) i, lookup-insert row.image_id i tt ids)

linked-map :
    (c c' i : ℕ) (ids : List ℕ)
    → linked (map (λ id. record { cluster_id = c; image_id = id }) ids) c' i
      ≡ (c == c' && contains ids i)
linked-map c c' i [] = ground arith
linked-map c c' i (id ∷ ids) = ground (arith, linked-map c c' i ids)

module _ (c i : ℕ) where
  split_images-rest :
      (current : IdSet) (ids : List ℕ)
      → has i (split_images c current ids).1 ≡ (has i current && not (contains ids i))
  unfolding split_images
  split_images-rest current [] = ground arith
  split_images-rest current (id ∷ ids) = elim (Bool-cases (has id current)) [
    | inl there ↦
        ground (arith, split_images-rest (delete id current) ids, lookup-delete id i current)
    | inr new ↦ ground (arith, split_images-rest current ids, nat_beq_iff id i)
  ]

  split_images-insert :
      (c' : ℕ) (current : IdSet) (ids : List ℕ)
      → IsDistinct ids
      → linked (split_images c current ids).0 c' i
        ≡ (c == c' && (contains ids i && not (has i current)))
  unfolding split_images
  split_images-insert c' current [] h = ground arith
  split_images-insert c' current (id ∷ ids) (h, hs) = elim (Bool-cases (has id current)) [
    | inl there ↦ ground (
      arith,
      split_images-insert c' (delete id current) ids hs,
      lookup-delete id i current,
      nat_beq_iff id i,
      h,
    )
    | inr new ↦ ground (arith, split_images-insert c' current ids hs, nat_beq_iff id i, h)
  ]

  -- The rows to insert are those of the images found that the cluster lacks.
  pub prepare_cluster_image_lists-insert :
      (c' : ℕ) (current : IdSet) (existing : List ℕ)
      → IsDistinct existing
      → linked (prepare_cluster_image_lists c current existing).0 c' i
        ≡ (c == c' && (contains existing i && not (has i current)))
  unfolding prepare_cluster_image_lists
  prepare_cluster_image_lists-insert c' current existing h =
      split_images-insert c' current existing h

  -- The rows to delete are those of the cluster's images that were not found.
  pub prepare_cluster_image_lists-delete :
      (c' : ℕ) (current : IdSet) (existing : List ℕ)
      → linked (prepare_cluster_image_lists c current existing).1 c' i
        ≡ (c == c' && (has i current && not (contains existing i)))
  unfolding prepare_cluster_image_lists
  prepare_cluster_image_lists-delete c' current existing =
      let rest = (split_images c current existing).1 in
      ground (
        arith,
        linked-map c c' i (keys rest),
        contains-keys rest i,
        split_images-rest current existing,
      )
