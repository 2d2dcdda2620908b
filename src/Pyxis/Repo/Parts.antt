-- ===== src/Pyxis/Repo/Parts.antt =====
-- The parts of a repository's sync: what they keep, and which errors they end with.
use vuln4shift_backend.Prelude.{
  ℕ, ◌≡◌, ◌≢◌, refl, Option, none, some, List, [], ◌∷◌, arith, ◌==◌, str_eq, nat_eq, Str, Result,
  ok, err, Ensures, Ensures-if, Option-rule, All,
}
use vuln4shift_backend.Prelude.Action.{
  Action, pure, ◌>>=◌, each, Holds, Holds-bind, Holds-if, Outcome-map,
}
use vuln4shift_backend.Prelude.GoMap.{GoMap, lookup, delete, values, AllEntries}
use vuln4shift_backend.Models.{Arch, Image, RepositoryImage}
use vuln4shift_backend.Pyxis.Api.{ApiImage, ApiImageRepoDetail}
use vuln4shift_backend.Pyxis.Api.Contents.{IsStorable}
use vuln4shift_backend.Pyxis.Tags.{extract_tags, needs_update}
use vuln4shift_backend.Pyxis.Cache.{Maps, Pending, repository_image_map}
use vuln4shift_backend.Pyxis.Image.{
  Database, Client, Config, SyncError, Tx, statement, pend, read, unless_empty, sync_image,
}
use vuln4shift_backend.Pyxis.Image.Steps.{
  External, Held, HeldWith, statement-Keeps, read-Holds, unless_empty-Holds,
}
use vuln4shift_backend.Pyxis.Image.Registered.{
  CreateLaws, IsKept, IsStored, WithStored, WithStored-IsKept, sync_image-Holds,
}
use vuln4shift_backend.Pyxis.Repo.Cached.{Covers, AllKnown, Covers-cons, image_row-new}
use vuln4shift_backend.Pyxis.Repo.{
  find_image, find_arch, add_pending_arch, image_row, cons_some, ImageSplit, keep_insert,
  keep_update, create_arch, arch_or_create, arch_of, first_detail, images_to_sync,
  split_repository_images, write_images, link_images,
}

pub record RepoLaws {D W E F : Type 0} (db : Database D E) (client : Client W F) : Type 0 where
  pub creates : CreateLaws db
  -- what `get_api_repo_images` gives
  pub storable :
      (registry repository : Str) (w : W) (images : GoMap Str ApiImage)
      → (client.repo_images registry repository w).1 ≡ ok images
      → AllEntries IsStorable images

-- Nothing is asked of the pending rows.
abbrev pub Anything : Pending → Type 0
Anything p = Unit

pub Anything-IsKept : IsKept Anything
Anything-IsKept = record { by_cves = λ cves p h. tt; by_image = λ i p h. tt }

abbrev pub AllStored : (Pending → Type 0) → List Image → Pending → Type 0
AllStored P rows p = P p × All (λ row. IsStored row p) rows

module _ {D W E F : Type 0} (db : Database D E) (client : Client W F) (config : Config)
    (marshal : List Str → Str) (unmarshal : Str → Option (List Str)) (maps : Maps)
    (laws : RepoLaws db client) where
  create_arch-Holds :
      (name : Str)
      → Holds
          (Held Anything)
          (create_arch {D = D} {W = W} {E = E} {F = F} db client config marshal unmarshal maps name)
          (λ _. Held Anything)
          External
  unfolding create_arch
  create_arch-Holds name =
      Holds-bind External (Held Anything) (λ _. Held Anything) (λ _. Held Anything)
        (statement (db.create_arch (record { id = 0; name = name })))
        (λ arch. pend (add_pending_arch name arch) >>= λ _. pure arch)
        (statement-Keeps db client Anything (db.create_arch (record { id = 0; name = name })))
        λ arch s h. tt

  arch_or_create-Holds :
      (image : ApiImage) (found : Option Arch)
      → Holds
          (Held Anything)
          (arch_or_create {D = D} {W = W} {E = E} {F = F} db client config marshal unmarshal maps
            image found)
          (λ _. Held Anything)
          External
  unfolding arch_or_create
  arch_or_create-Holds image (some arch) s h = tt
  arch_or_create-Holds image none s h =
      Holds-if External (Held Anything) (λ _. Held Anything) (image.architecture == []) _ _
        (λ _ s h. refl) (λ _. create_arch-Holds image.architecture) s h

  first_detail-Holds :
      (details : List ApiImageRepoDetail)
      → details ≢ []
      → Holds
          (Held Anything)
          (first_detail {D = D} {W = W} {E = E} {F = F} db client config marshal unmarshal maps
            details)
          (λ _. Held Anything)
          External
  unfolding first_detail
  first_detail-Holds [] n s h = absurd (n refl)
  first_detail-Holds (detail ∷ details) n s h = tt

  pub images_to_sync-Holds :
      (images : GoMap Str ApiImage)
      → AllEntries IsStorable images
      → Holds
          (Held Anything)
          (images_to_sync {D = D} {W = W} {E = E} {F = F} db client config marshal unmarshal maps
            images)
          (HeldWith Anything (λ rows. Covers maps rows images))
          External
  unfolding images_to_sync arch_of
  images_to_sync-Holds [] storable s h = (tt, tt)
  images_to_sync-Holds ((k, image) ∷ images) (fine, storable) s h =
      let Q : List Image → Tx D W → Type 0 =
        HeldWith Anything (λ rows. Covers maps rows ((k, image) ∷ images)) in
      let row : Arch → ApiImageRepoDetail → Option Image =
        λ arch detail. image_row config (lookup k maps.images) image detail arch.id in
      let last : Arch
          → ApiImageRepoDetail
          → List Image
          → Action (Tx D W) (SyncError E F) (List Image) =
        λ arch detail rows. pure (cons_some (row arch detail) rows) in
      let with_detail : Arch → ApiImageRepoDetail → Action (Tx D W) (SyncError E F) (List Image) =
        λ arch detail.
          images_to_sync db client config marshal unmarshal maps images >>= last arch detail in
      let with_arch : Arch → Action (Tx D W) (SyncError E F) (List Image) = λ arch.
        first_detail db client config marshal unmarshal maps image.repositories
        >>= with_detail arch in
      Holds-bind External (Held Anything) (λ _. Held Anything) Q
        (arch_of db client config marshal unmarshal maps image) with_arch
        (λ t _. arch_or_create-Holds image (find_arch maps t.pending image.architecture) t tt)
        (λ arch.
          Holds-bind External (Held Anything) (λ _. Held Anything) Q
            (first_detail db client config marshal unmarshal maps image.repositories)
            (with_detail arch) (first_detail-Holds image.repositories fine.published)
            λ detail.
              Holds-bind External (Held Anything)
                (HeldWith Anything (λ rows. Covers maps rows images)) Q
                (images_to_sync db client config marshal unmarshal maps images) (last arch detail)
                (images_to_sync-Holds images storable)
                λ rows t (_, covered). (
                  tt,
                  (
                    image_row-new config maps rows k image detail arch.id fine.keyed,
                    Covers-cons maps (row arch detail) rows images covered,
                  ),
                ))
        s h

  pub sync_rows-Holds :
      (rows : List Image) (P : Pending → Type 0)
      → IsKept P
      → Holds
          (Held P)
          (each (sync_image {D = D} {W = W} {E = E} {F = F} db client config maps) rows)
          (λ _. Held (AllStored P rows))
          External
  unfolding each
  sync_rows-Holds [] P kept s h = (h, tt)
  sync_rows-Holds (row ∷ rows) P kept s0 h0 =
      Holds-bind External (Held P) (λ _. Held (WithStored P row))
        (λ _. Held (AllStored P (row ∷ rows))) (sync_image db client config maps row)
        (λ _. each (sync_image db client config maps) rows)
        (sync_image-Holds db client config maps laws.creates P kept row)
        (λ _ s h.
          Outcome-map {S = Tx D W} External (λ _. Held (AllStored (WithStored P row) rows))
            (λ _. Held (AllStored P (row ∷ rows))) (each (sync_image db client config maps) rows s)
            (λ _ t ((held, stored), all). (held, (stored, all)))
            (sync_rows-Holds rows (WithStored P row) (WithStored-IsKept P row kept) s h))
        s0 h0

  abbrev Safe : Result (SyncError E F) ImageSplit → Type 0
  Safe r = Ensures (λ _. Unit) External r

  keep_insert-Safe :
      (row : RepositoryImage) (r : Result (SyncError E F) ImageSplit)
      → Safe r
      → Safe (keep_insert row r)
  keep_insert-Safe row (ok split) h = tt
  keep_insert-Safe row (err e) h = h

  keep_update-Safe :
      (row : RepositoryImage) (r : Result (SyncError E F) ImageSplit)
      → Safe r
      → Safe (keep_update row r)
  keep_update-Safe row (ok split) h = tt
  keep_update-Safe row (err e) h = h

  split_repository_images-Safe :
      (p : Pending) (repo : ℕ) (images : GoMap Str ApiImage) (current : GoMap ℕ RepositoryImage)
      → AllKnown maps images p
      → Safe (split_repository_images db client config marshal unmarshal maps p repo images current)
  unfolding split_repository_images
  split_repository_images-Safe p repo [] current h = tt
  split_repository_images-Safe p repo ((k, api) ∷ images) current (h, hs) =
      Option-rule Safe (find_image maps p k) _ _ (λ lost. ground (arith, h, lost))
        λ image found.
          Option-rule Safe (lookup image.id current) _ _
            (λ new. keep_insert-Safe _ _ (split_repository_images-Safe p repo images current hs))
            λ old there.
              let (tags, version) = extract_tags marshal unmarshal api in
              let others =
                split_repository_images-Safe p repo images (delete image.id current) hs in
              Ensures-if (λ _. Unit) External (needs_update marshal unmarshal old tags version) _ _
                (λ _. keep_update-Safe _ _ others) (λ _. others)

  updates-Keeps :
      (P : Pending → Type 0) (rows : List RepositoryImage)
      → Holds
          (Held P)
          (each
            (λ row. statement {D = D} {W = W} {E = E} {F = F} (db.update_repository_image row))
            rows)
          (λ _. Held P)
          External
  unfolding each
  updates-Keeps P [] s h = h
  updates-Keeps P (row ∷ rows) s h =
      Holds-bind External (Held P) (λ _. Held P) (λ _. Held P)
        (statement (db.update_repository_image row))
        (λ _. each (λ r. statement (db.update_repository_image r)) rows)
        (statement-Keeps db client P (db.update_repository_image row)) (λ _. updates-Keeps P rows) s
        h

  pub link_images-Holds :
      (repo : ℕ) (images : GoMap Str ApiImage)
      → Holds
          (Held (AllKnown maps images))
          (link_images {D = D} {W = W} {E = E} {F = F} db client config marshal unmarshal maps repo
            images)
          (λ _. Held (AllKnown maps images))
          External
  unfolding link_images write_images
  link_images-Holds repo images =
      let P = AllKnown maps images in
      let split : List RepositoryImage → Pending → Result (SyncError E F) ImageSplit = λ rows p.
        split_repository_images db client config marshal unmarshal maps p repo images
          (repository_image_map rows []) in
      Holds-bind External (Held P) (λ _. Held P) (λ _. Held P)
        (statement (db.find_repository_images repo))
        (λ rows. read (split rows) >>= write_images db client config marshal unmarshal maps)
        (statement-Keeps db client P (db.find_repository_images repo))
        λ rows.
          Holds-bind External (Held P) (λ _. Held P) (λ _. Held P) (read (split rows))
            (write_images db client config marshal unmarshal maps)
            (read-Holds db client P (split rows)
              λ p h. split_repository_images-Safe p repo images (repository_image_map rows []) h)
            λ s.
              Holds-bind External (Held P) (λ _. Held P) (λ _. Held P)
                (unless_empty db.create_repository_images s.to_insert)
                (λ _. unless_empty db.delete_repository_images (values s.rest) >>= λ _.
                  each (λ row. statement (db.update_repository_image row)) s.to_update)
                (unless_empty-Holds db client P db.create_repository_images s.to_insert)
                λ _.
                  Holds-bind External (Held P) (λ _. Held P) (λ _. Held P)
                    (unless_empty db.delete_repository_images (values s.rest))
                    (λ _. each (λ row. statement (db.update_repository_image row)) s.to_update)
                    (unless_empty-Holds db client P db.delete_repository_images (values s.rest))
                    λ _. updates-Keeps P s.to_update
