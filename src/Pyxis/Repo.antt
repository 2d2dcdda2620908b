-- ===== src/Pyxis/Repo.antt =====
-- Storing a repository and its images in one transaction (`syncRepo` of pyxis/pyxis.go).
pub mod Cached
pub mod Parts
pub mod Safety
use vuln4shift_backend.Prelude.{
  ℕ, ◌||◌, Option, none, some, List, [], ◌∷◌, nat_beq, ltb, if◌then◌else◌, Str, str_eq, nat_eq,
  ◌==◌, Result, ok, err,
}
use vuln4shift_backend.Prelude.Action.{Action, pure, fail, ◌>>=◌, each}
use vuln4shift_backend.Prelude.GoMap.{GoMap, lookup, insert, delete, values}
use vuln4shift_backend.Models.{Repository, Arch, Image, RepositoryImage}
use vuln4shift_backend.Pyxis.Api.{ApiImage, ApiImageRepoDetail}
use vuln4shift_backend.Pyxis.Tags.{extract_tags, needs_update, new_repo_image}
use vuln4shift_backend.Pyxis.Cache.{Maps, Pending, repository_image_map}
use vuln4shift_backend.Pyxis.Image.{
  Database, Client, Config, SyncError, Tx, or_pending, statement, request, pend, read, unless_empty,
  sync_image, empty_arch, index_out_of_range, image_not_in_cache,
}

abbrev pub find_image : Maps → Pending → Str → Option Image
find_image m p pyxis_id = or_pending (lookup pyxis_id m.images) (lookup pyxis_id p.images_pending)

abbrev pub find_arch : Maps → Pending → Str → Option Arch
find_arch m p name = or_pending (lookup name m.archs) (lookup name p.archs_pending)

unfoldable pub add_pending_arch : Str → Arch → Pending → Pending
add_pending_arch name arch p = record {
  archs_pending = insert name arch p.archs_pending;
  images_pending = p.images_pending;
  cves_pending = p.cves_pending;
}

-- A digest that the API may leave empty, as a pointer.
abbrev pub digest_ptr : Str → Option Str
digest_ptr [] = none
digest_ptr (c ∷ s) = some (c ∷ s)

-- The row to write for an image, if any: a new one, or the known one with its new data.
unfoldable pub image_row : Config → Option Image → ApiImage → ApiImageRepoDetail → ℕ → Option Image
image_row config none api detail arch_id = some (record {
  id = 0;
  pyxis_id = api.pyxis_id;
  modified_date = if config.skip_image_cve_sync then 0 else api.modified_date;
  manifest_list_digest = digest_ptr detail.manifest_list_digest;
  manifest_schema2_digest = digest_ptr detail.manifest_schema2_digest;
  docker_image_digest = digest_ptr api.docker_image_digest;
  arch_id = arch_id;
})
image_row config (some image) api detail arch_id =
    if ltb image.modified_date api.modified_date || config.force_sync
    then some (record {
      id = image.id;
      pyxis_id = image.pyxis_id;
      modified_date = if config.skip_image_cve_sync then image.modified_date else api.modified_date;
      manifest_list_digest = digest_ptr detail.manifest_list_digest;
      manifest_schema2_digest = digest_ptr detail.manifest_schema2_digest;
      docker_image_digest = digest_ptr api.docker_image_digest;
      arch_id = arch_id;
    })
    else none

abbrev pub cons_some : {A : Type 0} → Option A → List A → List A
cons_some none xs = xs
cons_some (some x) xs = x ∷ xs

-- The rows of `repository_image` to insert, to update and to delete.
pub record ImageSplit : Type 0 where
  pub to_insert : List RepositoryImage
  pub to_update : List RepositoryImage
  pub rest : GoMap ℕ RepositoryImage

module _ {E F : Type 0} where
  abbrev pub keep_insert :
      RepositoryImage → Result (SyncError E F) ImageSplit → Result (SyncError E F) ImageSplit
  keep_insert row (ok s) =
      ok (record { to_insert = row ∷ s.to_insert; to_update = s.to_update; rest = s.rest })
  keep_insert row (err e) = err e

  abbrev pub keep_update :
      RepositoryImage → Result (SyncError E F) ImageSplit → Result (SyncError E F) ImageSplit
  keep_update row (ok s) =
      ok (record { to_insert = s.to_insert; to_update = row ∷ s.to_update; rest = s.rest })
  keep_update row (err e) = err e

module _ {D W E F : Type 0} (db : Database D E) (client : Client W F) (config : Config)
    (marshal : List Str → Str) (unmarshal : Str → Option (List Str)) (maps : Maps) where
  create_arch : Str → Action (Tx D W) (SyncError E F) Arch
  create_arch name = do
    arch ← statement (db.create_arch (record { id = 0; name = name }))
    _ ← pend (add_pending_arch name arch)
    pure arch

  arch_or_create : ApiImage → Option Arch → Action (Tx D W) (SyncError E F) Arch
  unfolding create_arch
  arch_or_create image (some arch) = pure arch
  arch_or_create image none =
      if image.architecture == []
      then fail (empty_arch image.pyxis_id)
      else create_arch image.architecture

  arch_of : ApiImage → Action (Tx D W) (SyncError E F) Arch
  unfolding arch_or_create
  arch_of image = do
    found ← read λ p. ok (find_arch maps p image.architecture)
    arch_or_create image found

  -- `apiImage.Repositories[0]`
  first_detail : List ApiImageRepoDetail → Action (Tx D W) (SyncError E F) ApiImageRepoDetail
  first_detail [] = fail index_out_of_range
  first_detail (detail ∷ details) = pure detail

  -- The images to write, from those of the API.
  unfoldable pub images_to_sync : GoMap Str ApiImage → Action (Tx D W) (SyncError E F) (List Image)
  unfolding arch_of first_detail
  images_to_sync [] = pure []
  images_to_sync ((pyxis_id, image) ∷ images) = do
    arch ← arch_of image
    detail ← first_detail image.repositories
    rows ← images_to_sync images
    pure (cons_some (image_row config (lookup pyxis_id maps.images) image detail arch.id) rows)

  -- The loop over the API's images; what stays in the map is deleted.
  unfoldable pub split_repository_images :
      Pending → ℕ → GoMap Str ApiImage → GoMap ℕ RepositoryImage → Result (SyncError E F) ImageSplit
  split_repository_images p repo_id [] current =
      ok (record { to_insert = []; to_update = []; rest = current })
  split_repository_images p repo_id ((pyxis_id, api) ∷ images) current =
      elim (find_image maps p pyxis_id) [
        | none ↦ err (image_not_in_cache pyxis_id)
        | some image ↦
            let (tags, version) = extract_tags marshal unmarshal api in
            let row = new_repo_image repo_id image.id tags version in
            elim (lookup image.id current) [
              | none ↦ keep_insert row (split_repository_images p repo_id images current)
              | some old ↦
                  let others = split_repository_images p repo_id images (delete image.id current) in
                  if needs_update marshal unmarshal old tags version
                  then keep_update row others
                  else others
            ]
      ]

  write_images : ImageSplit → Action (Tx D W) (SyncError E F) (Unit {0})
  write_images split = do
    _ ← unless_empty db.create_repository_images split.to_insert
    _ ← unless_empty db.delete_repository_images (values split.rest)
    each (λ row. statement (db.update_repository_image row)) split.to_update

  -- The rows of `repository_image`.
  unfoldable pub link_images : ℕ → GoMap Str ApiImage → Action (Tx D W) (SyncError E F) (Unit {0})
  unfolding split_repository_images write_images
  link_images repo_id images = do
    rows ← statement (db.find_repository_images repo_id)
    split ← read λ p. split_repository_images p repo_id images (repository_image_map rows [])
    write_images split

  save_repository : Repository → Action (Tx D W) (SyncError E F) Repository
  save_repository repo = do _ ← statement (db.save_repository repo); pure repo

  unfoldable pub store_repository : Repository → Action (Tx D W) (SyncError E F) Repository
  unfolding save_repository
  store_repository repo =
      if nat_beq repo.id 0 then statement (db.create_repository repo) else save_repository repo

  -- The body of `syncRepo` from the reply on, from the request on, and up to the commit.
  sync_listed : Repository → GoMap Str ApiImage → Action (Tx D W) (SyncError E F) (Unit {0})
  unfolding images_to_sync link_images
  sync_listed stored images = do
    rows ← images_to_sync images
    _ ← each (sync_image db client config maps) rows
    link_images stored.id images

  sync_stored : Repository → Action (Tx D W) (SyncError E F) (Unit {0})
  unfolding sync_listed
  sync_stored stored = do
    images ← request (client.repo_images stored.registry stored.repository)
    sync_listed stored images

  unfoldable pub sync_repo_rows : Repository → Action (Tx D W) (SyncError E F) (Unit {0})
  unfolding store_repository sync_stored
  sync_repo_rows repo = do stored ← store_repository repo; sync_stored stored

  unfoldable pub commit_ : Action (Tx D W) (SyncError E F) (Unit {0})
  commit_ = statement db.commit

  -- The deferred rollback does nothing after a commit.
  unfoldable pub close :
      Tx D W × Result (SyncError E F) (Unit {0}) → Tx D W × Result (SyncError E F) (Unit {0})
  close (s, ok u) = (s, ok u)
  close (s, err e) = (record { db = db.rollback s.db; world = s.world; pending = s.pending }, err e)

  -- `syncRepo`
  unfoldable pub sync_repo : Repository → Action (Tx D W) (SyncError E F) (Unit {0})
  unfolding sync_repo_rows commit_ close
  sync_repo repo s = close (
      (sync_repo_rows repo >>= λ _. commit_)
        (record { db = db.begin_ s.db; world = s.world; pending = s.pending }))
