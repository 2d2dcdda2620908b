-- ===== src/Pyxis/Image.antt =====
-- Storing an image and its CVEs within the transaction of its repository (`registerMissingCves` and
-- `syncImage` of pyxis/pyxis.go). What the code asks of the database through gorm is the interface
-- `Database`, what it asks of Pyxis the interface `Client`.
pub mod Steps
pub mod Registered
pub mod Diff
pub mod Links
use vuln4shift_backend.Prelude.{
  ℕ, Bool, true, false, not, ◌||◌, Option, none, some, List, [], ◌∷◌, map, nat_beq, if◌then◌else◌,
  is_some, select, Str, codes, str_eq, nat_eq, Result, ok, err,
}
use vuln4shift_backend.Prelude.Action.{Action, pure, fail, ◌>>=◌, ◌>>◌}
use vuln4shift_backend.Prelude.GoMap.{GoMap, lookup, insert, delete, has, values}
use vuln4shift_backend.Models.{Repository, Arch, Image, Cve, ImageCve, RepositoryImage, not_set}
use vuln4shift_backend.Pyxis.Api.{ApiImage, ApiError}
use vuln4shift_backend.Pyxis.Cache.{Maps, Pending, image_cve_map}

-- The statements on a database in state `D`, which fail with an `E`. A creation gives the row with
-- its ID. The two queries are made outside of the transaction.
pub record Database (D E : Type 0) : Type 0 where
  pub begin_ : D → D
  pub commit : D → D × Result E (Unit {0})
  pub rollback : D → D
  pub create_repository : Repository → D → D × Result E Repository
  pub save_repository : Repository → D → D × Result E (Unit {0})
  pub create_arch : Arch → D → D × Result E Arch
  pub create_image : Image → D → D × Result E Image
  pub save_image : Image → D → D × Result E (Unit {0})
  -- does nothing on a conflict of the name
  pub create_cves : List Cve → D → D × Result E (List Cve)
  pub find_image_cves : ℕ → D → D × Result E (List ImageCve)
  pub create_image_cves : List ImageCve → D → D × Result E (Unit {0})
  pub delete_image_cves : List ImageCve → D → D × Result E (Unit {0})
  pub find_repository_images : ℕ → D → D × Result E (List RepositoryImage)
  pub create_repository_images : List RepositoryImage → D → D × Result E (Unit {0})
  pub delete_repository_images : List RepositoryImage → D → D × Result E (Unit {0})
  pub update_repository_image : RepositoryImage → D → D × Result E (Unit {0})

-- `getAPIRepoImages` and `getAPIImageCves`, over the state `W` of the world.
pub record Client (W F : Type 0) : Type 0 where
  pub repo_images : Str → Str → W → W × Result (ApiError F) (GoMap Str ApiImage)
  pub image_cves : Str → W → W × Result (ApiError F) (List Str)

-- `utils.Cfg.SkipImageCveSync` and `utils.Cfg.ForceSync`.
pub record Config : Type 0 where
  pub skip_image_cve_sync : Bool
  pub force_sync : Bool

pub data SyncError (E F : Type 0) : Type 0 where
  database : E → SyncError E F
  api : ApiError F → SyncError E F
  cve_not_in_cache : Str → SyncError E F
  image_not_in_cache : Str → SyncError E F
  empty_arch : Str → SyncError E F
  index_out_of_range : SyncError E F

-- What a transaction changes.
pub record Tx (D W : Type 0) : Type 0 where
  pub db : D
  pub world : W
  pub pending : Pending

-- The row of a CVE that only Pyxis knows.
unfoldable pub unknown_cve : Str → Cve
unknown_cve name = record {
  id = 0;
  name = name;
  description = codes "unknown";
  severity = not_set;
  cvss3_score = 0;
  cvss3_metrics = [];
  cvss2_score = 0;
  cvss2_metrics = [];
  public_date = none;
  modified_date = none;
  redhat_url = [];
  secondary_url = [];
  exploit_data = [];
}

-- A row in the map, or else in the pending map.
abbrev pub or_pending : {A : Type 0} → Option A → Option A → Option A
or_pending (some a) o = some a
or_pending none o = o

abbrev pub find_cve : Maps → Pending → Str → Option Cve
find_cve m p name = or_pending (lookup name m.cves) (lookup name p.cves_pending)

abbrev pub put_cves : List Cve → GoMap Str Cve → GoMap Str Cve
put_cves [] m = m
put_cves (cve ∷ cves) m = put_cves cves (insert cve.name cve m)

unfoldable pub add_pending_cves : List Cve → Pending → Pending
add_pending_cves cves p = record {
  archs_pending = p.archs_pending;
  images_pending = p.images_pending;
  cves_pending = put_cves cves p.cves_pending;
}

unfoldable pub add_pending_image : Image → Pending → Pending
add_pending_image image p = record {
  archs_pending = p.archs_pending;
  images_pending = insert image.pyxis_id image p.images_pending;
  cves_pending = p.cves_pending;
}

unfoldable pub missing_cves : Maps → Pending → List Str → List Cve
unfolding unknown_cve
missing_cves m p names = map unknown_cve (select (λ name. not (is_some (find_cve m p name))) names)

abbrev pub CveSplit : Type 0
CveSplit = List ImageCve × GoMap ℕ ImageCve

module _ {E F : Type 0} where
  abbrev pub keep : ImageCve → Result (SyncError E F) CveSplit → Result (SyncError E F) CveSplit
  keep row (ok (to_insert, rest)) = ok (row ∷ to_insert, rest)
  keep row (err e) = err e

  -- The loop over the CVEs of an image; what stays in the map is deleted.
  unfoldable pub split_cves :
      Maps → Pending → ℕ → List Str → GoMap ℕ ImageCve → Result (SyncError E F) CveSplit
  split_cves m p image_id [] current = ok ([], current)
  split_cves m p image_id (name ∷ names) current = elim (find_cve m p name) [
    | none ↦ err (cve_not_in_cache name)
    | some cve ↦
        if has cve.id current
        then split_cves m p image_id names (delete cve.id current)
        else keep (record { image_id = image_id; cve_id = cve.id })
            (split_cves m p image_id names current)
  ]

module _ {E F : Type 0} where
  abbrev pub lift_result : {A : Type 0} → Result E A → Result (SyncError E F) A
  lift_result (ok a) = ok a
  lift_result (err e) = err (database e)

  abbrev pub lift_api : {A : Type 0} → Result (ApiError F) A → Result (SyncError E F) A
  lift_api (ok a) = ok a
  lift_api (err e) = err (api e)

module _ {D W E F : Type 0} where
  -- A statement, and a request.
  abbrev pub statement : {A : Type 0} → (D → D × Result E A) → Action (Tx D W) (SyncError E F) A
  statement run s =
      let (d, r) = run s.db in
      (record { db = d; world = s.world; pending = s.pending }, lift_result r)

  abbrev pub request :
      {A : Type 0} → (W → W × Result (ApiError F) A) → Action (Tx D W) (SyncError E F) A
  request run s =
      let (w, r) = run s.world in (record { db = s.db; world = w; pending = s.pending }, lift_api r)

  abbrev pub pend : (Pending → Pending) → Action (Tx D W) (SyncError E F) (Unit {0})
  pend f s = (record { db = s.db; world = s.world; pending = f s.pending }, ok tt)

  abbrev pub read :
      {A : Type 0} → (Pending → Result (SyncError E F) A) → Action (Tx D W) (SyncError E F) A
  read f s = (s, f s.pending)

  -- A statement that is made only on a list with a row.
  abbrev pub unless_empty :
      {A : Type 0}
      → (List A → D → D × Result E (Unit {0}))
      → List A
      → Action (Tx D W) (SyncError E F) (Unit {0})
  unless_empty run [] = pure tt
  unless_empty run (row ∷ rows) = statement (run (row ∷ rows))

module _ {D W E F : Type 0} (db : Database D E) (client : Client W F) (config : Config)
    (maps : Maps) where
  create_missing : List Cve → Action (Tx D W) (SyncError E F) (Unit {0})
  create_missing [] = pure tt
  create_missing (cve ∷ cves) = do
    created ← statement (db.create_cves (cve ∷ cves))
    pend (add_pending_cves created)

  -- `registerMissingCves`
  unfoldable pub register_missing_cves : List Str → Action (Tx D W) (SyncError E F) (Unit {0})
  unfolding create_missing
  register_missing_cves names = do
    missing ← read λ p. ok (missing_cves maps p names)
    create_missing missing

  insert_image : Image → Action (Tx D W) (SyncError E F) Image
  insert_image image = do
    created ← statement (db.create_image image)
    _ ← pend (add_pending_image created)
    pure created

  update_image : Image → Action (Tx D W) (SyncError E F) Image
  update_image image = do _ ← statement (db.save_image image); pure image

  -- The image with its ID.
  unfoldable pub store_image : Image → Action (Tx D W) (SyncError E F) Image
  unfolding insert_image update_image
  store_image image = if nat_beq image.id 0 then insert_image image else update_image image

  write_split : CveSplit → Action (Tx D W) (SyncError E F) (Unit {0})
  write_split (to_insert, rest) = do
    _ ← unless_empty db.create_image_cves to_insert
    unless_empty db.delete_image_cves (values rest)

  link_rows : ℕ → List Str → List ImageCve → Action (Tx D W) (SyncError E F) (Unit {0})
  unfolding write_split
  link_rows image_id names rows = do
    split ← read λ p. split_cves maps p image_id names (image_cve_map rows [])
    write_split split

  -- The rows of `image_cve`, from the CVEs that Pyxis gives.
  unfoldable pub link_cves : ℕ → List Str → Action (Tx D W) (SyncError E F) (Unit {0})
  unfolding link_rows
  link_cves image_id names = do
    rows ← statement (db.find_image_cves image_id)
    link_rows image_id names rows

  sync_image_cves : Image → Action (Tx D W) (SyncError E F) (Unit {0})
  unfolding register_missing_cves link_cves
  sync_image_cves image = do
    names ← request (client.image_cves image.pyxis_id)
    _ ← register_missing_cves names
    link_cves image.id names

  -- `syncImage`
  unfoldable pub sync_image : Image → Action (Tx D W) (SyncError E F) (Unit {0})
  unfolding store_image sync_image_cves
  sync_image image = do
    stored ← store_image image
    if config.skip_image_cve_sync then pure tt else sync_image_cves stored
