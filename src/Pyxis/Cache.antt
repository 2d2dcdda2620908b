-- ===== src/Pyxis/Cache.antt =====
-- The maps of the rows of the database that the synchronisation keeps (pyxis/database.go), and what
-- a transaction adds to them once it is committed.
pub mod Flush
use vuln4shift_backend.Prelude.{ℕ, List, [], ◌∷◌, Str, str_eq, nat_eq, Result, ok, err, ◌>>=◌}
use vuln4shift_backend.Prelude.GoMap.{GoMap, insert, insert_all}
use vuln4shift_backend.Models.{Repository, Arch, Image, Cve, ImageCve, RepositoryImage}
use vuln4shift_backend.Pyxis.Api.{format_repo_map_key}

-- `dbRepoMap`, `dbPyxisIDRepoMap`, `dbArchMap`, `dbImageMap` and `dbCveMap`.
pub record Maps : Type 0 where
  pub repos : GoMap Str Repository
  pub pyxis_id_repos : GoMap Str Repository
  pub archs : GoMap Str Arch
  pub images : GoMap Str Image
  pub cves : GoMap Str Cve

-- `dbArchMapPending`, `dbImageMapPending` and `dbCveMapPending`.
pub record Pending : Type 0 where
  pub archs_pending : GoMap Str Arch
  pub images_pending : GoMap Str Image
  pub cves_pending : GoMap Str Cve

unfoldable pub empty_pending_cache : Pending
empty_pending_cache = record { archs_pending = []; images_pending = []; cves_pending = [] }

unfoldable pub flush_pending_cache : Maps → Pending → Maps × Pending
flush_pending_cache m p = (
  record {
    repos = m.repos;
    pyxis_id_repos = m.pyxis_id_repos;
    archs = insert_all p.archs_pending m.archs;
    images = insert_all p.images_pending m.images;
    cves = insert_all p.cves_pending m.cves;
  },
  empty_pending_cache,
)

-- `m[key(row)] = row` for each row.
unfoldable pub index_rows : {A : Type 0} → (A → Str) → List A → GoMap Str A → GoMap Str A
index_rows key [] m = m
index_rows key (row ∷ rows) m = index_rows key rows (insert (key row) row m)

abbrev pub repo_key : Repository → Str
repo_key repo = format_repo_map_key repo.registry repo.repository

module _ {E : Type 0} where
  unfoldable pub prepare_db_repositories : Result E (List Repository) → Maps → Result E Maps
  unfolding index_rows
  prepare_db_repositories rows m = do
    repos ← rows
    ok (record {
      repos = index_rows repo_key repos [];
      pyxis_id_repos = index_rows (λ repo. repo.pyxis_id) repos [];
      archs = m.archs;
      images = m.images;
      cves = m.cves;
    })

  unfoldable pub prepare_db_archs : Result E (List Arch) → Maps → Result E Maps
  unfolding index_rows
  prepare_db_archs rows m = do
    archs ← rows
    ok (record {
      repos = m.repos;
      pyxis_id_repos = m.pyxis_id_repos;
      archs = index_rows (λ arch. arch.name) archs [];
      images = m.images;
      cves = m.cves;
    })

  unfoldable pub prepare_db_images : Result E (List Image) → Maps → Result E Maps
  unfolding index_rows
  prepare_db_images rows m = do
    images ← rows
    ok (record {
      repos = m.repos;
      pyxis_id_repos = m.pyxis_id_repos;
      archs = m.archs;
      images = index_rows (λ image. image.pyxis_id) images [];
      cves = m.cves;
    })

  unfoldable pub prepare_db_cves : Result E (List Cve) → Maps → Result E Maps
  unfolding index_rows
  prepare_db_cves rows m = do
    cves ← rows
    ok (record {
      repos = m.repos;
      pyxis_id_repos = m.pyxis_id_repos;
      archs = m.archs;
      images = m.images;
      cves = index_rows (λ cve. cve.name) cves [];
    })

  -- `prepareMaps`, of what the four queries give.
  unfoldable pub prepare_maps :
      Result E (List Repository)
      → Result E (List Arch)
      → Result E (List Image)
      → Result E (List Cve)
      → Maps
      → Result E Maps
  unfolding prepare_db_repositories prepare_db_archs prepare_db_images prepare_db_cves
  prepare_maps repos archs images cves m0 = do
    m1 ← prepare_db_repositories repos m0
    m2 ← prepare_db_archs archs m1
    m3 ← prepare_db_images images m2
    prepare_db_cves cves m3

-- `getDbImageCves` and `getDbRepositoryImages`, of the rows found.
unfoldable pub image_cve_map : List ImageCve → GoMap ℕ ImageCve → GoMap ℕ ImageCve
image_cve_map [] m = m
image_cve_map (row ∷ rows) m = image_cve_map rows (insert row.cve_id row m)

unfoldable pub repository_image_map :
    List RepositoryImage → GoMap ℕ RepositoryImage → GoMap ℕ RepositoryImage
repository_image_map [] m = m
repository_image_map (row ∷ rows) m = repository_image_map rows (insert row.image_id row m)
