-- ===== src/Tests/PyxisRepo.antt =====
-- A repository whose rows are all written and whose transaction cannot be committed.
use mathlib.Core.Path.{subst}
use vuln4shift_backend.Prelude.{
  ℕ, ◌+◌, ◌≡◌, refl, sym, ap, map, false, none, List, [], ◌∷◌, arith, Str, codes, str_eq, nat_eq,
  str_beq, Result, ok, err,
}
use vuln4shift_backend.Prelude.Action.{each}
use vuln4shift_backend.Prelude.GoMap.{GoMap, AllEntries, insert, lookup}
use vuln4shift_backend.Models.{Repository, Cve}
use vuln4shift_backend.Pyxis.Api.{ApiImage}
use vuln4shift_backend.Pyxis.Api.Contents.{IsStorable}
use vuln4shift_backend.Pyxis.Cache.{Maps, image_cve_map, repository_image_map}
use vuln4shift_backend.Pyxis.Image.{
  Database, Client, Config, database, Tx, sync_image, missing_cves, add_pending_image, split_cves,
  add_pending_cves,
}
use vuln4shift_backend.Pyxis.Image.Steps.{internal}
use vuln4shift_backend.Pyxis.Repo.{sync_repo, image_row, add_pending_arch}
use vuln4shift_backend.Pyxis.Repo.Parts.{RepoLaws}
use vuln4shift_backend.Pyxis.Repo.Safety.{sync_repo-External}

-- The state counts the rows created, and the IDs stay 0.
abbrev no_commit : Database ℕ ℕ
no_commit = record {
  begin_ = λ d. d;
  commit = λ d. (d, err 7);
  rollback = λ d. 0;
  create_repository = λ r d. (d + 1, ok r);
  save_repository = λ r d. (d, ok tt);
  create_arch = λ a d. (d + 1, ok a);
  create_image = λ i d. (d + 1, ok i);
  save_image = λ i d. (d, ok tt);
  create_cves = λ cs d. (d + 1, ok cs);
  find_image_cves = λ i d. (d, ok []);
  create_image_cves = λ rows d. (d + 1, ok tt);
  delete_image_cves = λ rows d. (d, ok tt);
  find_repository_images = λ i d. (d, ok []);
  create_repository_images = λ rows d. (d + 1, ok tt);
  delete_repository_images = λ rows d. (d, ok tt);
  update_repository_image = λ row d. (d, ok tt);
}

abbrev one_image : ApiImage
one_image = record {
  pyxis_id = codes "i1";
  modified_date = 3;
  architecture = codes "amd64";
  docker_image_digest = codes "sha256:1";
  repositories = record { manifest_list_digest = []; manifest_schema2_digest = []; tags = [] } ∷ [];
}

abbrev listing : GoMap Str ApiImage
listing = (codes "i1", one_image) ∷ []

abbrev one_page : Client ℕ ℕ
one_page = record {
  repo_images = λ r n w. (w + 1, ok listing);
  image_cves = λ i w. (w + 1, ok (codes "CVE-2024-1" ∷ []));
}

abbrev rows_or : List Cve → {E : Type 0} → Result E (List Cve) → List Cve
rows_or m (ok rows) = rows
rows_or m (err e) = m

abbrev images_or :
    GoMap Str ApiImage → {E : Type 0} → Result E (GoMap Str ApiImage) → GoMap Str ApiImage
images_or m (ok images) = images
images_or m (err e) = m

listing-IsStorable : AllEntries IsStorable listing
unfolding str_beq
listing-IsStorable =
    (record { keyed = refl; published = λ empty. ground (arith, empty); digested = refl }, tt)

no_commit_laws : RepoLaws no_commit one_page
no_commit_laws = record {
  creates = record {
    cve_names = λ cves rows d e. ap (λ r. map (λ cve. cve.name) (rows_or cves r)) (sym e);
    image_pyxis_id = λ image row d e. ground (arith, e);
  };
  storable =
      λ r n w images e. subst (AllEntries IsStorable) (ap (images_or []) e) listing-IsStorable;
}

abbrev no_maps : Maps
no_maps = record { repos = []; pyxis_id_repos = []; archs = []; images = []; cves = [] }

abbrev start : Tx ℕ ℕ
start = record {
  db = 0;
  world = 0;
  pending = record { archs_pending = []; images_pending = []; cves_pending = [] };
}

abbrev new_repository : Repository
new_repository = record {
  id = 0;
  pyxis_id = codes "r1";
  modified_date = 3;
  registry = codes "registry";
  repository = codes "ubi8";
}

abbrev config : Config
config = record { skip_image_cve_sync = false; force_sync = false }

sync_repo-External_example : internal {E = ℕ} {F = ℕ} (database 7) ≡ false
unfolding sync_repo lookup str_beq each image_row sync_image missing_cves add_pending_image
    add_pending_arch split_cves add_pending_cves insert image_cve_map repository_image_map
sync_repo-External_example =
    sync_repo-External no_commit one_page config (λ tags. []) (λ text. none) no_maps no_commit_laws
      new_repository start (database 7) refl
