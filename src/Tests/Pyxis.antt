-- ===== src/Tests/Pyxis.antt =====
-- A small Pyxis and a small database.
use vuln4shift_backend.Prelude.{
  ℕ, zero, suc, ◌≡◌, refl, true, false, not, ◌||◌, Option, none, some, List, [], ◌∷◌, arith, Str,
  codes, str_eq, str_beq, nat_eq, ◌==◌, is_some, Result, ok,
}
use vuln4shift_backend.Prelude.GoMap.{GoMap, lookup, insert, AllEntries}
use vuln4shift_backend.Prelude.Sort.{sort}
use vuln4shift_backend.Strings.Order.{str_less}
use vuln4shift_backend.Client.{HttpClient, request, retry_request}
use vuln4shift_backend.Models.{Cve, Repository}
use vuln4shift_backend.Pyxis.Api.{
  Page, ApiCve, ApiRepo, ApiImage, add_cves, add_images, fetch_pages, get_total_pages,
  get_api_image_cves, get_api_repo_images, fetch_page, cve_list, is_valid_cve, format_repo_map_key,
}
use vuln4shift_backend.Pyxis.Api.Pages.{Fetched, Returns, fetch_pages-Returns}
use vuln4shift_backend.Pyxis.Api.Contents.{
  CvesOf, image_cves_url, IsStorable, get_api_image_cves-CvesOf, get_api_repo_images-IsStorable,
}
use vuln4shift_backend.Pyxis.Tags.{extract_tags, new_repo_image, needs_update, tag_less}
use vuln4shift_backend.Pyxis.Tags.Version.{
  tagged_in, extract_tags-version, needs_update-new_repo_image,
}
use vuln4shift_backend.Pyxis.Cache.{Maps, Pending, prepare_maps}
use vuln4shift_backend.Pyxis.Image.{Tx}
use vuln4shift_backend.Pyxis.Repos.{after_sync}
use vuln4shift_backend.Pyxis.Repos.Kept.{Kept, after_sync-Kept}
use vuln4shift_backend.Pyxis.Profile.{
  Profile, repository_in_profile, parse_profiles, listed, repository_in_profile-listed,
}
use vuln4shift_backend.Pyxis.Repos.{repo_row}
use vuln4shift_backend.Pyxis.Repos.Run.{repo_row-known}

abbrev cve_page : Page ApiCve
cve_page = record {
  data_ =
      record { cve = codes "CVE-2022-2" }
      ∷ record { cve = codes "bad" }
      ∷ record { cve = codes "CVE-2021-1" }
      ∷ record { cve = codes "CVE-2022-2" }
      ∷ [];
  page = 0;
  page_size = 500;
  total = 4;
}

-- Every URL gives the same page.
abbrev fetch_cves : Str → ℕ → ℕ × Result ℕ (Page ApiCve)
fetch_cves url n = (suc n, ok cve_page)

abbrev two_cves : List Str
two_cves = codes "CVE-2021-1" ∷ codes "CVE-2022-2" ∷ []

fetch_pages-Returns_example :
    Returns fetch_cves add_cves (codes "u") (fetch_pages fetch_cves add_cves (codes "u") 3 [] 0)
unfolding get_total_pages
fetch_pages-Returns_example =
    fetch_pages-Returns fetch_cves add_cves (codes "u") 4 (λ u w response e. ground arith) 3 [] 0
      (ground arith)

cves_run : get_api_image_cves {F = ℕ} 3 fetch_cves (codes "b") (codes "i") 0 ≡ some (1, ok two_cves)
unfolding get_api_image_cves fetch_pages add_cves get_total_pages cve_list sort insert str_beq
    is_valid_cve str_less
cves_run = refl

get_api_image_cves-CvesOf_example :
    (pages : List (List ApiCve)) × Fetched fetch_cves add_cves
      (image_cves_url (codes "b") (codes "i"))
      0
      9999
      0
      pages
      1
    × CvesOf pages two_cves
get_api_image_cves-CvesOf_example =
    get_api_image_cves-CvesOf 3 fetch_cves (codes "b") (codes "i") 0 1 two_cves cves_run

abbrev tagged_image : ApiImage
tagged_image = record {
  pyxis_id = codes "p1";
  modified_date = 5;
  architecture = codes "amd64";
  docker_image_digest = codes "sha256:a";
  repositories =
      record {
        manifest_list_digest = codes "sha256:b";
        manifest_schema2_digest = [];
        tags =
            record { name = codes "latest" }
            ∷ record { name = codes "1.2" }
            ∷ record { name = codes "1.2.3" }
            ∷ [];
      }
      ∷ [];
}

abbrev fetch_images : Str → ℕ → ℕ × Result ℕ (Page ApiImage)
fetch_images url n =
    (suc n, ok (record { data_ = tagged_image ∷ []; page = 0; page_size = 500; total = 1 }))

abbrev one_image : GoMap Str ApiImage
one_image = (codes "p1", tagged_image) ∷ []

images_run :
    get_api_repo_images {F = ℕ} 3 fetch_images (codes "b") (codes "r") (codes "n") 0
    ≡ some (1, ok one_image)
unfolding get_api_repo_images fetch_pages add_images str_beq get_total_pages insert
images_run = refl

get_api_repo_images-IsStorable_example : AllEntries IsStorable one_image
get_api_repo_images-IsStorable_example =
    get_api_repo_images-IsStorable 3 fetch_images (codes "b") (codes "r") (codes "n") 0 1 one_image
      images_run

-- An encoder of tags: each byte is moved up by one and a zero ends each tag.
abbrev write_tag : Str → Str → Str
write_tag [] rest = 0 ∷ rest
write_tag (c ∷ s) rest = suc c ∷ write_tag s rest

abbrev write_tags : List Str → Str
write_tags [] = []
write_tags (t ∷ ts) = write_tag t (write_tags ts)

abbrev put_byte : ℕ → List Str → List Str
put_byte c [] = (c ∷ []) ∷ []
put_byte c (t ∷ ts) = (c ∷ t) ∷ ts

abbrev read_tags : Str → List Str
read_tags [] = []
read_tags (zero ∷ s) = [] ∷ read_tags s
read_tags (suc c ∷ s) = put_byte c (read_tags s)

read_tags-write_tag : (t rest : Str) → read_tags (write_tag t rest) ≡ t ∷ read_tags rest
read_tags-write_tag [] rest = refl
read_tags-write_tag (c ∷ t) rest = ground (arith, read_tags-write_tag t rest)

read_tags-write_tags : (tags : List Str) → read_tags (write_tags tags) ≡ tags
read_tags-write_tags [] = refl
read_tags-write_tags (t ∷ ts) =
    ground (arith, read_tags-write_tag t (write_tags ts), read_tags-write_tags ts)

abbrev read_some : Str → Option (List Str)
read_some s = some (read_tags s)

extract_tags-version_example :
    (tagged_in tagged_image.repositories (codes "1.2.3") ≡ true)
    × (tag_less (codes "1.2") (codes "1.2.3") ≡ false)
unfolding extract_tags insert tag_less sort str_beq str_less
extract_tags-version_example =
    extract_tags-version write_tags read_some tagged_image (codes "1.2.3") (codes "1.2") refl refl

needs_update-new_repo_image_example :
    let (tags, version) = extract_tags write_tags read_some tagged_image in
    needs_update write_tags read_some (new_repo_image 1 2 tags version) tags version
    ≡ not (is_some version)
needs_update-new_repo_image_example =
    needs_update-new_repo_image write_tags read_some
      (λ tags. ground (arith, read_tags-write_tags tags)) tagged_image 1 2

abbrev cve_row : ℕ → Str → Cve
cve_row id name = record {
  id = id;
  name = name;
  description = [];
  severity = [];
  cvss3_score = 0;
  cvss3_metrics = [];
  cvss2_score = 0;
  cvss2_metrics = [];
  public_date = none;
  modified_date = none;
  redhat_url = [];
  secondary_url = [];
  exploit_data = [];
}

abbrev known_repo : Repository
known_repo = record {
  id = 4;
  pyxis_id = codes "p4";
  modified_date = 9;
  registry = codes "r";
  repository = codes "n";
}

abbrev no_maps : Maps
no_maps = record { repos = []; pyxis_id_repos = []; archs = []; images = []; cves = [] }

abbrev some_maps : Maps
some_maps = record {
  repos = (codes "r/n", known_repo) ∷ [];
  pyxis_id_repos = (codes "p4", known_repo) ∷ [];
  archs = [];
  images = [];
  cves = (codes "CVE-2022-2", cve_row 2 (codes "CVE-2022-2")) ∷ [];
}

abbrev some_pending : Pending
some_pending = record {
  archs_pending = [];
  images_pending = [];
  cves_pending = (codes "CVE-2021-1", cve_row 3 (codes "CVE-2021-1")) ∷ [];
}

-- What a sync left, over a database and a world that are numbers.
abbrev left : Tx ℕ ℕ
left = record { db = 1; world = 2; pending = some_pending }

abbrev fine : Result ℕ (Unit {0})
fine = ok tt

after_sync-Kept_example :
    let run = after_sync some_maps (left, fine) in
    (run.tx.pending ≡ record { archs_pending = []; images_pending = []; cves_pending = [] })
    × (run.tx.db ≡ left.db)
    × (run.tx.world ≡ left.world)
    × Kept fine some_maps some_pending run.maps
after_sync-Kept_example =
    after_sync-Kept some_maps left fine (record { archs = tt; images = tt; cves = (refl, tt) })

abbrev all_fine : Str → ApiRepo
all_fine name = record {
  pyxis_id = codes "p4";
  modified_date = 10;
  registry = codes "r";
  repository = name;
}

repo_row-known_example :
    (repo : Repository) × (lookup (codes "p4") some_maps.pyxis_id_repos ≡ some repo)
    × ((repo_row false some_maps.repos some_maps.pyxis_id_repos
          (codes "r/n")
          (all_fine (codes "n"))).1
        ≡ true)
    × ((row : Repository)
        → (repo_row false some_maps.repos some_maps.pyxis_id_repos
            (codes "r/n")
            (all_fine (codes "n"))).0
          ≡ some row
        → row.id ≡ repo.id)
unfolding prepare_maps lookup insert format_repo_map_key str_beq
repo_row-known_example =
    repo_row-known {E = ℕ} (ok (known_repo ∷ [])) (ok []) (ok [])
      (ok (cve_row 2 (codes "CVE-2022-2") ∷ [])) no_maps some_maps false (codes "r/n")
      (all_fine (codes "n")) known_repo refl refl

abbrev profiles : List Profile
profiles =
    record {
      name = codes "dev";
      registries = record { name = codes "r"; repositories = codes "n" ∷ [] } ∷ [];
    }
    ∷ []

repository_in_profile-listed_example :
    repository_in_profile
      (codes "dev")
      ((codes "dev", (codes "r", (codes "n", tt) ∷ []) ∷ []) ∷ [])
      (codes "r")
      (codes "n")
    ≡ (codes "dev" == codes "all" || listed profiles (codes "dev") (codes "r") (codes "n") false)
unfolding parse_profiles lookup str_beq insert
repository_in_profile-listed_example =
    repository_in_profile-listed (codes "dev") profiles
      ((codes "dev", (codes "r", (codes "n", tt) ∷ []) ∷ []) ∷ []) (codes "r") (codes "n") refl

-- A server that answers every request with 500 and a body that decodes to an empty page.
abbrev broken : HttpClient ℕ
broken = record {
  new_request = λ method url. true;
  do_ = λ method url body n. (suc n, some (500, some (codes "{}")));
}

-- The failure is taken for an image with no CVEs.
broken_run :
    get_api_image_cves 2
      (fetch_page {A = ApiCve} broken (λ body page. (page, none)) 3)
      (codes "b")
      (codes "i")
      0
    ≡ some (3, ok [])
unfolding get_api_image_cves fetch_pages fetch_page retry_request request add_cves get_total_pages
    cve_list sort
broken_run = refl
