-- ===== src/Pyxis/Api.antt =====
-- The requests to Pyxis (pyxis/api.go): its replies, the loops over their pages, and the checks of
-- what they carry. What `RetryRequest` gives for a URL is the parameter `fetch`, over the state `W`
-- of the world; its decoding error is of the type `F`.
pub mod Pages
pub mod Contents
use vuln4shift_backend.Prelude.{
  ℕ, zero, suc, ◌+◌, ◌/◌, Bool, true, false, not, ◌&&◌, ◌||◌, Option, none, some, List, [], ◌∷◌,
  ◌++◌, nat_beq, ltb, if◌then◌else◌, select, Str, codes, str_eq, ◌==◌, Result, ok, err,
}
use vuln4shift_backend.Prelude.GoMap.{GoMap, insert, keys}
use vuln4shift_backend.Prelude.Sort.{sort}
use vuln4shift_backend.Client.{HttpClient, ClientError, retry_request}
use vuln4shift_backend.Strings.{is_digit}
use vuln4shift_backend.Strings.Order.{str_less}
use vuln4shift_backend.Strings.Print.{decimal}

pub record ApiRepo : Type 0 where
  pub pyxis_id : Str
  pub modified_date : ℕ
  pub registry : Str
  pub repository : Str

pub record ApiImageRepoTag : Type 0 where
  pub name : Str

pub record ApiImageRepoDetail : Type 0 where
  pub manifest_list_digest : Str
  pub manifest_schema2_digest : Str
  pub tags : List ApiImageRepoTag

pub record ApiImage : Type 0 where
  pub pyxis_id : Str
  pub modified_date : ℕ
  pub architecture : Str
  pub docker_image_digest : Str
  pub repositories : List ApiImageRepoDetail

pub record ApiCve : Type 0 where
  pub cve : Str

-- `APIReposResponse`, `APIRepoImagesResponse` and `APIImageCvesResponse`, by the type of a datum.
pub record Page (A : Type 0) : Type 0 where
  pub data_ : List A
  pub page : ℕ
  pub page_size : ℕ
  pub total : ℕ

abbrev pub page_size_ : ℕ
page_size_ = 500

-- The quotient of the floats, rounded up: exact below 2 ^ 43.
unfoldable pub get_total_pages : ℕ → ℕ
get_total_pages total_items =
    let pages = (total_items + 499) / 500 in if nat_beq pages 0 then 1 else pages

abbrev pub blank_page : {A : Type 0} → Page A
blank_page = record { data_ = []; page = 0; page_size = 0; total = 0 }

-- A page by `RetryRequest`, whose callers ask for its error only; the request has no body.
unfoldable pub fetch_page :
    {W A : Type 0}
    → HttpClient W
    → (Str → Page A → Page A × Option ClientError)
    → ℕ
    → Str
    → W
    → W × Result ClientError (Page A)
fetch_page http decode retries url w =
    let (w', reply) =
      retry_request {Q = Str} http some decode retries (codes "GET") url none blank_page w in
    (w', elim reply.error [ none ↦ ok reply.response | some e ↦ err e ])

unfoldable pub page_url : Str → ℕ → Str
page_url url page =
    url ++ codes "?page_size=" ++ decimal page_size_ ++ codes "&page=" ++ decimal page

unfoldable pub format_repo_map_key : Str → Str → Str
format_repo_map_key registry repository = registry ++ codes "/" ++ repository

pub data ApiError (F : Type 0) : Type 0 where
  request_failed : F → ApiError F
  empty_repositories empty_digests : Str → ApiError F

-- A loop over pages: `add` puts the data of a page into the map built so far. The outer option is
-- `none` when the fuel runs out.
module _ {W F A M : Type 0} (fetch : Str → W → W × Result F (Page A))
    (add : List A → M → Result (ApiError F) M) (url : Str) where
  after_page :
      ℕ
      → (ℕ → ℕ → M → W → Option (W × Result (ApiError F) M))
      → M
      → W × Result F (Page A)
      → Option (W × Result (ApiError F) M)
  after_page page loop m (w, err e) = some (w, err (request_failed e))
  after_page page loop m (w, ok response) = elim (add response.data_ m) [
    | err e ↦ some (w, err e)
    | ok m' ↦ loop (suc page) (get_total_pages response.total) m' w
  ]

  unfoldable pub page_loop : ℕ → ℕ → ℕ → M → W → Option (W × Result (ApiError F) M)
  unfolding after_page
  page_loop zero page total_pages m w = none
  page_loop (suc fuel) page total_pages m w =
      let rest = after_page page (page_loop fuel) m (fetch (page_url url page) w) in
      if ltb page total_pages then rest else some (w, ok m)

  -- `totalPages` starts as 9999.
  unfoldable pub fetch_pages : ℕ → M → W → Option (W × Result (ApiError F) M)
  unfolding page_loop
  fetch_pages fuel m w = page_loop fuel 0 9999 m w

unfoldable pub add_repos :
    {F : Type 0} → List ApiRepo → GoMap Str ApiRepo → Result (ApiError F) (GoMap Str ApiRepo)
add_repos [] m = ok m
add_repos (repo ∷ repos) m =
    if repo.registry == [] || repo.repository == []
    then add_repos repos m
    else add_repos repos (insert (format_repo_map_key repo.registry repo.repository) repo m)

-- The check of an image with no `docker_image_digest`.
unfoldable pub has_bare_detail : List ApiImageRepoDetail → Bool
has_bare_detail [] = false
has_bare_detail (detail ∷ details) =
    (detail.manifest_list_digest == [] && detail.manifest_schema2_digest == [])
    || has_bare_detail details

unfoldable pub check_image : {F : Type 0} → ApiImage → Option (ApiError F)
unfolding has_bare_detail
check_image image =
    if elim image.repositories [ [] ↦ true | _ ∷ _ ↦ false ]
    then some (empty_repositories image.pyxis_id)
    else if image.docker_image_digest == [] && has_bare_detail image.repositories
    then some (empty_digests image.pyxis_id)
    else none

unfoldable pub add_images :
    {F : Type 0} → List ApiImage → GoMap Str ApiImage → Result (ApiError F) (GoMap Str ApiImage)
unfolding check_image
add_images [] m = ok m
add_images (image ∷ images) m = elim (check_image image) [
  | some e ↦ err e
  | none ↦ add_images images (insert image.pyxis_id image m)
]

unfoldable pub add_cves :
    {F : Type 0} → List ApiCve → GoMap Str (Unit {0}) → Result (ApiError F) (GoMap Str (Unit {0}))
add_cves [] m = ok m
add_cves (cve ∷ cves) m = add_cves cves (insert cve.cve tt m)

all_digits : Str → Bool
unfolding is_digit
all_digits [] = true
all_digits (c ∷ s) = is_digit c && all_digits s

-- `[0-9]+-[0-9]+$`, with whether a digit was read.
year_and_number : Bool → Str → Bool
unfolding is_digit all_digits
year_and_number read [] = false
year_and_number read (c ∷ s) =
    if is_digit c
    then year_and_number true s
    else nat_beq c b'-' && read && (not (s == []) && all_digits s)

-- `IsValidCVE`: the expression `^CVE-[0-9]+-[0-9]+$`.
unfoldable pub is_valid_cve : Str → Bool
unfolding year_and_number
is_valid_cve (c ∷ v ∷ e ∷ d ∷ s) = c ∷ v ∷ e ∷ d ∷ [] == codes "CVE-" && year_and_number false s
is_valid_cve _ = false

-- The list that `getAPIImageCves` makes of its map.
unfoldable pub cve_list : GoMap Str (Unit {0}) → List Str
cve_list m = sort str_less (select is_valid_cve (keys m))

module _ {W F : Type 0} (fuel : ℕ) where
  unfoldable pub get_api_repositories :
      (Str → W → W × Result F (Page ApiRepo))
      → Str
      → W
      → Option (W × Result (ApiError F) (GoMap Str ApiRepo))
  get_api_repositories fetch base w =
      fetch_pages fetch add_repos (base ++ codes "/repositories") fuel [] w

  unfoldable pub get_api_repo_images :
      (Str → W → W × Result F (Page ApiImage))
      → Str
      → Str
      → Str
      → W
      → Option (W × Result (ApiError F) (GoMap Str ApiImage))
  get_api_repo_images fetch base registry repository w =
      fetch_pages fetch add_images
        (base
          ++ codes "/repositories/registry/"
          ++ registry
          ++ codes "/repository/"
          ++ repository
          ++ codes "/images")
        fuel [] w

  sort_cves : W × Result (ApiError F) (GoMap Str (Unit {0})) → W × Result (ApiError F) (List Str)
  sort_cves (w, err e) = (w, err e)
  sort_cves (w, ok m) = (w, ok (cve_list m))

  unfoldable pub get_api_image_cves :
      (Str → W → W × Result F (Page ApiCve))
      → Str
      → Str
      → W
      → Option (W × Result (ApiError F) (List Str))
  unfolding sort_cves
  get_api_image_cves fetch base image_pyxis_id w =
      elim (fetch_pages fetch add_cves
        (base ++ codes "/images/id/" ++ image_pyxis_id ++ codes "/vulnerabilities") fuel [] w) [
          | none ↦ none
          | some r ↦ some (sort_cves r)
        ]
