-- ===== src/Pyxis/Api/Contents.antt =====
-- What the requests to Pyxis give: images that can be stored, and exactly the CVEs with a valid name.
use mathlib.Core.Path.{subst}
use vuln4shift_backend.Prelude.{
  ◌≢◌, ◌++◌, codes, select, >>=-eq-ok, ℕ, ◌≡◌, refl, inl, inr, Bool, false, ◌&&◌, ◌||◌, none, some,
  List, [], ◌∷◌, arith, Str, str_eq, ◌==◌, contains, contains-select, IsDistinct, select-IsDistinct,
  Option-cases, Result, ok, err,
}
use vuln4shift_backend.Prelude.GoMap.{
  GoMap, lookup, insert, has, keys, lookup-insert, contains-keys, keys-insert-IsDistinct,
  AllEntries, AllEntries-insert,
}
use vuln4shift_backend.Prelude.Sort.{contains-sort, sort-IsDistinct, sort-IsSorted, IsSorted}
use vuln4shift_backend.Strings.Order.{str_less, str_less_asym, str_less_trans}
use vuln4shift_backend.Pyxis.Api.{
  ApiCve, ApiImage, Page, add_cves, add_images, check_image, has_bare_detail, cve_list,
  is_valid_cve, fetch_pages, page_loop, get_api_image_cves, get_api_repo_images, sort_cves,
}
use vuln4shift_backend.Pyxis.Api.Pages.{Fetched, add_all, page_loop-Fetched}

-- Whether a page names a CVE, and whether one of the pages does.
abbrev pub named : List ApiCve → Str → Bool
named [] c = false
named (cve ∷ cves) c = (cve.cve == c) || named cves c

abbrev pub named_in : List (List ApiCve) → Str → Bool
named_in [] c = false
named_in (page ∷ pages) c = named page c || named_in pages c

module _ {F : Type 0} where
  add_cves-has :
      (cves : List ApiCve) (m m' : GoMap Str (Unit {0})) (c : Str)
      → add_cves {F = F} cves m ≡ ok m'
      → has c m' ≡ (named cves c || has c m)
  unfolding add_cves
  add_cves-has [] m m' c e = ground arith
  add_cves-has (cve ∷ cves) m m' c e =
      ground (arith, add_cves-has cves (insert cve.cve tt m) m' c e, lookup-insert cve.cve c tt m)

  add_cves-IsDistinct :
      (cves : List ApiCve) (m m' : GoMap Str (Unit {0}))
      → add_cves {F = F} cves m ≡ ok m'
      → IsDistinct (keys m)
      → IsDistinct (keys m')
  unfolding add_cves
  add_cves-IsDistinct [] m m' e h = ground (arith, h)
  add_cves-IsDistinct (cve ∷ cves) m m' e h =
      add_cves-IsDistinct cves (insert cve.cve tt m) m' e (keys-insert-IsDistinct cve.cve tt m h)

module _ {W F : Type 0} where
  add_all-has :
      (fetch : Str → W → W × Result F (Page ApiCve)) (url : Str) (pages : List (List ApiCve))
      (m m' : GoMap Str (Unit {0})) (c : Str)
      → add_all fetch add_cves url pages m ≡ ok m'
      → has c m' ≡ (named_in pages c || has c m)
  unfolding add_all
  add_all-has fetch url [] m m' c e = ground arith
  add_all-has fetch url (page ∷ pages) m m' c e =
      let (m1, added, rest) = >>=-eq-ok (add_cves page m) (add_all fetch add_cves url pages) e in
      ground (arith, add_cves-has page m m1 c added, add_all-has fetch url pages m1 m' c rest)

  add_all-IsDistinct :
      (fetch : Str → W → W × Result F (Page ApiCve)) (url : Str) (pages : List (List ApiCve))
      (m m' : GoMap Str (Unit {0}))
      → add_all fetch add_cves url pages m ≡ ok m'
      → IsDistinct (keys m)
      → IsDistinct (keys m')
  unfolding add_all
  add_all-IsDistinct fetch url [] m m' e h = ground (arith, h)
  add_all-IsDistinct fetch url (page ∷ pages) m m' e h =
      let (m1, added, rest) = >>=-eq-ok (add_cves page m) (add_all fetch add_cves url pages) e in
      add_all-IsDistinct fetch url pages m1 m' rest (add_cves-IsDistinct page m m1 added h)

pub cve_list-contains :
    (m : GoMap Str (Unit {0})) (c : Str) → contains (cve_list m) c ≡ (is_valid_cve c && has c m)
unfolding cve_list
cve_list-contains m c = ground (
  arith,
  contains-sort str_less (select is_valid_cve (keys m)) c,
  contains-select is_valid_cve (keys m) c,
  contains-keys m c,
)

-- What `getAPIImageCves` gives of the pages that it read: their valid CVEs, once each and sorted.
pub record CvesOf (pages : List (List ApiCve)) (cves : List Str) : Type 0 where
  pub contains_ : (c : Str) → contains cves c ≡ (is_valid_cve c && named_in pages c)
  pub distinct : IsDistinct cves
  pub sorted : IsSorted str_less cves

cve_list-CvesOf :
    {W F : Type 0} (fetch : Str → W → W × Result F (Page ApiCve)) (url : Str)
    (pages : List (List ApiCve)) (m : GoMap Str (Unit {0}))
    → add_all fetch add_cves url pages [] ≡ ok m
    → CvesOf pages (cve_list m)
unfolding cve_list lookup
cve_list-CvesOf fetch url pages m e = record {
  contains_ = λ c. ground (arith, cve_list-contains m c, add_all-has fetch url pages [] m c e);
  distinct =
      sort-IsDistinct str_less (select is_valid_cve (keys m))
        (select-IsDistinct is_valid_cve (keys m) (add_all-IsDistinct fetch url pages [] m e tt));
  sorted = sort-IsSorted str_less str_less_asym str_less_trans (select is_valid_cve (keys m));
}

abbrev pub image_cves_url : Str → Str → Str
image_cves_url base id = base ++ codes "/images/id/" ++ id ++ codes "/vulnerabilities"

-- If the request for the CVEs of an image ends with no error, it read all the pages that the replies
-- announce, and its list holds exactly their CVEs with a valid name, once each and sorted.
pub get_api_image_cves-CvesOf :
    {W F : Type 0} (fuel : ℕ) (fetch : Str → W → W × Result F (Page ApiCve)) (base id : Str)
    (w w' : W) (cves : List Str)
    → get_api_image_cves fuel fetch base id w ≡ some (w', ok cves)
    → (pages : List (List ApiCve)) × Fetched fetch add_cves
        (image_cves_url base id)
        0
        9999
        w
        pages
        w'
      × CvesOf pages cves
unfolding get_api_image_cves fetch_pages sort_cves
get_api_image_cves-CvesOf fuel fetch base id w w' cves e =
    let url = image_cves_url base id in
    elim (Option-cases (page_loop fetch add_cves url fuel 0 9999 [] w)) [
      | inl out ↦ ground arith
      | inr ((w1, err x), got) ↦ ground arith
      | inr ((w1, ok m), got) ↦
          let (pages, fetched, all) =
            page_loop-Fetched fetch add_cves url fuel 0 9999 [] w w1 m got in
          let same : w1 ≡ w' = ground arith in
          let list : cve_list m ≡ cves = ground arith in
          (
            pages,
            subst (λ v. Fetched fetch add_cves url 0 9999 w pages v) same fetched,
            subst (CvesOf pages) list (cve_list-CvesOf fetch url pages m all),
          )
    ]

-- An image that can be stored: it has a repository, and a digest of its own or one in each of them.
pub record IsStorable (key : Str) (image : ApiImage) : Type 0 where
  pub keyed : image.pyxis_id ≡ key
  pub published : image.repositories ≢ []
  pub digested : (image.docker_image_digest == [] && has_bare_detail image.repositories) ≡ false

module _ {F : Type 0} where
  check_image-IsStorable :
      (image : ApiImage) → check_image {F = F} image ≡ none → IsStorable image.pyxis_id image
  unfolding check_image
  check_image-IsStorable image e = record {
    keyed = refl;
    published = λ empty. ground (arith, empty);
    digested = ground arith;
  }

  add_images-IsStorable :
      (images : List ApiImage) (m m' : GoMap Str ApiImage)
      → add_images {F = F} images m ≡ ok m'
      → AllEntries IsStorable m
      → AllEntries IsStorable m'
  unfolding add_images
  add_images-IsStorable [] m m' e h =
      let same : m ≡ m' = ground arith in subst (AllEntries IsStorable) same h
  add_images-IsStorable (image ∷ images) m m' e h =
      elim (Option-cases (check_image {F = F} image)) [
        | inl fine ↦
            add_images-IsStorable images (insert image.pyxis_id image m) m' (ground arith) (
              AllEntries-insert IsStorable image.pyxis_id image m
                (check_image-IsStorable image fine) h)
        | inr (x, bad) ↦ ground arith
      ]

module _ {W F : Type 0} where
  add_all-IsStorable :
      (fetch : Str → W → W × Result F (Page ApiImage)) (url : Str) (pages : List (List ApiImage))
      (m m' : GoMap Str ApiImage)
      → add_all fetch add_images url pages m ≡ ok m'
      → AllEntries IsStorable m
      → AllEntries IsStorable m'
  unfolding add_all
  add_all-IsStorable fetch url [] m m' e h =
      let same : m ≡ m' = ground arith in subst (AllEntries IsStorable) same h
  add_all-IsStorable fetch url (page ∷ pages) m m' e h =
      let (m1, added, rest) =
        >>=-eq-ok (add_images page m) (add_all fetch add_images url pages) e in
      add_all-IsStorable fetch url pages m1 m' rest (add_images-IsStorable page m m1 added h)

  -- Every image of a repository that Pyxis gives stands under its own ID, is in a repository, and
  -- has a digest of its own or one in each of its repositories.
  pub get_api_repo_images-IsStorable :
      (fuel : ℕ) (fetch : Str → W → W × Result F (Page ApiImage)) (base registry repository : Str)
      (w w' : W) (images : GoMap Str ApiImage)
      → get_api_repo_images fuel fetch base registry repository w ≡ some (w', ok images)
      → AllEntries IsStorable images
  unfolding get_api_repo_images fetch_pages lookup
  get_api_repo_images-IsStorable fuel fetch base registry repository w w' images e =
      let (pages, _, all) = page_loop-Fetched fetch add_images _ fuel 0 9999 [] w w' images e in
      add_all-IsStorable fetch _ pages [] images all tt
