-- ===== src/Pyxis/Tags.antt =====
-- The tags of an image (`extractTags`, `compareSlices`, `checkTags` and `checkVersion` of
-- pyxis/pyxis.go) and their order (`SortTags` of base/utils/gorm.go). The JSON encoder and decoder
-- are parameters.
pub mod Version
use vuln4shift_backend.Prelude.{
  Bool, true, false, not, ◌&&◌, ◌||◌, Option, none, some, List, [], ◌∷◌, map, nat_beq, ltb,
  if◌then◌else◌, length, Str, codes, str_eq, ◌==◌, ℕ,
}
use vuln4shift_backend.Prelude.GoMap.{GoMap, insert, keys}
use vuln4shift_backend.Prelude.Sort.{sort}
use vuln4shift_backend.Strings.Order.{str_less}
use vuln4shift_backend.Models.{RepositoryImage}
use vuln4shift_backend.Pyxis.Api.{ApiImage, ApiImageRepoDetail, ApiImageRepoTag}

-- A key of `lowPrioTags`.
unfoldable pub is_low_prio : Str → Bool
is_low_prio tag = tag == codes "latest"

-- The comparison of `SortTags`.
unfoldable pub tag_less : Str → Str → Bool
unfolding is_low_prio
tag_less a b =
    if is_low_prio a
    then false
    else if is_low_prio b
    then true
    else if nat_beq (length a) (length b)
    then str_less a b
    else ltb (length b) (length a)

unfoldable pub sort_tags : List Str → List Str
unfolding tag_less
sort_tags = sort tag_less

add_tags : List ApiImageRepoTag → GoMap Str Bool → GoMap Str Bool
add_tags [] m = m
add_tags (tag ∷ tags) m = add_tags tags (insert tag.name true m)

unfoldable pub tag_set : List ApiImageRepoDetail → GoMap Str Bool → GoMap Str Bool
unfolding add_tags
tag_set [] m = m
tag_set (detail ∷ details) m = tag_set details (add_tags detail.tags m)

abbrev pub first_tag : List Str → Option Str
first_tag [] = none
first_tag (tag ∷ tags) = some tag

-- The sorted tags of an image, and the first of them.
unfoldable pub image_tags : ApiImage → List Str
unfolding tag_set sort_tags
image_tags image = sort_tags (keys (tag_set image.repositories []))

-- A `pgtype.JSONB`: its text, and whether its status is `Present`.
pub record Jsonb : Type 0 where
  pub bytes : Str
  pub present : Bool

unfoldable pub new_repo_image : ℕ → ℕ → Jsonb → Option Str → RepositoryImage
new_repo_image repo_id img_id tags displayed_version = record {
  repository_id = repo_id;
  image_id = img_id;
  tags = some tags.bytes;
  version = displayed_version;
}

unfoldable pub compare_slices : List Str → List Str → Bool
compare_slices [] [] = true
compare_slices (a ∷ as_) (b ∷ bs) = a == b && compare_slices as_ bs
compare_slices _ _ = false

unfoldable pub check_version : RepositoryImage → Option Str → Bool
check_version image displayed_version = elim image.version [
  | none ↦ true
  | some v ↦ elim displayed_version [ none ↦ true | some d ↦ not (v == d) ]
]

module _ (marshal : List Str → Str) (unmarshal : Str → Option (List Str)) where
  unfoldable pub extract_tags : ApiImage → Jsonb × Option Str
  unfolding image_tags
  extract_tags image =
      let tags = image_tags image in
      (record { bytes = marshal tags; present = true }, first_tag tags)

  unfoldable pub check_tags : RepositoryImage → Jsonb → Bool
  unfolding compare_slices
  check_tags image tags_api = if not tags_api.present then false else elim image.tags [
    | none ↦ true
    | some old ↦ elim (unmarshal old) [
      | none ↦ true
      | some tags_a ↦ elim (unmarshal tags_api.bytes) [
        | none ↦ false
        | some tags_b ↦ not (compare_slices tags_a tags_b)
      ]
    ]
  ]

  -- Whether the row of a repository's image is updated.
  unfoldable pub needs_update : RepositoryImage → Jsonb → Option Str → Bool
  unfolding check_tags check_version
  needs_update image tags displayed_version =
      check_tags image tags || check_version image displayed_version
