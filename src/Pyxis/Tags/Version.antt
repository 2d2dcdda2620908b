-- ===== src/Pyxis/Tags/Version.antt =====
-- Which tag is displayed as an image's version, and when a row is updated.
use mathlib.Core.Path.{subst}
use vuln4shift_backend.Prelude.{
  Option-cases, ℕ, ◌≡◌, refl, inl, inr, Bool, true, false, not, ◌||◌, Option, some, List, [], ◌∷◌,
  arith, Str, codes, str_eq, str_beq_sound, ◌==◌, eq_refl, contains, is_some, Bool-cases,
}
use vuln4shift_backend.Prelude.GoMap.{
  GoMap, lookup, insert, has, keys, lookup-insert, contains-keys,
}
use vuln4shift_backend.Prelude.Sort.{contains-sort, sort-IsSorted, IsSorted, Leads}
use vuln4shift_backend.Strings.Order.{str_less_asym, str_less_trans}
use vuln4shift_backend.Pyxis.Api.{ApiImage, ApiImageRepoDetail, ApiImageRepoTag}
use vuln4shift_backend.Pyxis.Tags.{
  is_low_prio, tag_less, sort_tags, add_tags, tag_set, first_tag, image_tags, new_repo_image,
  compare_slices, check_version, extract_tags, check_tags, needs_update,
}

tag_less_asym : (a b : Str) → tag_less a b ≡ true → tag_less b a ≡ false
unfolding tag_less
tag_less_asym a b h = ground (arith, str_less_asym a b)

tag_less_trans : (a b c : Str) → tag_less b a ≡ false → tag_less c b ≡ false → tag_less c a ≡ false
unfolding tag_less
tag_less_trans a b c h k = ground (arith, str_less_trans a b c, h, k)

-- Whether one of the repositories of an image has a tag.
abbrev pub tagged : List ApiImageRepoTag → Str → Bool
tagged [] t = false
tagged (tag ∷ tags) t = (tag.name == t) || tagged tags t

abbrev pub tagged_in : List ApiImageRepoDetail → Str → Bool
tagged_in [] t = false
tagged_in (detail ∷ details) t = tagged detail.tags t || tagged_in details t

add_tags-has :
    (tags : List ApiImageRepoTag) (m : GoMap Str Bool) (t : Str)
    → has t (add_tags tags m) ≡ (tagged tags t || has t m)
unfolding add_tags
add_tags-has [] m t = refl
add_tags-has (tag ∷ tags) m t =
    ground (arith, add_tags-has tags (insert tag.name true m) t, lookup-insert tag.name t true m)

tag_set-has :
    (details : List ApiImageRepoDetail) (m : GoMap Str Bool) (t : Str)
    → has t (tag_set details m) ≡ (tagged_in details t || has t m)
unfolding tag_set
tag_set-has [] m t = refl
tag_set-has (detail ∷ details) m t =
    ground (arith, tag_set-has details (add_tags detail.tags m) t, add_tags-has detail.tags m t)

image_tags-contains :
    (image : ApiImage) (t : Str) → contains (image_tags image) t ≡ tagged_in image.repositories t
unfolding image_tags sort_tags lookup
image_tags-contains image t =
    let m = tag_set image.repositories [] in
    ground (
      arith,
      contains-sort tag_less (keys m) t,
      contains-keys m t,
      tag_set-has image.repositories [] t,
    )

Leads-contains :
    (x : Str) (xs : List Str) (t : Str)
    → Leads tag_less x xs
    → contains xs t ≡ true
    → tag_less t x ≡ false
Leads-contains x [] t h c = cc
Leads-contains x (y ∷ ys) t (h, hs) c = elim (Bool-cases (y == t)) [
  | inl same ↦ ground (arith, str_beq_sound y t, h)
  | inr other ↦ Leads-contains x ys t hs (ground arith)
]

tag_less_irrefl : (a : Str) → tag_less a a ≡ false
tag_less_irrefl a = elim (Bool-cases (tag_less a a)) [ inl h ↦ tag_less_asym a a h | inr h ↦ h ]

-- No tag of a sorted list comes before the first one.
first_tag-least :
    (xs : List Str) (v t : Str)
    → IsSorted tag_less xs
    → first_tag xs ≡ some v
    → contains xs t ≡ true
    → (contains xs v ≡ true) × (tag_less t v ≡ false)
first_tag-least [] v t h e c = ground arith
first_tag-least (x ∷ xs) v t (h, hs) e c =
    let same : x ≡ v = ground arith in
    let before : tag_less t x ≡ false = elim (Bool-cases (x == t)) [
      | inl here ↦ ground (arith, str_beq_sound x t here, tag_less_irrefl x)
      | inr other ↦ Leads-contains x xs t h (ground arith)
    ] in
    (ground (arith, same, eq_refl v), subst (λ a. tag_less t a ≡ false) same before)

image_tags-IsSorted : (image : ApiImage) → IsSorted tag_less (image_tags image)
unfolding image_tags sort_tags
image_tags-IsSorted image =
    sort-IsSorted tag_less tag_less_asym tag_less_trans (keys (tag_set image.repositories []))

compare_slices_refl : (xs : List Str) → compare_slices xs xs ≡ true
unfolding compare_slices
compare_slices_refl [] = refl
compare_slices_refl (x ∷ xs) = ground (arith, eq_refl x, compare_slices_refl xs)

module _ (marshal : List Str → Str) (unmarshal : Str → Option (List Str)) where
  -- If an image has a displayed version, no tag of its repositories comes before it in the order of
  -- SortTags.
  pub extract_tags-version :
      (image : ApiImage) (v t : Str)
      → (extract_tags marshal unmarshal image).1 ≡ some v
      → tagged_in image.repositories t ≡ true
      → (tagged_in image.repositories v ≡ true) × (tag_less t v ≡ false)
  unfolding extract_tags
  extract_tags-version image v t e h =
      let (there, least) =
        first_tag-least (image_tags image) v t (image_tags-IsSorted image) e
          (ground (arith, image_tags-contains image t, h)) in
      (ground (arith, there, image_tags-contains image v), least)

  -- An image displays the version "latest" only if it has no other tag.
  pub extract_tags-latest :
      (image : ApiImage) (t : Str)
      → (extract_tags marshal unmarshal image).1 ≡ some (codes "latest")
      → tagged_in image.repositories t ≡ true
      → t ≡ codes "latest"
  unfolding tag_less is_low_prio
  extract_tags-latest image t e h =
      let (there, least) = extract_tags-version image (codes "latest") t e h in
      str_beq_sound t (codes "latest") (ground (arith, least, eq_refl (codes "latest")))

  -- If the decoder reads back what the encoder wrote, a row written from an image is updated again
  -- from the same image exactly when the image has no tags.
  pub needs_update-new_repo_image :
      ((tags : List Str) → unmarshal (marshal tags) ≡ some tags)
      → (image : ApiImage) (repo_id image_id : ℕ)
      → let (tags, version) = extract_tags marshal unmarshal image in
        needs_update marshal unmarshal (new_repo_image repo_id image_id tags version) tags version
        ≡ not (is_some version)
  unfolding needs_update check_tags check_version new_repo_image extract_tags
  needs_update-new_repo_image round image repo_id image_id =
      let tags = image_tags image in
      elim (Option-cases (first_tag tags)) [
        | inl none_ ↦ ground (arith, round tags, compare_slices_refl tags)
        | inr (v, some_) ↦ ground (arith, round tags, compare_slices_refl tags, eq_refl v)
      ]
