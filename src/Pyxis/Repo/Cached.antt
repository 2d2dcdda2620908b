-- ===== src/Pyxis/Repo/Cached.antt =====
-- Every image of a repository is known once the new ones are stored.
use vuln4shift_backend.Prelude.{
  ℕ, ◌≡◌, inl, inr, Bool, true, false, ◌&&◌, ◌||◌, Option, none, some, List, [], ◌∷◌, arith,
  is_some, ◌==◌, str_eq, nat_eq, str_beq_iff, str_beq_sound, nat_beq, Str, All, Option-cases,
  Bool-cases,
}
use vuln4shift_backend.Prelude.GoMap.{GoMap, lookup, has, AllEntries}
use vuln4shift_backend.Models.{Image}
use vuln4shift_backend.Pyxis.Api.{ApiImage, ApiImageRepoDetail}
use vuln4shift_backend.Pyxis.Cache.{Maps, Pending}
use vuln4shift_backend.Pyxis.Image.{Config}
use vuln4shift_backend.Pyxis.Image.Registered.{IsStored}
use vuln4shift_backend.Pyxis.Repo.{find_image, image_row, cons_some}

-- Whether a row to write inserts an image with a Pyxis ID.
abbrev pub has_new : List Image → Str → Bool
has_new [] k = false
has_new (row ∷ rows) k = (nat_beq row.id 0 && row.pyxis_id == k) || has_new rows k

-- Every image of the API is known, or will be inserted.
abbrev pub Covers : Maps → List Image → GoMap Str ApiImage → Type 0
Covers maps rows = AllEntries (λ k _. (has k maps.images || has_new rows k) ≡ true)

abbrev pub AllKnown : Maps → GoMap Str ApiImage → Pending → Type 0
AllKnown maps images p = AllEntries (λ k _. is_some (find_image maps p k) ≡ true) images

pub Covers-cons :
    (maps : Maps) (row : Option Image) (rows : List Image) (images : GoMap Str ApiImage)
    → Covers maps rows images
    → Covers maps (cons_some row rows) images
Covers-cons maps none rows images h = h
Covers-cons maps (some row) rows [] h = tt
Covers-cons maps (some row) rows ((k, image) ∷ images) (h, hs) =
    (ground (arith, h), Covers-cons maps (some row) rows images hs)

pub image_row-new :
    (config : Config) (maps : Maps) (rows : List Image) (k : Str) (image : ApiImage)
    (detail : ApiImageRepoDetail) (arch : ℕ)
    → image.pyxis_id ≡ k
    → (has k maps.images
        || has_new (cons_some (image_row config (lookup k maps.images) image detail arch) rows) k)
      ≡ true
unfolding image_row
image_row-new config maps rows k image detail arch e = elim (Option-cases (lookup k maps.images)) [
  | inl new ↦ ground (arith, str_beq_iff image.pyxis_id k, new, e)
  | inr (old, known) ↦ ground (arith, known)
]

has_new-IsStored :
    (rows : List Image) (p : Pending) (k : Str)
    → All (λ row. IsStored row p) rows
    → has_new rows k ≡ true
    → has k p.images_pending ≡ true
has_new-IsStored [] p k h e = cc
has_new-IsStored (row ∷ rows) p k (h, hs) e =
    elim (Bool-cases (nat_beq row.id 0 && row.pyxis_id == k)) [
      | inl here ↦ ground (arith, h, str_beq_sound row.pyxis_id k)
      | inr other ↦ has_new-IsStored rows p k hs (ground (arith, e, other))
    ]

pub Covers-AllKnown :
    (maps : Maps) (rows : List Image) (images : GoMap Str ApiImage) (p : Pending)
    → Covers maps rows images
    → All (λ row. IsStored row p) rows
    → AllKnown maps images p
Covers-AllKnown maps rows [] p h k = tt
Covers-AllKnown maps rows ((key, image) ∷ images) p (h, hs) k =
    (ground (arith, h, has_new-IsStored rows p key k), Covers-AllKnown maps rows images p hs k)
