-- ===== src/Pyxis/Cache/Flush.antt =====
-- Looking up in a map after the pending rows are copied to it.
use vuln4shift_backend.Prelude.{
  ◌≡◌, refl, inl, inr, Option, none, some, [], ◌∷◌, arith, Str, str_eq, ◌==◌, eq_sound, Bool-cases,
  IsDistinct,
}
use vuln4shift_backend.Prelude.GoMap.{
  GoMap, lookup, insert, insert_all, keys, lookup-insert, contains-keys,
}

-- The value of a row in the pending map, or else in the map: how the synchronisation looks it up.
abbrev pub either_of : {A : Type 0} → Option A → Option A → Option A
either_of none o = o
either_of (some a) o = some a

pub insert_all-lookup :
    {V : Type 0} (src dst : GoMap Str V) (k : Str)
    → IsDistinct (keys src)
    → lookup k (insert_all src dst) ≡ either_of (lookup k src) (lookup k dst)
unfolding lookup insert_all
insert_all-lookup [] dst k h = refl
insert_all-lookup ((j, v) ∷ src) dst k (h, hs) = elim (Bool-cases (j == k)) [
  | inl same ↦ ground (
    arith,
    insert_all-lookup src (insert j v dst) k hs,
    lookup-insert j k v dst,
    contains-keys src j,
    eq_sound j k same,
    h,
  )
  | inr other ↦ ground (arith, insert_all-lookup src (insert j v dst) k hs, lookup-insert j k v dst)
]
