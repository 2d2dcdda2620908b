-- ===== src/Prelude/GoMap.antt =====
-- Go's maps as association lists. `for k, v := range m` meets the entries in the order of the list,
-- which Go leaves open: theorems about a loop over a map hold for every such order.
use mathlib.Core.Path.{◌≡◌, refl}
use mathlib.Core.Logic.{inl, inr}
use mathlib.Core.Bool.{Bool, ◌||◌}
use mathlib.Core.Option.{Option, none, some}
use mathlib.Core.List.{List, [], ◌∷◌}
use native.Mathlib.Omega.{arith}
use vuln4shift_backend.Prelude.Tests.{if◌then◌else◌, Bool-cases, is_some}
use vuln4shift_backend.Prelude.Comparable.{Eq, ◌==◌, eq_sound, contains, IsDistinct}

abbrev pub GoMap : Type 0 → Type 0 → Type 0
GoMap K V = List (K × V)

module _ {K V : Type 0} ⦃e : Eq K⦄ where
  -- `v, found := m[k]`
  unfoldable pub lookup : K → GoMap K V → Option V
  lookup key [] = none
  lookup key ((other, value) ∷ rest) = if other == key then some value else lookup key rest

  -- `m[k] = v`
  unfoldable pub insert : K → V → GoMap K V → GoMap K V
  insert key value [] = (key, value) ∷ []
  insert key value ((other, old) ∷ rest) =
      if other == key then (key, value) ∷ rest else (other, old) ∷ insert key value rest

  -- `delete(m, k)`
  unfoldable pub delete : K → GoMap K V → GoMap K V
  delete k [] = []
  delete k ((j, w) ∷ m) = if j == k then delete k m else (j, w) ∷ delete k m

  -- `_, found := m[k]`
  abbrev pub has : K → GoMap K V → Bool
  has k m = is_some (lookup k m)

  -- `for k, v := range src { dst[k] = v }`
  unfoldable pub insert_all : GoMap K V → GoMap K V → GoMap K V
  insert_all [] dst = dst
  insert_all ((k, v) ∷ src) dst = insert_all src (insert k v dst)

  -- The keys in the order of iteration, and the values.
  abbrev pub keys : GoMap K V → List K
  keys [] = []
  keys ((k, v) ∷ m) = k ∷ keys m

  abbrev pub values : GoMap K V → List V
  values [] = []
  values ((k, v) ∷ m) = v ∷ values m

  pub lookup-insert :
      (key asked : K) (value : V) (m : GoMap K V)
      → lookup asked (insert key value m) ≡ (if key == asked then some value else lookup asked m)
  unfolding lookup insert
  lookup-insert key asked value [] = refl
  lookup-insert key asked value ((other, old) ∷ rest) = ground (
    arith,
    lookup-insert key asked value rest,
    e.beq_iff other asked,
    e.beq_iff other key,
    e.beq_iff key asked,
  )

  pub lookup-delete :
      (k j : K) (m : GoMap K V) → lookup j (delete k m) ≡ (if k == j then none else lookup j m)
  unfolding lookup delete
  lookup-delete k j [] = ground arith
  lookup-delete k j ((i, w) ∷ m) =
      ground (arith, e.beq_iff k j, e.beq_iff i k, e.beq_iff i j, lookup-delete k j m)

  -- The entries of a map are found under their keys.
  pub contains-keys : (m : GoMap K V) (k : K) → contains (keys m) k ≡ has k m
  unfolding lookup
  contains-keys [] k = refl
  contains-keys ((j, v) ∷ m) k = ground (arith, contains-keys m k)

pub ruleset map_laws = (lookup-insert, lookup-delete)

-- A predicate on the entries of a map, by key.
module _ {K V : Type 0} ⦃e : Eq K⦄ (P : K → V → Type 0) where
  abbrev pub Entries : GoMap K V → Type 0
  Entries m = (k : K) (v : V) → lookup k m ≡ some v → P k v

  -- The same of every place of the list.
  abbrev pub AllEntries : GoMap K V → Type 0
  AllEntries [] = Unit
  AllEntries ((k, v) ∷ m) = P k v × AllEntries m

  pub AllEntries-insert :
      (k : K) (v : V) (m : GoMap K V) → P k v → AllEntries m → AllEntries (insert k v m)
  unfolding insert
  AllEntries-insert k v [] p h = (p, tt)
  AllEntries-insert k v ((j, w) ∷ m) p (h, hs) = elim (Bool-cases (j == k)) [
    | inl same ↦ ground (arith, p, h, hs)
    | inr other ↦ ground (arith, AllEntries-insert k v m p hs, h)
  ]

  pub Entries-insert : (k : K) (v : V) (m : GoMap K V) → P k v → Entries m → Entries (insert k v m)
  Entries-insert k v m p h j w found = elim (Bool-cases (k == j)) [
    | inl same ↦ let e : k ≡ j = eq_sound k j same in ground (arith, lookup-insert k j v m, h j w)
    | inr other ↦ h j w (ground (arith, lookup-insert k j v m))
  ]

module _ {K V : Type 0} ⦃e : Eq K⦄ where
  contains-keys-insert :
      (k j : K) (v : V) (m : GoMap K V)
      → contains (keys (insert k v m)) j ≡ ((k == j) || contains (keys m) j)
  contains-keys-insert k j v m =
      ground (arith, contains-keys (insert k v m) j, contains-keys m j, lookup-insert k j v m)

  -- Keys stay distinct.
  pub keys-insert-IsDistinct :
      (k : K) (v : V) (m : GoMap K V) → IsDistinct (keys m) → IsDistinct (keys (insert k v m))
  unfolding insert
  keys-insert-IsDistinct k v [] h = (refl, tt)
  keys-insert-IsDistinct k v ((j, w) ∷ m) (h, hs) = elim (Bool-cases (j == k)) [
    | inl same ↦ let e' : j ≡ k = eq_sound j k same in ground (arith, h, hs)
    | inr other ↦ ground (
      arith,
      keys-insert-IsDistinct k v m hs,
      contains-keys-insert k j v m,
      e.beq_iff k j,
      e.beq_iff j k,
    )
  ]
