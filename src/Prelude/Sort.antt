-- ===== src/Prelude/Sort.antt =====
-- Sorting by a test, as `sort.Slice` and `sort.Strings` do: where the test is a strict total order on
-- the members, the result does not depend on the algorithm.
use mathlib.Core.Path.{◌≡◌, refl}
use mathlib.Core.Bool.{Bool, true, false, ◌||◌}
use mathlib.Core.Logic.{inl, inr}
use mathlib.Core.List.{List, [], ◌∷◌}
use native.Mathlib.Omega.{arith}
use vuln4shift_backend.Prelude.Tests.{if◌then◌else◌, Bool-cases}
use vuln4shift_backend.Prelude.Comparable.{Eq, ◌==◌, contains, IsDistinct}

module _ {A : Type 0} (less : A → A → Bool) where
  unfoldable pub insert_sorted : A → List A → List A
  insert_sorted x [] = x ∷ []
  insert_sorted x (y ∷ ys) = if less y x then y ∷ insert_sorted x ys else x ∷ y ∷ ys

  unfoldable pub sort : List A → List A
  unfolding insert_sorted
  sort [] = []
  sort (x ∷ xs) = insert_sorted x (sort xs)

module _ {A : Type 0} ⦃e : Eq A⦄ (less : A → A → Bool) where
  contains-insert_sorted :
      (x : A) (xs : List A) (a : A)
      → contains (insert_sorted less x xs) a ≡ ((x == a) || contains xs a)
  unfolding insert_sorted
  contains-insert_sorted x [] a = refl
  contains-insert_sorted x (y ∷ ys) a = ground (arith, contains-insert_sorted x ys a)

  -- Sorting keeps the members.
  pub contains-sort : (xs : List A) (a : A) → contains (sort less xs) a ≡ contains xs a
  unfolding sort
  contains-sort [] a = refl
  contains-sort (x ∷ xs) a =
      ground (arith, contains-sort xs a, contains-insert_sorted x (sort less xs) a)

  insert_sorted-IsDistinct :
      (x : A) (xs : List A)
      → contains xs x ≡ false
      → IsDistinct xs
      → IsDistinct (insert_sorted less x xs)
  unfolding insert_sorted
  insert_sorted-IsDistinct x [] n h = (refl, tt)
  insert_sorted-IsDistinct x (y ∷ ys) n (h, hs) = elim (Bool-cases (less y x)) [
    | inl before ↦ ground (
      arith,
      insert_sorted-IsDistinct x ys,
      contains-insert_sorted x ys y,
      e.beq_iff x y,
      e.beq_iff y x,
      n,
      h,
      hs,
    )
    | inr after ↦ ground (arith, n, h, hs)
  ]

  pub sort-IsDistinct : (xs : List A) → IsDistinct xs → IsDistinct (sort less xs)
  unfolding sort
  sort-IsDistinct [] h = tt
  sort-IsDistinct (x ∷ xs) (h, hs) =
      insert_sorted-IsDistinct x (sort less xs) (ground (arith, contains-sort xs x))
        (sort-IsDistinct xs hs)

-- No member of a list comes before its predecessors, for a transitive and total test.
module _ {A : Type 0} (less : A → A → Bool) where
  -- `x` is before none of the members.
  abbrev pub Leads : A → List A → Type 0
  Leads x [] = Unit
  Leads x (y ∷ ys) = (less y x ≡ false) × Leads x ys

  abbrev pub IsSorted : List A → Type 0
  IsSorted [] = Unit
  IsSorted (x ∷ xs) = Leads x xs × IsSorted xs

  module _ (asym : (a b : A) → less a b ≡ true → less b a ≡ false)
      (trans : (a b c : A) → less b a ≡ false → less c b ≡ false → less c a ≡ false) where
    Leads-trans : (x y : A) (ys : List A) → less y x ≡ false → Leads y ys → Leads x ys
    Leads-trans x y [] h hs = tt
    Leads-trans x y (z ∷ zs) h (k, ks) = (trans x y z h k, Leads-trans x y zs h ks)

    Leads-insert_sorted :
        (x y : A) (ys : List A) → less y x ≡ false → Leads x ys → Leads x (insert_sorted less y ys)
    unfolding insert_sorted
    Leads-insert_sorted x y [] h hs = (h, tt)
    Leads-insert_sorted x y (z ∷ zs) h (k, ks) =
        ground (arith, Leads-insert_sorted x y zs h ks, h, k, ks)

    insert_sorted-IsSorted :
        (x : A) (xs : List A) → IsSorted xs → IsSorted (insert_sorted less x xs)
    unfolding insert_sorted
    insert_sorted-IsSorted x [] h = (tt, tt)
    insert_sorted-IsSorted x (y ∷ ys) (h, hs) = elim (Bool-cases (less y x)) [
      | inl before ↦
          ground
            (arith, Leads-insert_sorted y x ys (asym y x before) h, insert_sorted-IsSorted x ys hs)
      | inr after ↦ ground (arith, Leads-trans x y ys after h, h, hs, after)
    ]

    -- Sorting sorts.
    pub sort-IsSorted : (xs : List A) → IsSorted (sort less xs)
    unfolding sort
    sort-IsSorted [] = tt
    sort-IsSorted (x ∷ xs) = insert_sorted-IsSorted x (sort less xs) (sort-IsSorted xs)
