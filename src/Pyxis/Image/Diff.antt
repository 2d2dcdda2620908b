-- ===== src/Pyxis/Image/Diff.antt =====
-- After its CVEs are linked an image has exactly the CVEs that Pyxis gives.
use mathlib.Core.Path.{subst}
use vuln4shift_backend.Prelude.{
  sym, ℕ, ◌≡◌, refl, inl, inr, Bool, true, false, not, ◌&&◌, ◌||◌, Option, none, some, List, [],
  ◌∷◌, arith, ◌==◌, nat_eq, nat_beq_iff, contains, IsDistinct, Str, Result, ok, err, Option-cases,
  Bool-cases,
}
use vuln4shift_backend.Prelude.GoMap.{GoMap, lookup, delete, has, values, lookup-delete, AllEntries}
use vuln4shift_backend.Models.{Cve, ImageCve}
use vuln4shift_backend.Pyxis.Cache.{Maps, Pending}
use vuln4shift_backend.Pyxis.Image.{SyncError, find_cve, split_cves, keep}

-- Whether a list of rows links a CVE to an image.
abbrev pub linked : List ImageCve → ℕ → ℕ → Bool
linked [] i c = false
linked (row ∷ rows) i c = (row.image_id == i && row.cve_id == c) || linked rows i c

-- The IDs of the CVEs of a list, where all of them are found.
abbrev pub cons_id : Option Cve → Option (List ℕ) → Option (List ℕ)
cons_id (some cve) (some ids) = some (cve.id ∷ ids)
cons_id _ _ = none

abbrev pub cve_ids : Maps → Pending → List Str → Option (List ℕ)
cve_ids m p [] = some []
cve_ids m p (name ∷ names) = cons_id (find_cve m p name) (cve_ids m p names)

-- A row of the map stands under its CVE and belongs to the image.
abbrev pub IsRowOf : ℕ → ℕ → ImageCve → Type 0
IsRowOf i c row = (row.image_id ≡ i) × (row.cve_id ≡ c)

delete-AllEntries :
    (i k : ℕ) (m : GoMap ℕ ImageCve)
    → AllEntries (IsRowOf i) m
    → AllEntries (IsRowOf i) (delete k m)
unfolding delete
delete-AllEntries i k [] h = tt
delete-AllEntries i k ((j, row) ∷ m) (h, hs) = elim (Bool-cases (j == k)) [
  | inl same ↦ ground (arith, delete-AllEntries i k m hs)
  | inr other ↦ ground (arith, delete-AllEntries i k m hs, h)
]

pub linked-values :
    (i k c : ℕ) (m : GoMap ℕ ImageCve)
    → AllEntries (IsRowOf i) m
    → linked (values m) k c ≡ (i == k && has c m)
unfolding lookup
linked-values i k c [] h = ground arith
linked-values i k c ((j, row) ∷ m) (h, hs) =
    ground (arith, linked-values i k c m hs, h, nat_beq_iff j c)

-- What a split says of the rows to insert and of those that stay in the map.
pub record SplitOf (i : ℕ) (ids : List ℕ) (current : GoMap ℕ ImageCve)
    (split : List ImageCve × GoMap ℕ ImageCve) : Type 0 where
  pub inserted :
      (k c : ℕ) → linked split.0 k c ≡ (i == k && (contains ids c && not (has c current)))
  pub kept : (c : ℕ) → has c split.1 ≡ (has c current && not (contains ids c))
  pub rows : AllEntries (IsRowOf i) split.1

SplitOf-delete :
    (i id : ℕ) (ids : List ℕ) (current : GoMap ℕ ImageCve)
    (split : List ImageCve × GoMap ℕ ImageCve)
    → contains ids id ≡ false
    → has id current ≡ true
    → SplitOf i ids (delete id current) split
    → SplitOf i (id ∷ ids) current split
SplitOf-delete i id ids current split new there h = record {
  inserted = λ k c.
      ground (arith, h.inserted k c, lookup-delete id c current, nat_beq_iff id c, new, there);
  kept = λ c. ground (arith, h.kept c, lookup-delete id c current, nat_beq_iff id c, new, there);
  rows = h.rows;
}

SplitOf-insert :
    (i id : ℕ) (ids : List ℕ) (current rest : GoMap ℕ ImageCve) (to_insert : List ImageCve)
    → contains ids id ≡ false
    → has id current ≡ false
    → SplitOf i ids current (to_insert, rest)
    → SplitOf i (id ∷ ids) current (record { image_id = i; cve_id = id } ∷ to_insert, rest)
SplitOf-insert i id ids current rest to_insert new absent h = record {
  inserted = λ k c. ground (arith, h.inserted k c, nat_beq_iff id c, new, absent);
  kept = λ c. ground (arith, h.kept c, nat_beq_iff id c, new, absent);
  rows = h.rows;
}

module _ {E F : Type 0} (maps : Maps) (p : Pending) (i : ℕ) where
  keep-eq-ok :
      (row : ImageCve) (r : Result (SyncError E F) (List ImageCve × GoMap ℕ ImageCve))
      (split : List ImageCve × GoMap ℕ ImageCve)
      → keep row r ≡ ok split
      → (to_insert : List ImageCve) × (rest : GoMap ℕ ImageCve) × (r ≡ ok (to_insert, rest))
        × ((row ∷ to_insert, rest) ≡ split)
  keep-eq-ok row (ok (to_insert, rest)) split e = (to_insert, rest, refl, ground arith)
  keep-eq-ok row (err x) split e = cc

  pub split_cves-SplitOf :
      (names : List Str) (ids : List ℕ) (current : GoMap ℕ ImageCve)
      (split : List ImageCve × GoMap ℕ ImageCve)
      → cve_ids maps p names ≡ some ids
      → IsDistinct ids
      → AllEntries (IsRowOf i) current
      → split_cves {E = E} {F = F} maps p i names current ≡ ok split
      → SplitOf i ids current split
  unfolding split_cves
  split_cves-SplitOf [] (id ∷ ids) current split found distinct rows e = ground arith
  split_cves-SplitOf [] [] current split found distinct rows e =
      let same : ([], current) ≡ split = ground arith in
      let h : SplitOf i [] current ([], current) = record {
        inserted = λ k c. ground arith;
        kept = λ c. ground arith;
        rows = rows;
      } in
      subst (SplitOf i [] current) same h
  split_cves-SplitOf (name ∷ names) ids current split found distinct rows e =
      elim (Option-cases (find_cve maps p name)) [
        | inl missing ↦ ground arith
        | inr (cve, here) ↦ elim (Option-cases (cve_ids maps p names)) [
          | inl lost ↦ ground arith
          | inr (ids', there) ↦
              let same : cve.id ∷ ids' ≡ ids = ground arith in
              let (new, others) : IsDistinct (cve.id ∷ ids') =
                subst IsDistinct (sym same) distinct in
              subst (λ l. SplitOf i l current split) same
                (elim (Bool-cases (has cve.id current)) [
                  | inl old ↦ SplitOf-delete i cve.id ids' current split new old (
                      split_cves-SplitOf names ids' (delete cve.id current) split there others
                        (delete-AllEntries i cve.id current rows) (ground arith))
                  | inr fresh ↦
                      let (to_insert, rest, eq, whole) =
                        keep-eq-ok (record { image_id = i; cve_id = cve.id }) _ split
                          (ground arith) in
                      subst (SplitOf i (cve.id ∷ ids') current) whole (
                        SplitOf-insert i cve.id ids' current rest to_insert new fresh (
                          split_cves-SplitOf names ids' current (to_insert, rest) there others rows
                            eq))
                ])
        ]
      ]
