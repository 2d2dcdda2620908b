-- ===== src/Vmsync/Sync/Left.antt =====
-- What the loop over the names of a reply leaves of the map of known CVEs.
use vuln4shift_backend.Prelude.{
  ℕ, ◌≡◌, refl, inl, inr, true, not, ◌&&◌, Option, none, some, List, [], ◌∷◌, map, arith, nat_eq,
  if◌then◌else◌, Bool-cases, Str, str_eq, ◌==◌, eq_sound, str_beq_iff, contains, IsDistinct,
}
use vuln4shift_backend.Prelude.GoMap.{
  GoMap, lookup, insert, delete, keys, values, lookup-delete, contains-keys, keys-insert-IsDistinct,
}
use vuln4shift_backend.Models.{Cve}
use vuln4shift_backend.Vmsync.Api.{ApiCve}
use vuln4shift_backend.Vmsync.Sync.{cve_map, forget, rows_to_sync}

-- The IDs of the rows of a map.
abbrev pub ids : GoMap Str Cve → List ℕ
ids m = map (λ cve. cve.id) (values m)

-- An ID is one of them exactly if a row under some name has it.
pub lookup-ids :
    (m : GoMap Str Cve) (n : Str) (row : Cve)
    → lookup n m ≡ some row
    → contains (ids m) row.id ≡ true
unfolding lookup
lookup-ids [] n row e = ground (arith, e)
lookup-ids ((k, v) ∷ m) n row e = ground (arith, e, lookup-ids m n row)

pub ids-lookup :
    (m : GoMap Str Cve) (i : ℕ)
    → IsDistinct (keys m)
    → contains (ids m) i ≡ true
    → (n : Str) × (row : Cve) × (lookup n m ≡ some row) × (row.id ≡ i)
unfolding lookup
ids-lookup [] i h e = ground (arith, e)
ids-lookup ((k, v) ∷ m) i (h, hs) e = elim (Bool-cases (v.id == i)) [
  | inl same ↦ (k, v, ground (arith, str_beq_iff k k), eq_sound v.id i same)
  | inr other ↦
      let (n, row, found, same) = ids-lookup m i hs (ground (arith, e, other)) in
      (n, row, ground (arith, found, h, contains-keys m n, str_beq_iff k n), same)
]

contains-keys-delete :
    (k j : Str) (m : GoMap Str Cve)
    → contains (keys (delete k m)) j ≡ (not (k == j) && contains (keys m) j)
contains-keys-delete k j m =
    ground (arith, contains-keys (delete k m) j, contains-keys m j, lookup-delete k j m)

keys-delete-IsDistinct :
    (k : Str) (m : GoMap Str Cve) → IsDistinct (keys m) → IsDistinct (keys (delete k m))
unfolding delete
keys-delete-IsDistinct k [] h = tt
keys-delete-IsDistinct k ((j, v) ∷ m) (h, hs) =
    ground (arith, keys-delete-IsDistinct k m hs, contains-keys-delete k j m, h)

module _ (parse_float : Str → Option ℕ) where
  forget-IsDistinct :
      (name : Str) (m : GoMap Str Cve)
      → IsDistinct (keys m)
      → IsDistinct (keys (forget parse_float name m))
  unfolding forget
  forget-IsDistinct name m h = ground (arith, keys-delete-IsDistinct name m h, h)

  lookup-forget :
      (name n : Str) (m : GoMap Str Cve)
      → lookup n (forget parse_float name m) ≡ (if name == n then none else lookup n m)
  unfolding forget
  lookup-forget name n m = ground (arith, lookup-delete name n m, str_beq_iff name n)

  pub left-IsDistinct :
      (names : List Str) (api : GoMap Str ApiCve) (m : GoMap Str Cve)
      → IsDistinct (keys m)
      → IsDistinct (keys (rows_to_sync parse_float names api m).1)
  unfolding rows_to_sync
  left-IsDistinct [] api m h = h
  left-IsDistinct (name ∷ names) api m h =
      left-IsDistinct names api (forget parse_float name m) (forget-IsDistinct name m h)

  pub lookup-left :
      (names : List Str) (api : GoMap Str ApiCve) (m : GoMap Str Cve) (n : Str)
      → lookup n (rows_to_sync parse_float names api m).1
        ≡ (if contains names n then none else lookup n m)
  unfolding rows_to_sync
  lookup-left [] api m n = refl
  lookup-left (name ∷ names) api m n =
      ground (arith, lookup-left names api (forget parse_float name m) n, lookup-forget name n m)

pub cve_map-IsDistinct :
    (rows : List Cve) (m : GoMap Str Cve) → IsDistinct (keys m) → IsDistinct (keys (cve_map rows m))
unfolding cve_map
cve_map-IsDistinct [] m h = h
cve_map-IsDistinct (row ∷ rows) m h =
    cve_map-IsDistinct rows (insert row.name row m) (keys-insert-IsDistinct row.name row m h)
