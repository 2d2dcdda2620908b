-- ===== src/Manager/Query/Used.antt =====
-- Which filters a query uses: those that are both allowed and requested.
use vuln4shift_backend.Prelude.{
  ◌≡◌, inl, inr, ◌&&◌, Option, none, List, [], ◌∷◌, arith, Option-cases, if◌then◌else◌, Str, str_eq,
  str_beq_iff, contains, ok,
}
use vuln4shift_backend.Prelude.GoMap.{lookup, insert, has, lookup-insert}
use vuln4shift_backend.Manager.Filters.{Filter}
use vuln4shift_backend.Manager.Query.{
  Query, Args, FilterMap, apply_query, apply_from, apply_filters,
}

module _ (m : FilterMap) (args : Args) (j : Str) where
  -- The filter at `j` after `used` has been extended.
  abbrev extended : List Str → FilterMap → Option Filter
  extended ks used = if contains ks j && has j m then lookup j m else lookup j used

  apply_from-used :
      (ks : List Str) (used u : FilterMap) (tx : Query)
      → (apply_from ks m args used tx).1 ≡ ok u
      → lookup j u ≡ extended ks used
  unfolding apply_from
  apply_from-used [] used u tx h = ground arith
  apply_from-used (k ∷ ks) used u tx h = elim (Option-cases (lookup k m)) [
    | inl absent ↦ ground (arith, apply_from-used ks used u tx, str_beq_iff k j)
    | inr (f, found) ↦ ground (
      arith,
      apply_from-used ks (insert k f used) u (apply_query f args tx).0,
      lookup-insert k j f used,
      str_beq_iff k j,
    )
  ]

  -- If all filters apply, the filters used are exactly the requested ones whose name is allowed.
  pub lookup-apply_filters :
      (allowed : List Str) (u : FilterMap) (tx : Query)
      → (apply_filters tx allowed m args).1 ≡ ok u
      → lookup j u ≡ (if contains allowed j then lookup j m else none)
  unfolding apply_filters lookup
  lookup-apply_filters allowed u tx h = ground (arith, apply_from-used allowed [] u tx h)
