-- ===== src/Manager/Query/Paging.antt =====
-- How the filters set the number of rows that a query returns. What the calls of `Limit` mean is
-- gorm's: the interface `Limits` states what its documentation says of them.
use vuln4shift_backend.Prelude.{
  pos, negsuc, ℤ, ℕ, ◌≤◌, ◌≡◌, refl, ◌∙◌, inl, inr, Bool, true, false, Option, none, some, List, [],
  ◌∷◌, arith, lt→ltb, Option-rule, Option-cases, Str, str_eq, ok,
}
use vuln4shift_backend.Prelude.GoMap.{GoMap, lookup, insert}
use vuln4shift_backend.Manager.Filters.{
  Filter, SortItem, search, cve_publish_date, severity, cluster_severity, cvss_score,
  affecting_clusters, limit, offset, sort, data_format, report, provider, status, version, exploits,
  registry, search_query,
}
use vuln4shift_backend.Manager.Parsers.{InputError}
use vuln4shift_backend.Manager.FilterParser.Kinds.{InBounds}
use vuln4shift_backend.Manager.Filterer.Entries.{AllWellFormed}
use vuln4shift_backend.Manager.Query.{
  Query, Condition, where_, order, limit_, offset_, call, to_int, Arg, text, sort_args, Args,
  FilterMap, sort_filter_args, apply_search, where_any, apply_affecting, cache_columns,
  any_positive, provider_in, status_in, version_in, registry_in, sort_by_user, sort_by_default,
  apply_sort, apply_query, apply_from, apply_filters,
}

-- The limit of a query: the last one set, none after `Limit(-1)`; other calls leave it.
pub record Limits : Type 0 where
  pub limit_of : Query → Option ℕ
  pub limit-set : (tx : Query) (n : ℕ) → limit_of (call tx (limit_ (pos n))) ≡ some n
  pub limit-cancel : (tx : Query) → limit_of (call tx (limit_ (negsuc 0))) ≡ none
  pub limit-where : (tx : Query) (c : Condition) → limit_of (call tx (where_ c)) ≡ limit_of tx
  pub limit-order :
      (tx : Query) (col : Str) (desc : Bool) → limit_of (call tx (order col desc)) ≡ limit_of tx
  pub limit-offset : (tx : Query) (i : ℤ) → limit_of (call tx (offset_ i)) ≡ limit_of tx

-- What a filter makes of the limit.
abbrev pub limit_after : Filter → Option ℕ → Option ℕ
limit_after (limit _ n) o = some n
limit_after (report _ true) o = none
limit_after _ o = o

-- What the filters of a list of names make of it, one after the other.
abbrev pub limit_after_all : List Str → FilterMap → Option ℕ → Option ℕ
limit_after_all [] m o = o
limit_after_all (k ∷ ks) m o = elim (lookup k m) [
  | none ↦ limit_after_all ks m o
  | some f ↦ limit_after_all ks m (limit_after f o)
]

module _ (g : Limits) where
  open g use {limit_of, limit-set, limit-cancel, limit-where, limit-order, limit-offset}

  -- `tx` and `tx'` have one limit.
  abbrev Same : Query → Query → Type 0
  Same tx tx' = limit_of tx' ≡ limit_of tx

  sort_by_user-Same :
      (cols : GoMap Str Str) (items : List SortItem) (tx : Query)
      → Same tx (sort_by_user cols items tx).0
  unfolding sort_by_user
  sort_by_user-Same cols [] tx = refl
  sort_by_user-Same cols (item ∷ items) tx =
      Option-rule (λ (r : Query × Option InputError). Same tx r.0) (lookup item.column cols) _ _
        (λ _. refl)
        λ col _.
          sort_by_user-Same cols items (call tx (order col item.desc))
          ∙ limit-order tx col item.desc

  sort_by_default-Same :
      (cols : GoMap Str Str) (items : List SortItem) (tx : Query)
      → Same tx (sort_by_default cols items tx)
  unfolding sort_by_default
  sort_by_default-Same cols [] tx = refl
  sort_by_default-Same cols (item ∷ items) tx =
      Option-rule (Same tx) (lookup item.column cols) _ _ (λ _. sort_by_default-Same cols items tx)
        λ col _.
          sort_by_default-Same cols items (call tx (order col item.desc))
          ∙ limit-order tx col item.desc

  apply_sort-Same :
      (arg : Option Arg) (items : List SortItem) (tx : Query) → Same tx (apply_sort arg items tx).0
  unfolding apply_sort
  apply_sort-Same none items tx = refl
  apply_sort-Same (some (text _)) items tx = refl
  apply_sort-Same (some (sort_args a)) items tx =
      Option-rule (λ (r : Query × Option InputError). Same tx r.0)
        (sort_by_user a.sortable_columns items tx).1 _ _
        (λ _.
          sort_by_default-Same a.sortable_columns a.default_sortable _
          ∙ sort_by_user-Same a.sortable_columns items tx)
        (λ _ _. sort_by_user-Same a.sortable_columns items tx)

  apply_search-Same :
      (arg : Option Arg) (value : Str) (tx : Query) → Same tx (apply_search arg value tx)
  unfolding apply_search
  apply_search-Same none value tx = refl
  apply_search-Same (some (sort_args _)) value tx = refl
  apply_search-Same (some (text kind)) value tx = grind (arith, limit-where)

  where_any-Same :
      {A : Type 0} (make : List A → Condition) (xs : List A) (tx : Query)
      → Same tx (where_any make xs tx)
  where_any-Same make [] tx = refl
  where_any-Same make (x ∷ xs) tx = limit-where tx (make (x ∷ xs))

  apply_affecting-Same : (b c : Bool) (tx : Query) → Same tx (apply_affecting b c tx)
  unfolding apply_affecting
  apply_affecting-Same true true tx = refl
  apply_affecting-Same false false tx = refl
  apply_affecting-Same false true tx = limit-where _ _ ∙ limit-where tx _
  apply_affecting-Same true false tx = limit-where _ _ ∙ limit-where tx _

  to_int-limit : (tx : Query) (n : ℕ) → n ≤ 100 → limit_of (call tx (limit_ (to_int n))) ≡ some n
  unfolding to_int
  to_int-limit tx n h = rw (lt→ltb n 9223372036854775808 (omega arith)) (limit-set tx n)

  apply_query-limit :
      (f : Filter) (args : Args) (tx : Query)
      → InBounds f
      → limit_of (apply_query f args tx).0 ≡ limit_after f (limit_of tx)
  unfolding apply_query
  apply_query-limit (search _ value) args tx h =
      apply_search-Same (lookup search_query args) value tx
  apply_query-limit (cve_publish_date _ from to) args tx h = limit-where tx _
  apply_query-limit (severity _ value) args tx h = limit-where tx _
  apply_query-limit (cluster_severity _ value) args tx h =
      where_any-Same any_positive (cache_columns value) tx
  apply_query-limit (cvss_score _ from to) args tx h = limit-where tx _
  apply_query-limit (affecting_clusters _ b c) args tx h = apply_affecting-Same b c tx
  apply_query-limit (limit _ n) args tx h = to_int-limit tx n h
  apply_query-limit (offset _ n) args tx h = limit-offset tx (to_int n)
  apply_query-limit (sort _ items) args tx h =
      apply_sort-Same (lookup sort_filter_args args) items tx
  apply_query-limit (data_format _ _) args tx h = refl
  apply_query-limit (report _ true) args tx h = limit-offset _ _ ∙ limit-cancel tx
  apply_query-limit (report _ false) args tx h = refl
  apply_query-limit (provider _ vs) args tx h = where_any-Same provider_in vs tx
  apply_query-limit (status _ vs) args tx h = where_any-Same status_in vs tx
  apply_query-limit (version _ vs) args tx h = where_any-Same version_in vs tx
  apply_query-limit (exploits _ b) args tx h = limit-where tx _
  apply_query-limit (registry _ vs) args tx h = where_any-Same registry_in vs tx

  apply_from-limit :
      (ks : List Str) (m : FilterMap) (args : Args) (used u : FilterMap) (tx : Query)
      → AllWellFormed m
      → (apply_from ks m args used tx).1 ≡ ok u
      → limit_of (apply_from ks m args used tx).0 ≡ limit_after_all ks m (limit_of tx)
  unfolding apply_from
  apply_from-limit [] m args used u tx w e = refl
  apply_from-limit (k ∷ ks) m args used u tx w e = elim (Option-cases (lookup k m)) [
    | inl absent ↦ ground (arith, apply_from-limit ks m args used u tx w)
    | inr (f, found) ↦ ground (
      arith,
      apply_query-limit f args tx (w k f found).bounded,
      apply_from-limit ks m args (insert k f used) u (apply_query f args tx).0 w,
    )
  ]

  -- Filters that are all applied change the limit as their effects say, in the order of the names.
  pub apply_filters-limit :
      (tx : Query) (ks : List Str) (m : FilterMap) (args : Args) (u : FilterMap)
      → AllWellFormed m
      → (apply_filters tx ks m args).1 ≡ ok u
      → limit_of (apply_filters tx ks m args).0 ≡ limit_after_all ks m (limit_of tx)
  unfolding apply_filters
  apply_filters-limit tx ks m args u w e = apply_from-limit ks m args [] u tx w e
