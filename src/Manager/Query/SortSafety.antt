-- ===== src/Manager/Query/SortSafety.antt =====
-- No text of the user reaches an ORDER BY: every column that a query is ordered by is one of the
-- expressions that the controller lists.
use vuln4shift_backend.Prelude.{
  negsuc, ◌≡◌, Bool, true, false, Option, none, some, List, [], ◌∷◌, arith, Option-rule, All,
  All-append, Result, Str, str_eq, eq_refl, contains, if◌then◌else◌,
}
use vuln4shift_backend.Prelude.GoMap.{GoMap, lookup, insert, values}
use vuln4shift_backend.Manager.Filters.{
  Filter, SortItem, search, cve_publish_date, severity, cluster_severity, cvss_score,
  affecting_clusters, limit, offset, sort, data_format, report, provider, status, version, exploits,
  registry, search_query,
}
use vuln4shift_backend.Manager.Parsers.{InputError}
use vuln4shift_backend.Manager.Query.{
  like, to_int, cve_ilike, cluster_ilike, image_ilike, exposed_eq_zero, exposed_ne_zero,
  exposed_gt_zero, provider_in, any_positive, status_in, version_in, registry_in, Query, Call,
  Condition, where_, order, limit_, offset_, call, Arg, text, sort_args, SortArgs, Args, FilterMap,
  sort_filter_args, apply_search, where_any, apply_affecting, cache_columns, sort_by_user,
  sort_by_default, apply_sort, apply_query, apply_from, apply_filters,
}

module _ (columns : GoMap Str Str) where
  abbrev pub SafeCall : Call → Type 0
  SafeCall (order col desc) = contains (values columns) col ≡ true
  SafeCall _ = Unit

  abbrev pub IsSafe : Query → Type 0
  IsSafe = All SafeCall

  call-IsSafe : (tx : Query) (c : Call) → IsSafe tx → SafeCall c → IsSafe (call tx c)
  call-IsSafe tx c h s = All-append SafeCall tx (c ∷ []) h (s, tt)

lookup-contains :
    (m : GoMap Str Str) (k v : Str) → lookup k m ≡ some v → contains (values m) v ≡ true
unfolding lookup
lookup-contains [] k v e = cc
lookup-contains ((j, w) ∷ m) k v e = ground (arith, lookup-contains m k v, eq_refl v)

module _ (a : SortArgs) where
  abbrev Safe : Query → Type 0
  Safe = IsSafe a.sortable_columns

  call_known :
      (item : SortItem) (col : Str) (tx : Query)
      → Safe tx
      → lookup item.column a.sortable_columns ≡ some col
      → Safe (call tx (order col item.desc))
  call_known item col tx h e =
      call-IsSafe a.sortable_columns tx (order col item.desc) h
        (lookup-contains a.sortable_columns item.column col e)

  sort_by_user-IsSafe :
      (items : List SortItem) (tx : Query)
      → Safe tx
      → Safe (sort_by_user a.sortable_columns items tx).0
  unfolding sort_by_user
  sort_by_user-IsSafe [] tx h = h
  sort_by_user-IsSafe (item ∷ items) tx h =
      Option-rule (λ (r : Query × Option InputError). Safe r.0)
        (lookup item.column a.sortable_columns) _ _ (λ _. h)
        λ col e.
          sort_by_user-IsSafe items (call tx (order col item.desc)) (call_known item col tx h e)

  sort_by_default-IsSafe :
      (items : List SortItem) (tx : Query)
      → Safe tx
      → Safe (sort_by_default a.sortable_columns items tx)
  unfolding sort_by_default
  sort_by_default-IsSafe [] tx h = h
  sort_by_default-IsSafe (item ∷ items) tx h =
      Option-rule Safe (lookup item.column a.sortable_columns) _ _
        (λ _. sort_by_default-IsSafe items tx h)
        λ col e.
          sort_by_default-IsSafe items (call tx (order col item.desc)) (call_known item col tx h e)

  where_any-IsSafe :
      {A : Type 0} (make : List A → Condition) (xs : List A) (tx : Query)
      → Safe tx
      → Safe (where_any make xs tx)
  where_any-IsSafe make [] tx h = h
  where_any-IsSafe make (x ∷ xs) tx h =
      call-IsSafe a.sortable_columns tx (where_ (make (x ∷ xs))) h tt

  module _ (tx : Query) (h : Safe tx) where
    call_where : (c : Condition) → Safe (call tx (where_ c))
    call_where c = call-IsSafe a.sortable_columns tx (where_ c) h tt

    search-IsSafe : (arg : Option Arg) (value : Str) → Safe (apply_search arg value tx)
    unfolding apply_search
    search-IsSafe none value = h
    search-IsSafe (some (sort_args _)) value = h
    search-IsSafe (some (text kind)) value = ground (
      arith,
      call_where (cve_ilike (like value)),
      call_where (cluster_ilike (like value)),
      call_where (image_ilike (like value)),
    )

    affecting-IsSafe : (b c : Bool) → Safe (apply_affecting b c tx)
    unfolding apply_affecting
    affecting-IsSafe true true = h
    affecting-IsSafe false false = h
    affecting-IsSafe false true =
        call-IsSafe a.sortable_columns _ (where_ exposed_eq_zero) (call_where exposed_eq_zero) tt
    affecting-IsSafe true false =
        call-IsSafe a.sortable_columns _ (where_ exposed_gt_zero) (call_where exposed_ne_zero) tt

    sort-IsSafe : (items : List SortItem) → Safe (apply_sort (some (sort_args a)) items tx).0
    unfolding apply_sort
    sort-IsSafe items =
        Option-rule (λ (r : Query × Option InputError). Safe r.0)
          (sort_by_user a.sortable_columns items tx).1 _ _
          (λ _. sort_by_default-IsSafe a.default_sortable _ (sort_by_user-IsSafe items tx h))
          (λ _ _. sort_by_user-IsSafe items tx h)

    report-IsSafe :
        (b : Bool)
        → Safe (if b then call (call tx (limit_ (negsuc 0))) (offset_ (negsuc 0)) else tx)
    report-IsSafe true =
        call-IsSafe a.sortable_columns _ (offset_ (negsuc 0))
          (call-IsSafe a.sortable_columns tx (limit_ (negsuc 0)) h tt) tt
    report-IsSafe false = h

    apply_query-IsSafe :
        (f : Filter) (args : Args)
        → lookup sort_filter_args args ≡ some (sort_args a)
        → Safe (apply_query f args tx).0
    unfolding apply_query
    apply_query-IsSafe (search _ value) args e = search-IsSafe (lookup search_query args) value
    apply_query-IsSafe (cve_publish_date _ from to) args e = call_where _
    apply_query-IsSafe (severity _ value) args e = call_where _
    apply_query-IsSafe (cluster_severity _ value) args e =
        where_any-IsSafe any_positive (cache_columns value) tx h
    apply_query-IsSafe (cvss_score _ from to) args e = call_where _
    apply_query-IsSafe (affecting_clusters _ b c) args e = affecting-IsSafe b c
    apply_query-IsSafe (limit _ n) args e =
        call-IsSafe a.sortable_columns tx (limit_ (to_int n)) h tt
    apply_query-IsSafe (offset _ n) args e =
        call-IsSafe a.sortable_columns tx (offset_ (to_int n)) h tt
    apply_query-IsSafe (sort _ vs) args e = rw e (sort-IsSafe vs)
    apply_query-IsSafe (data_format _ _) args e = h
    apply_query-IsSafe (report _ b) args e = report-IsSafe b
    apply_query-IsSafe (provider _ vs) args e = where_any-IsSafe provider_in vs tx h
    apply_query-IsSafe (status _ vs) args e = where_any-IsSafe status_in vs tx h
    apply_query-IsSafe (version _ vs) args e = where_any-IsSafe version_in vs tx h
    apply_query-IsSafe (exploits _ b) args e = call_where _
    apply_query-IsSafe (registry _ vs) args e = where_any-IsSafe registry_in vs tx h

  module _ (requested : FilterMap) (args : Args)
      (listed : lookup sort_filter_args args ≡ some (sort_args a)) where
    apply_from-IsSafe :
        (allowed : List Str) (used : FilterMap) (tx : Query)
        → Safe tx
        → Safe (apply_from allowed requested args used tx).0
    unfolding apply_from
    apply_from-IsSafe [] used tx h = h
    apply_from-IsSafe (k ∷ ks) used tx h =
        Option-rule (λ (r : Query × Result InputError FilterMap). Safe r.0) (lookup k requested) _ _
          (λ _. apply_from-IsSafe ks used tx h)
          λ f _.
            Option-rule (λ (r : Query × Result InputError FilterMap). Safe r.0)
              (apply_query f args tx).1 _ _
              (λ _.
                apply_from-IsSafe ks (insert k f used) (apply_query f args tx).0
                  (apply_query-IsSafe tx h f args listed))
              (λ _ _. apply_query-IsSafe tx h f args listed)

    -- Whatever filters are requested, each ORDER BY of the filtered query is on a listed expression,
    -- also when a filter fails, if the query before was so.
    pub apply_filters-IsSafe :
        (tx : Query) (allowed : List Str)
        → IsSafe a.sortable_columns tx
        → IsSafe a.sortable_columns (apply_filters tx allowed requested args).0
    unfolding apply_filters
    apply_filters-IsSafe tx allowed h = apply_from-IsSafe allowed [] tx h
