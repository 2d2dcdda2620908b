-- ===== src/Manager/Query.antt =====
-- What the filters do to a query (manager/base/filters.go, `ApplyQuery` and `ApplyFilters`). A
-- `*gorm.DB` under construction is the sequence of the builder calls made on it.
pub mod SortSafety
pub mod Paging
pub mod Used
pub mod Order
pub mod Exposure
use vuln4shift_backend.Prelude.{
  ℕ, ℤ, pos, negsuc, ◌-◌, ◌+◌, Bool, true, false, not, Option, none, some, List, [], ◌∷◌, ◌++◌, ltb,
  if◌then◌else◌, Str, codes, ◌==◌, str_eq, Result, ok, err,
}
use vuln4shift_backend.Prelude.GoMap.{GoMap, lookup, insert}
use vuln4shift_backend.Strings.{Date}
use vuln4shift_backend.Models.{Severity, low, moderate, important, critical}
use vuln4shift_backend.Manager.Filters.{
  Filter, SortItem, search, cve_publish_date, severity, cluster_severity, cvss_score,
  affecting_clusters, limit, offset, sort, data_format, report, provider, status, version, exploits,
  registry, search_query,
}
use vuln4shift_backend.Manager.Parsers.{InputError, invalid_sort_column}

-- `int(v)` at a `uint64`, which wraps.
unfoldable pub to_int : ℕ → ℤ
to_int v = if ltb v 9223372036854775808 then pos v else negsuc (18446744073709551616 - (v + 1))

-- The columns of the severities that a cluster counts.
pub data CacheColumn : Type 0 where
  cve_cache_critical cve_cache_important cve_cache_moderate cve_cache_low : CacheColumn

-- The argument of `tx.Where`, one constructor for each text of SQL in the source.
pub data Condition : Type 0 where
  -- cve.name ILIKE ? OR cve.description ILIKE ?
  cve_ilike : Str → Condition
  -- cluster.display_name ILIKE ? OR cluster.uuid::varchar ILIKE ?
  cluster_ilike : Str → Condition
  -- CONCAT(repository.registry, '/', repository.repository, ':', repository_image.version) ILIKE ?
  image_ilike : Str → Condition
  -- cve.public_date >= ? AND cve.public_date <= ?
  public_date_between : Date → Date → Condition
  -- cve.severity IN ?
  severity_in : List Severity → Condition
  -- cluster.cve_cache_critical > 0 OR ...
  any_positive : List CacheColumn → Condition
  -- GREATEST(cve.cvss3_score, cve.cvss2_score) >= ? AND GREATEST(...) <= ?
  score_between : ℕ → ℕ → Condition
  -- COALESCE(ce, 0) = 0, COALESCE(ce, 0) != 0, COALESCE(ce, 0) > 0
  exposed_eq_zero exposed_ne_zero exposed_gt_zero : Condition
  -- COALESCE(cluster.provider, 'N/A') IN ?
  provider_in : List Str → Condition
  -- cluster.status IN ?
  status_in : List Str → Condition
  -- cluster.version IN ?
  version_in : List Str → Condition
  -- cve.exploit_data IS NOT NULL, cve.exploit_data IS NULL
  exploit_not_null exploit_null : Condition
  -- repository.registry IN ?
  registry_in : List Str → Condition

-- A call of the query builder: `Where`, `Order` with NULLS LAST, `Limit` and `Offset`.
pub data Call : Type 0 where
  where_ : Condition → Call
  order : Str → Bool → Call
  limit_ : ℤ → Call
  offset_ : ℤ → Call

abbrev pub Query : Type 0
Query = List Call

-- `SortArgs`, and the values of the map of arguments that a controller passes.
pub record SortArgs : Type 0 where
  pub sortable_columns : GoMap Str Str
  pub default_sortable : List SortItem

pub data Arg : Type 0 where
  text : Str → Arg
  sort_args : SortArgs → Arg

abbrev pub Args : Type 0
Args = GoMap Str Arg

abbrev pub sort_filter_args : Str
sort_filter_args = codes "sort_filter"

abbrev pub cve_search : Str
cve_search = codes "CveSearch"

abbrev pub exposed_clusters_search : Str
exposed_clusters_search = codes "ExposedClustersSearch"

abbrev pub images_search : Str
images_search = codes "ImagesSearch"

-- `tx` behind one more call.
abbrev pub call : Query → Call → Query
call tx c = tx ++ c ∷ []

-- `%value%`
abbrev pub like : Str → Str
like value = b'%' ∷ (value ++ b'%' ∷ [])

search_by : Str → Str → Query → Query
search_by kind value tx =
    if kind == cve_search
    then call tx (where_ (cve_ilike (like value)))
    else if kind == exposed_clusters_search
    then call tx (where_ (cluster_ilike (like value)))
    else if kind == images_search
    then call tx (where_ (image_ilike (like value)))
    else tx

-- The `switch` on `args[SearchQuery]`: what is no text equals none of its cases.
apply_search : Option Arg → Str → Query → Query
unfolding search_by
apply_search none value tx = tx
apply_search (some (sort_args _)) value tx = tx
apply_search (some (text kind)) value tx = search_by kind value tx

cache_column : Severity → Option CacheColumn
cache_column s =
    if s == critical
    then some cve_cache_critical
    else if s == important
    then some cve_cache_important
    else if s == moderate
    then some cve_cache_moderate
    else if s == low
    then some cve_cache_low
    else none

unfoldable pub cache_columns : List Severity → List CacheColumn
unfolding cache_column
cache_columns [] = []
cache_columns (s ∷ ss) = elim (cache_column s) [
  | none ↦ cache_columns ss
  | some c ↦ c ∷ cache_columns ss
]

-- A condition on a list, left out when the list is empty.
abbrev pub where_any : {A : Type 0} → (List A → Condition) → List A → Query → Query
where_any make [] tx = tx
where_any make (x ∷ xs) tx = call tx (where_ (make (x ∷ xs)))

apply_affecting : Bool → Bool → Query → Query
apply_affecting true true tx = tx
apply_affecting false false tx = tx
apply_affecting false true tx = call (call tx (where_ exposed_eq_zero)) (where_ exposed_eq_zero)
apply_affecting true false tx = call (call tx (where_ exposed_ne_zero)) (where_ exposed_gt_zero)

-- The loop over the columns that the user selected, which stops at an unknown one.
sort_by_user : GoMap Str Str → List SortItem → Query → Query × Option InputError
sort_by_user columns [] tx = (tx, none)
sort_by_user columns (item ∷ items) tx = elim (lookup item.column columns) [
  | none ↦ (tx, some invalid_sort_column)
  | some col ↦ sort_by_user columns items (call tx (order col item.desc))
]

-- The loop over the default columns, which passes over an unknown one.
sort_by_default : GoMap Str Str → List SortItem → Query → Query
sort_by_default columns [] tx = tx
sort_by_default columns (item ∷ items) tx = elim (lookup item.column columns) [
  | none ↦ sort_by_default columns items tx
  | some col ↦ sort_by_default columns items (call tx (order col item.desc))
]

apply_sort : Option Arg → List SortItem → Query → Query × Option InputError
unfolding sort_by_user sort_by_default
apply_sort none values tx = (tx, none)
apply_sort (some (text _)) values tx = (tx, none)
apply_sort (some (sort_args a)) values tx =
    let (tx', e) = sort_by_user a.sortable_columns values tx in
    elim e [
      | some e ↦ (tx', some e)
      | none ↦ (sort_by_default a.sortable_columns a.default_sortable tx', none)
    ]

unfoldable pub apply_query : Filter → Args → Query → Query × Option InputError
unfolding apply_search apply_affecting apply_sort cache_columns
apply_query (search _ value) args tx = (apply_search (lookup search_query args) value tx, none)
apply_query (cve_publish_date _ from to) args tx =
    (call tx (where_ (public_date_between from to)), none)
apply_query (severity _ value) args tx = (call tx (where_ (severity_in value)), none)
apply_query (cluster_severity _ value) args tx =
    (where_any any_positive (cache_columns value) tx, none)
apply_query (cvss_score _ from to) args tx = (call tx (where_ (score_between from to)), none)
apply_query (affecting_clusters _ one_or_more none_affected) args tx =
    (apply_affecting one_or_more none_affected tx, none)
apply_query (limit _ value) args tx = (call tx (limit_ (to_int value)), none)
apply_query (offset _ value) args tx = (call tx (offset_ (to_int value)), none)
apply_query (sort _ values) args tx = apply_sort (lookup sort_filter_args args) values tx
apply_query (data_format _ _) args tx = (tx, none)
apply_query (report _ value) args tx =
    (if value then call (call tx (limit_ (negsuc 0))) (offset_ (negsuc 0)) else tx, none)
apply_query (provider _ values) args tx = (where_any provider_in values tx, none)
apply_query (status _ values) args tx = (where_any status_in values tx, none)
apply_query (version _ values) args tx = (where_any version_in values tx, none)
apply_query (exploits _ value) args tx =
    (call tx (where_ (if value then exploit_not_null else exploit_null)), none)
apply_query (registry _ values) args tx = (where_any registry_in values tx, none)

abbrev pub FilterMap : Type 0
FilterMap = GoMap Str Filter

-- The loop of `ApplyFilters` with the filters used so far.
apply_from : List Str → FilterMap → Args → FilterMap → Query → Query × Result InputError FilterMap
apply_from [] requested args used tx = (tx, ok used)
apply_from (allowed ∷ rest) requested args used tx = elim (lookup allowed requested) [
  | none ↦ apply_from rest requested args used tx
  | some filter ↦
      let (tx', e) = apply_query filter args tx in
      elim e [
        | some e ↦ (tx', err e)
        | none ↦ apply_from rest requested args (insert allowed filter used) tx'
      ]
]

unfoldable pub apply_filters :
    Query → List Str → FilterMap → Args → Query × Result InputError FilterMap
unfolding apply_from
apply_filters tx allowed requested args = apply_from allowed requested args [] tx
