-- ===== src/Tests/Manager.antt =====
-- Requests to the API: their filters, queries and listings.
use vuln4shift_backend.Prelude.{
  pos, negsuc, ℕ, ◌≤◌, ◌≡◌, refl, true, false, ◌&&◌, ◌||◌, Option, none, some, List, [], ◌∷◌, ◌++◌,
  ltb, if◌then◌else◌, Result, ok, err, Ensures, Ensures-eq-ok, Str, codes, str_eq, str_beq,
  contains,
}
use vuln4shift_backend.Prelude.GoMap.{lookup, insert, insert_all}
use vuln4shift_backend.Strings.{to_lower, parse_uint64}
use vuln4shift_backend.Strings.Join.{split}
use vuln4shift_backend.Manager.Filters.{
  Filter, RawFilter, SortItem, limit, sort, affecting_clusters, severity, raw_query_name,
  raw_query_val, limit_query, sort_query, severity_query,
}
use vuln4shift_backend.Manager.Parsers.{
  parse_comma_params, parse_severity, parse_uint, invalid_sort_column, limit_too_high,
}
use vuln4shift_backend.Manager.FilterParser.{parse_filter}
use vuln4shift_backend.Manager.FilterParser.Kinds.{IsWellFormed, IsInput, parse_filter-Ensures}
use vuln4shift_backend.Manager.FilterParser.Echo.{parse_filter-echo}
use vuln4shift_backend.Manager.Query.{
  Query, where_, order, limit_, offset_, Args, sort_args, SortArgs, FilterMap, sort_filter_args,
  apply_query, apply_filters,
}
use vuln4shift_backend.Manager.Query.Paging.{Limits}
use vuln4shift_backend.Manager.Query.SortSafety.{IsSafe, apply_filters-IsSafe}
use vuln4shift_backend.Manager.Query.Used.{lookup-apply_filters}
use vuln4shift_backend.Manager.Query.Order.{
  orders, apply_query-sort, all_listed, apply_query-sort_error,
}
use vuln4shift_backend.Manager.Query.Exposure.{keeps, keeps-affecting}
use vuln4shift_backend.Manager.ListQuery.{list_query}
use vuln4shift_backend.Manager.ListQuery.Paging.{list_query-limit, is_report}
use vuln4shift_backend.Manager.Filterer.{Params, apply_default_filters, filterer}
use vuln4shift_backend.Manager.Filterer.Entries.{IsComplete, filterer-Ensures}

-- A decoder of floats that knows none.
abbrev no_float : Str → Option ℕ
no_float s = none

abbrev request : Params
request =
    (codes "Limit", codes "50" ∷ [])
    ∷ (codes "severity", codes "critical,low" ∷ codes "None" ∷ [])
    ∷ []

parse_filter-Ensures_example :
    Ensures
      (IsWellFormed (to_lower (codes "LIMIT")))
      IsInput
      (parse_filter no_float (codes "LIMIT") (codes "101" ∷ []))
parse_filter-Ensures_example = parse_filter-Ensures no_float (codes "LIMIT") (codes "101" ∷ [])

limit_rejected : parse_filter no_float (codes "LIMIT") (codes "101" ∷ []) ≡ err limit_too_high
unfolding parse_filter to_lower str_beq parse_comma_params split parse_uint parse_uint64
limit_rejected = refl

abbrev severities : Filter
severities =
    severity
      (record {
        raw_param = codes "severity";
        raw_values = codes "critical" ∷ codes "low" ∷ codes "None" ∷ [];
      })
      (codes "Critical" ∷ codes "Low" ∷ codes "None" ∷ [])

severities_parsed :
    parse_filter no_float (codes "Severity") (codes "critical,low" ∷ codes "None" ∷ [])
    ≡ ok severities
unfolding parse_filter to_lower str_beq parse_comma_params split parse_severity
severities_parsed = refl

parse_filter-echo_example :
    parse_filter no_float (raw_query_name severities) (raw_query_val severities ∷ [])
    ≡ ok severities
parse_filter-echo_example =
    parse_filter-echo no_float (codes "Severity") (codes "critical,low" ∷ codes "None" ∷ [])
      severities severities_parsed (λ e. cc)

filterer-Ensures_example : Ensures IsComplete IsInput (filterer no_float request)
filterer-Ensures_example = filterer-Ensures no_float request

-- The last call of `Limit` counts, and a negative one cancels.
limit_from : Option ℕ → Query → Option ℕ
limit_from l [] = l
limit_from l (limit_ (pos n) ∷ tx) = limit_from (some n) tx
limit_from l (limit_ (negsuc n) ∷ tx) = limit_from none tx
limit_from l (where_ c ∷ tx) = limit_from l tx
limit_from l (order col desc ∷ tx) = limit_from l tx
limit_from l (offset_ i ∷ tx) = limit_from l tx

limit_from-append :
    (l : Option ℕ) (tx ty : Query) → limit_from l (tx ++ ty) ≡ limit_from (limit_from l tx) ty
unfolding limit_from
limit_from-append l [] ty = refl
limit_from-append l (limit_ (pos n) ∷ tx) ty = limit_from-append (some n) tx ty
limit_from-append l (limit_ (negsuc n) ∷ tx) ty = limit_from-append none tx ty
limit_from-append l (where_ c ∷ tx) ty = limit_from-append l tx ty
limit_from-append l (order col desc ∷ tx) ty = limit_from-append l tx ty
limit_from-append l (offset_ i ∷ tx) ty = limit_from-append l tx ty

last_limit : Limits
unfolding limit_from
last_limit = record {
  limit_of = limit_from none;
  limit-set = λ tx n. limit_from-append none tx (limit_ (pos n) ∷ []);
  limit-cancel = λ tx. limit_from-append none tx (limit_ (negsuc 0) ∷ []);
  limit-where = λ tx c. limit_from-append none tx (where_ c ∷ []);
  limit-order = λ tx col desc. limit_from-append none tx (order col desc ∷ []);
  limit-offset = λ tx i. limit_from-append none tx (offset_ i ∷ []);
}

abbrev columns : SortArgs
columns = record {
  sortable_columns =
      (codes "id", codes "cluster.id") ∷ (codes "status", codes "cluster.status") ∷ [];
  default_sortable = record { column = codes "id"; desc = false } ∷ [];
}

abbrev args : Args
args = (sort_filter_args, sort_args columns) ∷ []

abbrev defaults : FilterMap
unfolding apply_default_filters lookup insert str_beq
defaults = apply_default_filters []

defaults-IsComplete : IsComplete defaults
unfolding apply_default_filters lookup insert str_beq
defaults-IsComplete =
    Ensures-eq-ok IsComplete IsInput (filterer no_float []) (filterer-Ensures no_float [])
      (unfold filterer in refl)

abbrev count : Query → Result Str ℕ
count tx = ok 1

abbrev find : Option (Query → Result Str (List ℕ))
find = some (λ tx. ok (7 ∷ []))

list_query-limit_example :
    (r : RawFilter) × (n : ℕ) × (lookup limit_query defaults ≡ some (limit r n))
    × (n ≤ 100)
    × (last_limit.limit_of (list_query count find [] (severity_query ∷ []) defaults args).query
        ≡ (if is_report defaults then none else some n))
unfolding apply_default_filters lookup insert insert_all str_beq list_query apply_filters
    apply_query
list_query-limit_example =
    list_query-limit last_limit count find [] (severity_query ∷ []) defaults args
      defaults-IsComplete refl refl

apply_filters-IsSafe_example :
    IsSafe columns.sortable_columns (apply_filters [] (sort_query ∷ []) defaults args).0
unfolding lookup str_beq
apply_filters-IsSafe_example =
    apply_filters-IsSafe columns defaults args refl [] (sort_query ∷ []) tt

lookup-apply_filters_example :
    lookup limit_query
      ((limit_query, limit (record { raw_param = limit_query; raw_values = [] }) 7) ∷ [])
    ≡ (if contains (limit_query ∷ []) limit_query
        then lookup limit_query
            ((limit_query, limit (record { raw_param = limit_query; raw_values = [] }) 7) ∷ [])
        else none)
unfolding apply_filters apply_query lookup insert str_beq
lookup-apply_filters_example =
    lookup-apply_filters
      ((limit_query, limit (record { raw_param = limit_query; raw_values = [] }) 7) ∷ []) args
      limit_query (limit_query ∷ [])
      ((limit_query, limit (record { raw_param = limit_query; raw_values = [] }) 7) ∷ []) [] refl

abbrev by_status : List SortItem
by_status = record { column = codes "status"; desc = true } ∷ []

abbrev raw_sort : RawFilter
raw_sort = record { raw_param = codes "sort"; raw_values = codes "-status" ∷ [] }

apply_query-sort_example : apply_query (sort raw_sort by_status) args [] ≡ (
  []
      ++ orders columns.sortable_columns by_status
      ++ orders columns.sortable_columns columns.default_sortable,
  none,
)
unfolding lookup str_beq
apply_query-sort_example = apply_query-sort raw_sort by_status args columns [] refl refl

abbrev by_secret : List SortItem
by_secret = record { column = codes "secret"; desc = true } ∷ []

apply_query-sort_error_example :
    (apply_query (sort raw_sort by_secret) args []).1
    ≡ (if all_listed columns.sortable_columns by_secret then none else some invalid_sort_column)
unfolding lookup str_beq
apply_query-sort_error_example = apply_query-sort_error raw_sort by_secret args columns [] refl

keeps-affecting_example :
    keeps
      (λ c. true)
      3
      (apply_query (affecting_clusters raw_sort true false) args (limit_ (pos 5) ∷ [])).0
    ≡ (keeps (λ c. true) 3 (limit_ (pos 5) ∷ []) && (false || ltb 0 3))
keeps-affecting_example =
    keeps-affecting (λ c. true) 3 raw_sort true false args (limit_ (pos 5) ∷ [])
