-- ===== src/Manager/Filterer.antt =====
-- manager/middlewares/filterer.go: the parameters of a request become a map of filters, with the
-- default limit, offset and sort.
pub mod Entries
use vuln4shift_backend.Prelude.{
  ℕ, Option, List, [], ◌∷◌, if◌then◌else◌, Str, codes, str_eq, Result, ok, err, ◌>>=◌,
}
use vuln4shift_backend.Prelude.GoMap.{GoMap, insert, has}
use vuln4shift_backend.Manager.Filters.{
  RawFilter, limit, offset, sort, raw_query_name, limit_query, offset_query, sort_query,
}
use vuln4shift_backend.Manager.Parsers.{Parsed}
use vuln4shift_backend.Manager.FilterParser.{parse_filter}
use vuln4shift_backend.Manager.Query.{FilterMap}

default_limit : FilterMap → FilterMap
default_limit m =
    if has limit_query m
    then m
    else insert limit_query
        (limit (record { raw_param = codes "limit"; raw_values = codes "20" ∷ [] }) 20) m

default_offset : FilterMap → FilterMap
default_offset m =
    if has offset_query m
    then m
    else insert offset_query
        (offset (record { raw_param = codes "offset"; raw_values = codes "0" ∷ [] }) 0) m

default_sort : FilterMap → FilterMap
default_sort m =
    if has sort_query m
    then m
    else insert sort_query (sort (record { raw_param = codes "sort"; raw_values = [] }) []) m

unfoldable pub apply_default_filters : FilterMap → FilterMap
unfolding default_limit default_offset default_sort
apply_default_filters m = default_sort (default_offset (default_limit m))

-- The parameters of the request's URL, with their values.
abbrev pub Params : Type 0
Params = GoMap Str (List Str)

module _ (parse_float32 : Str → Option ℕ) where
  -- The loop of the handler; an error aborts it with status 400.
  parse_params : Params → FilterMap → Parsed FilterMap
  parse_params [] filters = ok filters
  parse_params ((param, raw_values) ∷ rest) filters =
      elim (parse_filter parse_float32 param raw_values) [
        | err e ↦ err e
        | ok filter ↦ parse_params rest (insert (raw_query_name filter) filter filters)
      ]

  -- The map that the handler sets in the context, or the detail of its response 400.
  unfoldable pub filterer : Params → Parsed FilterMap
  unfolding parse_params
  filterer params = do filters ← parse_params params []; ok (apply_default_filters filters)
