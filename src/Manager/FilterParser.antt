-- ===== src/Manager/FilterParser.antt =====
-- `ParseFilter` of manager/base/parsers.go.
pub mod Kinds
pub mod Echo
use vuln4shift_backend.Prelude.{
  ℕ, zero, suc, Bool, true, false, not, ◌&&◌, ◌||◌, Option, none, some, List, [], ◌∷◌, ◌++◌, map,
  ltb, nat_beq, if◌then◌else◌, length, Result, ok, err, ◌>>=◌, Str, codes, ◌==◌, str_eq,
}
use vuln4shift_backend.Strings.{
  Date, to_lower, title, has_dash, tail, parse_bool, parse_uint64, parse_date,
}
use vuln4shift_backend.Strings.Join.{split}
use vuln4shift_backend.Models.{
  Severity, not_set, severity_none, low, medium, moderate, important, high, critical,
}
use vuln4shift_backend.Manager.Filters.{
  Filter, RawFilter, SortItem, search, cve_publish_date, severity, cluster_severity, cvss_score,
  affecting_clusters, limit, offset, sort, data_format, report, provider, status, version, exploits,
  registry, search_query, published_query, severity_query, cluster_severity_query, cvss_score_query,
  affected_clusters_query, limit_query, offset_query, sort_query, data_format_query, report_query,
  provider_query, status_query, version_query, exploits_query, registry_query, json_format,
  csv_format,
}
use vuln4shift_backend.Manager.Parsers.{
  InputError, invalid_search, invalid_published, invalid_affected_clusters, invalid_limit,
  limit_too_high, invalid_offset, invalid_filter_argument, Parsed, index, or_error,
  parse_comma_params, parse_bool_array, parse_date_range, parse_severity, parse_cluster_severity,
  parse_uint, parse_sort_array, parse_data_format, parse_capital_array, parse_cvss_score_range,
}

-- The cases of the `switch` that parse further.
parse_search : RawFilter → List Str → Parsed Filter
parse_search r (value ∷ []) = ok (search r value)
parse_search r _ = err invalid_search

parse_published : RawFilter → List Str → Parsed Filter
parse_published r vals = do
  range ← or_error invalid_published (parse_date_range vals)
  from ← index range 0
  to ← index range 1
  ok (cve_publish_date r from to)

parse_affected : RawFilter → List Str → Parsed Filter
parse_affected r vals = do
  bools ← or_error invalid_affected_clusters (parse_bool_array vals (some 2))
  one_or_more ← index bools 0
  none_affected ← index bools 1
  ok (affecting_clusters r one_or_more none_affected)

parse_limit : RawFilter → List Str → Parsed Filter
parse_limit r vals = do
  n ← or_error invalid_limit (parse_uint vals)
  if ltb 100 n then err limit_too_high else ok (limit r n)

parse_flag : (Bool → Filter) → List Str → Parsed Filter
parse_flag make vals = do bools ← parse_bool_array vals (some 1); b ← index bools 0; ok (make b)

module _ (parse_float32 : Str → Option ℕ) where
  parse_score : RawFilter → List Str → Parsed Filter
  parse_score r vals = do
    range ← parse_cvss_score_range parse_float32 vals
    from ← index range 0
    to ← index range 1
    ok (cvss_score r from to)

  -- The cases on comma-separated values.
  parse_listed : Str → List Str → Parsed Filter
  unfolding parse_published parse_affected parse_limit parse_flag parse_score
  parse_listed raw vals =
      let r : RawFilter = record { raw_param = raw; raw_values = vals } in
      if raw == published_query
      then parse_published r vals
      else if raw == severity_query
      then (do ss ← parse_severity vals; ok (severity r ss))
      else if raw == cluster_severity_query
      then (do ss ← parse_cluster_severity vals; ok (cluster_severity r ss))
      else if raw == cvss_score_query
      then parse_score r vals
      else if raw == affected_clusters_query
      then parse_affected r vals
      else if raw == limit_query
      then parse_limit r vals
      else if raw == offset_query
      then (do n ← or_error invalid_offset (parse_uint vals); ok (offset r n))
      else if raw == sort_query
      then ok (sort r (parse_sort_array vals))
      else if raw == data_format_query
      then (do format ← parse_data_format vals; ok (data_format r format))
      else if raw == report_query
      then parse_flag (report r) vals
      else if raw == provider_query
      then ok (provider r vals)
      else if raw == status_query
      then ok (status r (parse_capital_array vals))
      else if raw == version_query
      then ok (version r vals)
      else if raw == exploits_query
      then parse_flag (exploits r) vals
      else if raw == registry_query
      then ok (registry r vals)
      else err invalid_filter_argument

  unfoldable pub parse_filter : Str → List Str → Parsed Filter
  unfolding parse_search parse_listed
  parse_filter raw_name raw_values =
      let raw = to_lower raw_name in
      if raw == search_query
      then parse_search (record { raw_param = raw; raw_values = raw_values }) raw_values
      else parse_listed raw (parse_comma_params raw_values)
