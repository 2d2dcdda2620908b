-- ===== src/Manager/Filters.antt =====
-- The filters of manager/base/filters.go as data: one constructor for each type that implements
-- `Filter`, with the fields that the type adds to `RawFilter`.
use vuln4shift_backend.Prelude.{ℕ, Bool, List, Str, codes}
use vuln4shift_backend.Strings.{Date}
use vuln4shift_backend.Strings.Join.{join}
use vuln4shift_backend.Models.{Severity}

abbrev pub search_query : Str
search_query = codes "search"

abbrev pub published_query : Str
published_query = codes "published"

abbrev pub severity_query : Str
severity_query = codes "severity"

abbrev pub cluster_severity_query : Str
cluster_severity_query = codes "cluster_severity"

abbrev pub cvss_score_query : Str
cvss_score_query = codes "cvss_score"

abbrev pub affected_clusters_query : Str
affected_clusters_query = codes "affected_clusters"

abbrev pub limit_query : Str
limit_query = codes "limit"

abbrev pub offset_query : Str
offset_query = codes "offset"

abbrev pub sort_query : Str
sort_query = codes "sort"

abbrev pub data_format_query : Str
data_format_query = codes "data_format"

abbrev pub report_query : Str
report_query = codes "report"

abbrev pub provider_query : Str
provider_query = codes "provider"

abbrev pub status_query : Str
status_query = codes "status"

abbrev pub version_query : Str
version_query = codes "version"

abbrev pub exploits_query : Str
exploits_query = codes "exploits"

abbrev pub registry_query : Str
registry_query = codes "registry"

-- `JSONFormat` and `CSVFormat`
abbrev pub json_format : ℕ
json_format = 0

abbrev pub csv_format : ℕ
csv_format = 1

pub record RawFilter : Type 0 where
  pub raw_param : Str
  pub raw_values : List Str

pub record SortItem : Type 0 where
  pub column : Str
  pub desc : Bool

-- A `float32` is the number of its bits; a `uint64` is below 2 ^ 64.
pub data Filter : Type 0 where
  search : RawFilter → Str → Filter
  cve_publish_date : RawFilter → Date → Date → Filter
  severity : RawFilter → List Severity → Filter
  cluster_severity : RawFilter → List Severity → Filter
  cvss_score : RawFilter → ℕ → ℕ → Filter
  affecting_clusters : RawFilter → Bool → Bool → Filter
  limit : RawFilter → ℕ → Filter
  offset : RawFilter → ℕ → Filter
  sort : RawFilter → List SortItem → Filter
  data_format : RawFilter → ℕ → Filter
  report : RawFilter → Bool → Filter
  provider : RawFilter → List Str → Filter
  status : RawFilter → List Str → Filter
  version : RawFilter → List Str → Filter
  exploits : RawFilter → Bool → Filter
  registry : RawFilter → List Str → Filter

-- The embedded `RawFilter`.
abbrev pub raw_filter : Filter → RawFilter
raw_filter (search r _) = r
raw_filter (cve_publish_date r _ _) = r
raw_filter (severity r _) = r
raw_filter (cluster_severity r _) = r
raw_filter (cvss_score r _ _) = r
raw_filter (affecting_clusters r _ _) = r
raw_filter (limit r _) = r
raw_filter (offset r _) = r
raw_filter (sort r _) = r
raw_filter (data_format r _) = r
raw_filter (report r _) = r
raw_filter (provider r _) = r
raw_filter (status r _) = r
raw_filter (version r _) = r
raw_filter (exploits r _) = r
raw_filter (registry r _) = r

abbrev pub raw_query_name : Filter → Str
raw_query_name f = (raw_filter f).raw_param

unfoldable pub raw_query_val : Filter → Str
raw_query_val f = join b',' (raw_filter f).raw_values

abbrev pub raw_query_vals : Filter → List Str
raw_query_vals f = (raw_filter f).raw_values
