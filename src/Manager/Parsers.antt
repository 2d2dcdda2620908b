-- ===== src/Manager/Parsers.antt =====
-- manager/base/parsers.go. `strconv.ParseFloat` is the parameter `parse_float32`, to the bits of the
-- nearest `float32`; indexing beyond a slice is the error `index_out_of_range`.
use vuln4shift_backend.Prelude.{
  ℕ, zero, suc, Bool, true, false, not, ◌||◌, Option, none, some, List, [], ◌∷◌, ◌++◌, map, nat_beq,
  if◌then◌else◌, length, Result, ok, err, ◌>>=◌, Str, codes, ◌==◌, str_eq,
}
use vuln4shift_backend.Strings.{
  Date, to_lower, title, has_dash, tail, parse_bool, parse_uint64, parse_date,
}
use vuln4shift_backend.Strings.Join.{split}
use vuln4shift_backend.Models.{
  Severity, not_set, severity_none, low, medium, moderate, important, high, critical,
}
use vuln4shift_backend.Manager.Filters.{SortItem, json_format, csv_format}

-- One constructor for each message.
pub data InputError : Type 0 where
  invalid_bool_array invalid_bool invalid_date_range invalid_date invalid_severity : InputError
  invalid_cluster_severity invalid_cvss_range invalid_cvss_score invalid_integer : InputError
  invalid_data_format invalid_search invalid_published invalid_affected_clusters : InputError
  invalid_limit limit_too_high invalid_offset invalid_filter_argument : InputError
  invalid_sort_column index_out_of_range : InputError

abbrev pub Parsed : Type 0 → Type 0
Parsed = Result InputError

-- `xs[i]`
abbrev pub index : {A : Type 0} → List A → ℕ → Parsed A
index [] i = err index_out_of_range
index (x ∷ xs) zero = ok x
index (x ∷ xs) (suc i) = index xs i

-- An error is replaced by the caller's message.
abbrev pub or_error : {A : Type 0} → InputError → Parsed A → Parsed A
or_error e (ok a) = ok a
or_error e (err _) = err e

unfoldable pub parse_comma_params : List Str → List Str
parse_comma_params [] = []
parse_comma_params (val ∷ values) = split b',' val ++ parse_comma_params values

unfoldable pub parse_bools : List Str → Parsed (List Bool)
parse_bools [] = ok []
parse_bools (raw ∷ raws) = elim (parse_bool raw) [
  | none ↦ err invalid_bool
  | some val ↦ (do vals ← parse_bools raws; ok (val ∷ vals))
]

exceeds : Option ℕ → ℕ → Bool
exceeds none n = false
exceeds (some expected) n = not (nat_beq n expected)

unfoldable pub parse_bool_array : List Str → Option ℕ → Parsed (List Bool)
unfolding parse_bools exceeds
parse_bool_array raw_values expected =
    if exceeds expected (length raw_values) then err invalid_bool_array else parse_bools raw_values

parse_date_or : Date → Str → Parsed Date
parse_date_or default raw =
    if raw == []
    then ok default
    else elim (parse_date raw) [ none ↦ err invalid_date | some d ↦ ok d ]

unfoldable pub parse_date_range : List Str → Parsed (List Date)
unfolding parse_date_or
parse_date_range (from ∷ to ∷ []) = do
  date_from ← parse_date_or (record { year = 1970; month = 1; day = 1 }) from
  date_to ← parse_date_or (record { year = 2070; month = 1; day = 1 }) to
  ok (date_from ∷ date_to ∷ [])
parse_date_range _ = err invalid_date_range

-- The `switch` of `ParseSeverity`, and that of `ParseClusterSeverity`.
severity_of : Str → Option Severity
severity_of raw =
    if raw == [] || raw == codes "null"
    then some not_set
    else if raw == codes "none"
    then some severity_none
    else if raw == codes "low"
    then some low
    else if raw == codes "medium"
    then some medium
    else if raw == codes "moderate"
    then some moderate
    else if raw == codes "important"
    then some important
    else if raw == codes "high"
    then some high
    else if raw == codes "critical"
    then some critical
    else none

cluster_severity_of : Str → Option Severity
cluster_severity_of raw =
    if raw == codes "low"
    then some low
    else if raw == codes "moderate"
    then some moderate
    else if raw == codes "important"
    then some important
    else if raw == codes "critical"
    then some critical
    else none

unfoldable pub parse_severity : List Str → Parsed (List Severity)
unfolding severity_of
parse_severity [] = ok []
parse_severity (raw ∷ raws) = elim (severity_of (to_lower raw)) [
  | none ↦ err invalid_severity
  | some s ↦ (do res ← parse_severity raws; ok (s ∷ res))
]

unfoldable pub parse_cluster_severity : List Str → Parsed (List Severity)
unfolding cluster_severity_of
parse_cluster_severity [] = ok []
parse_cluster_severity (raw ∷ raws) = elim (cluster_severity_of (to_lower raw)) [
  | none ↦ err invalid_cluster_severity
  | some s ↦ (do res ← parse_cluster_severity raws; ok (s ∷ res))
]

unfoldable pub parse_uint : List Str → Parsed ℕ
parse_uint (raw ∷ []) = elim (parse_uint64 raw) [ none ↦ err invalid_integer | some n ↦ ok n ]
parse_uint _ = err invalid_integer

unfoldable pub parse_sort_array : List Str → List SortItem
parse_sort_array [] = []
parse_sort_array (raw ∷ raws) =
    let rest = parse_sort_array raws in
    if raw == []
    then rest
    else if has_dash raw
    then record { column = tail raw; desc = true } ∷ rest
    else record { column = raw; desc = false } ∷ rest

unfoldable pub parse_data_format : List Str → Parsed ℕ
parse_data_format (raw ∷ []) =
    if to_lower raw == codes "json"
    then ok json_format
    else if to_lower raw == codes "csv"
    then ok csv_format
    else err invalid_data_format
parse_data_format _ = err invalid_data_format

unfoldable pub parse_capital_array : List Str → List Str
parse_capital_array = map title

-- The bits of 0.0 and of 10.0.
abbrev pub float_zero : ℕ
float_zero = 0

abbrev pub float_ten : ℕ
float_ten = 0x41200000

module _ (parse_float32 : Str → Option ℕ) where
  parse_score_or : ℕ → Str → Parsed ℕ
  parse_score_or default raw =
      if raw == []
      then ok default
      else elim (parse_float32 raw) [ none ↦ err invalid_cvss_score | some f ↦ ok f ]

  unfoldable pub parse_cvss_score_range : List Str → Parsed (List ℕ)
  unfolding parse_score_or
  parse_cvss_score_range (from ∷ to ∷ []) = do
    score_from ← parse_score_or float_zero from
    score_to ← parse_score_or float_ten to
    ok (score_from ∷ score_to ∷ [])
  parse_cvss_score_range _ = err invalid_cvss_range
