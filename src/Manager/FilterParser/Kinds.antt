-- ===== src/Manager/FilterParser/Kinds.antt =====
-- What `parse_filter` returns: a filter of the kind that its name says, within bounds, and never the
-- error of an index beyond a slice.
use vuln4shift_backend.Prelude.{
  ℕ, ◌≤◌, ◌≡◌, sym, ap, ◌≢◌, length, refl, ◌⊎◌, inl, inr, Bool, Option, none, some, List, [], ◌∷◌,
  arith, if◌then◌else◌, ok, err, ◌>>=◌, Ensures, Ensures-if, Ensures-bind, Str, ◌==◌, str_eq,
  eq_sound, Bool-cases,
}
use vuln4shift_backend.Strings.{to_lower, max_u64, parse_uint64}
use vuln4shift_backend.Strings.Digits.{parse_uint64-le}
use vuln4shift_backend.Manager.Filters.{
  Filter, RawFilter, search, cve_publish_date, severity, cluster_severity, cvss_score,
  affecting_clusters, limit, offset, sort, data_format, report, provider, status, version, exploits,
  registry, search_query, published_query, severity_query, cluster_severity_query, cvss_score_query,
  affected_clusters_query, limit_query, offset_query, sort_query, data_format_query, report_query,
  provider_query, status_query, version_query, exploits_query, registry_query, json_format,
  csv_format, raw_query_name, raw_filter,
}
use vuln4shift_backend.Manager.Parsers.{
  InputError, index_out_of_range, index, invalid_integer, or_error, invalid_affected_clusters,
  invalid_offset, Parsed, parse_comma_params, parse_date_range, parse_bool_array, parse_bools,
  parse_uint, parse_severity, parse_cluster_severity, parse_data_format, parse_cvss_score_range,
}
use vuln4shift_backend.Manager.FilterParser.{
  parse_search, parse_published, parse_affected, parse_limit, parse_flag, parse_score, parse_listed,
  parse_filter,
}

-- The name by which each kind of filter is requested.
abbrev pub query_of : Filter → Str
query_of (search _ _) = search_query
query_of (cve_publish_date _ _ _) = published_query
query_of (severity _ _) = severity_query
query_of (cluster_severity _ _) = cluster_severity_query
query_of (cvss_score _ _ _) = cvss_score_query
query_of (affecting_clusters _ _ _) = affected_clusters_query
query_of (limit _ _) = limit_query
query_of (offset _ _) = offset_query
query_of (sort _ _) = sort_query
query_of (data_format _ _) = data_format_query
query_of (report _ _) = report_query
query_of (provider _ _) = provider_query
query_of (status _ _) = status_query
query_of (version _ _) = version_query
query_of (exploits _ _) = exploits_query
query_of (registry _ _) = registry_query

abbrev pub InBounds : Filter → Type 0
InBounds (limit _ n) = n ≤ 100
InBounds (offset _ n) = n ≤ max_u64
InBounds (data_format _ n) = (n ≡ json_format) ⊎ (n ≡ csv_format)
InBounds _ = Unit

-- What is found under `name` is a filter of the kind of that name, within its bounds.
pub record IsWellFormed (name : Str) (f : Filter) : Type 0 where
  pub named : raw_query_name f ≡ name
  pub kind : query_of f ≡ name
  pub bounded : InBounds f

-- What was parsed from the raw filter `r`.
pub record IsParsed (r : RawFilter) (f : Filter) : Type 0 where
  pub raw : raw_filter f ≡ r
  pub kind : query_of f ≡ r.raw_param
  pub bounded : InBounds f

abbrev pub IsInput : InputError → Type 0
IsInput e = e ≢ index_out_of_range

abbrev Good : RawFilter → Parsed Filter → Type 0
Good r = Ensures (IsParsed r) IsInput

parse_uint-Ensures : (raws : List Str) → Ensures (λ n. n ≤ max_u64) IsInput (parse_uint raws)
unfolding parse_uint
parse_uint-Ensures [] = λ x. cc
parse_uint-Ensures (raw ∷ []) = go (parse_uint64 raw) refl
  where
    go :
        (o : Option ℕ)
        → parse_uint64 raw ≡ o
        → Ensures (λ n. n ≤ max_u64) IsInput (elim o [ none ↦ err invalid_integer | some n ↦ ok n ])
    go none e = λ x. cc
    go (some n) e = parse_uint64-le raw e
parse_uint-Ensures (_ ∷ _ ∷ _) = λ x. cc

parse_bools-Ensures :
    (raws : List Str) → Ensures (λ bs. length bs ≡ length raws) IsInput (parse_bools raws)
unfolding parse_bools
parse_bools-Ensures [] = refl
parse_bools-Ensures (raw ∷ raws) = ground (arith, parse_bools-Ensures raws)

parse_severity-Ensures : (raws : List Str) → Ensures (λ _. Unit {0}) IsInput (parse_severity raws)
unfolding parse_severity
parse_severity-Ensures [] = tt
parse_severity-Ensures (raw ∷ raws) = ground (arith, parse_severity-Ensures raws)

parse_cluster_severity-Ensures :
    (raws : List Str) → Ensures (λ _. Unit {0}) IsInput (parse_cluster_severity raws)
unfolding parse_cluster_severity
parse_cluster_severity-Ensures [] = tt
parse_cluster_severity-Ensures (raw ∷ raws) = ground (arith, parse_cluster_severity-Ensures raws)

parse_data_format-Ensures :
    (raws : List Str)
    → Ensures (λ n. (n ≡ json_format) ⊎ (n ≡ csv_format)) IsInput (parse_data_format raws)
unfolding parse_data_format
parse_data_format-Ensures [] = λ x. cc
parse_data_format-Ensures (raw ∷ []) = ground arith
parse_data_format-Ensures (_ ∷ _ ∷ _) = λ x. cc

parse_bool_array-Ensures :
    (raws : List Str) (n : ℕ)
    → Ensures (λ bs. length bs ≡ n) IsInput (parse_bool_array raws (some n))
unfolding parse_bool_array
parse_bool_array-Ensures raws n = ground (arith, parse_bools-Ensures raws)

or_error-Ensures :
    {A : Type 0} (P : A → Type 0) (e : InputError) (m : Parsed A)
    → IsInput e
    → Ensures P IsInput m
    → Ensures P IsInput (or_error e m)
or_error-Ensures P e (ok a) i h = h
or_error-Ensures P e (err x) i h = i

flag_Good :
    (r : RawFilter) (make : Bool → Filter) (vals : List Str)
    → ((b : Bool) → IsParsed r (make b))
    → Good r (parse_flag make vals)
unfolding parse_flag
flag_Good r make vals h =
    Ensures-bind (IsParsed r) IsInput (λ bs. length bs ≡ 1) (parse_bool_array vals (some 1)) _
      (parse_bool_array-Ensures vals 1) pick
  where
    pick : (bs : List Bool) → length bs ≡ 1 → Good r (index bs 0 >>= λ b. ok (make b))
    pick [] e = absurd (omega arith)
    pick (b ∷ bs) e = h b

-- One lemma for each case of the `switch`.
module _ (r : RawFilter) (vals : List Str) where
  abbrev Parses : Parsed Filter → Type 0
  Parses = Good r

  search_Good : r.raw_param ≡ search_query → Parses (parse_search r vals)
  unfolding parse_search
  search_Good e = go vals
    where
      go : (vs : List Str) → Parses (parse_search r vs)
      go [] = λ x. cc
      go (v ∷ []) = record { raw = refl; kind = sym e; bounded = tt }
      go (v ∷ w ∷ vs) = λ x. cc

  published_Good : r.raw_param ≡ published_query → Parses (parse_published r vals)
  unfolding parse_published parse_date_range
  published_Good e = go vals
    where
      go : (vs : List Str) → Parses (parse_published r vs)
      go [] = λ x. cc
      go (v ∷ []) = λ x. cc
      go (v ∷ w ∷ []) = ground arith
      go (v ∷ w ∷ u ∷ vs) = λ x. cc

  severity_Good :
      r.raw_param ≡ severity_query → Parses (parse_severity vals >>= λ ss. ok (severity r ss))
  severity_Good e = ground (arith, parse_severity-Ensures vals)

  cluster_severity_Good :
      r.raw_param ≡ cluster_severity_query
      → Parses (parse_cluster_severity vals >>= λ ss. ok (cluster_severity r ss))
  cluster_severity_Good e = ground (arith, parse_cluster_severity-Ensures vals)

  score_Good :
      (parse_float32 : Str → Option ℕ)
      → r.raw_param ≡ cvss_score_query
      → Parses (parse_score parse_float32 r vals)
  unfolding parse_score parse_cvss_score_range
  score_Good pf e = go vals
    where
      go : (vs : List Str) → Parses (parse_score pf r vs)
      go [] = λ x. cc
      go (v ∷ []) = λ x. cc
      go (v ∷ w ∷ []) = ground arith
      go (v ∷ w ∷ u ∷ vs) = λ x. cc

  affected_Good : r.raw_param ≡ affected_clusters_query → Parses (parse_affected r vals)
  unfolding parse_affected
  affected_Good e =
      Ensures-bind (IsParsed r) IsInput two
        (or_error invalid_affected_clusters (parse_bool_array vals (some 2))) _
        (or_error-Ensures two invalid_affected_clusters (parse_bool_array vals (some 2)) (λ x. cc)
          (parse_bool_array-Ensures vals 2))
        pick
    where
      two : List Bool → Type 0
      two bs = length bs ≡ 2

      pick :
          (bs : List Bool)
          → two bs
          → Parses (index bs 0 >>= λ a. index bs 1 >>= λ b. ok (affecting_clusters r a b))
      pick [] h = absurd (omega arith)
      pick (a ∷ []) h = absurd (omega arith)
      pick (a ∷ b ∷ bs) h = record { raw = refl; kind = sym e; bounded = tt }

  limit_Good : r.raw_param ≡ limit_query → Parses (parse_limit r vals)
  unfolding parse_limit
  limit_Good e = ground (arith, parse_uint-Ensures vals)

  offset_Good :
      r.raw_param ≡ offset_query
      → Parses (or_error invalid_offset (parse_uint vals) >>= λ n. ok (offset r n))
  offset_Good e = ground (arith, parse_uint-Ensures vals)

  data_format_Good :
      r.raw_param ≡ data_format_query
      → Parses (parse_data_format vals >>= λ n. ok (data_format r n))
  data_format_Good e = ground (arith, parse_data_format-Ensures vals)

-- The raw filter that `parse_filter` makes: only a search keeps its values whole.
abbrev pub raw_of : Str → List Str → RawFilter
raw_of name raws = record {
  raw_param = to_lower name;
  raw_values = if to_lower name == search_query then raws else parse_comma_params raws;
}

module _ (parse_float32 : Str → Option ℕ) (r : RawFilter) where
  listed_Good : Good r (parse_listed parse_float32 r.raw_param r.raw_values)
  unfolding parse_listed
  listed_Good = case published_query _ _ (published_Good r vals) (
      case severity_query _ _ (severity_Good r vals) (
        case cluster_severity_query _ _ (cluster_severity_Good r vals) (
          case cvss_score_query _ _ (score_Good r vals parse_float32) (
            case affected_clusters_query _ _ (affected_Good r vals) (
              case limit_query _ _ (limit_Good r vals) (
                case offset_query _ _ (offset_Good r vals) (
                  case sort_query _ _ (λ e. record { raw = refl; kind = sym e; bounded = tt })
                    (case data_format_query _ _ (data_format_Good r vals) (
                      case report_query _ _
                        (λ e.
                          flag_Good r (report r) vals
                            (λ b. record { raw = refl; kind = sym e; bounded = tt }))
                        (case provider_query _ _
                          (λ e. record { raw = refl; kind = sym e; bounded = tt })
                          (case status_query _ _
                            (λ e. record { raw = refl; kind = sym e; bounded = tt })
                            (case version_query _ _
                              (λ e. record { raw = refl; kind = sym e; bounded = tt })
                              (case exploits_query _ _
                                (λ e.
                                  flag_Good r (exploits r) vals
                                    (λ b. record { raw = refl; kind = sym e; bounded = tt }))
                                (case registry_query _ _
                                  (λ e. record { raw = refl; kind = sym e; bounded = tt })
                                  (λ x. cc)))))))))))))))
    where
      vals : List Str
      vals = r.raw_values

      case :
          (q : Str) (x y : Parsed Filter)
          → (r.raw_param ≡ q → Good r x)
          → Good r y
          → Good r (if r.raw_param == q then x else y)
      case q x y hx hy =
          Ensures-if (IsParsed r) IsInput (r.raw_param == q) _ _
            (λ e. hx (eq_sound r.raw_param q e)) (λ _. hy)

module _ (parse_float32 : Str → Option ℕ) (name : Str) (raws : List Str) where
  pub parse_filter-IsParsed :
      Ensures (IsParsed (raw_of name raws)) IsInput (parse_filter parse_float32 name raws)
  unfolding parse_filter
  parse_filter-IsParsed = elim (Bool-cases (to_lower name == search_query)) [
    | inl e ↦ rw e (
        search_Good (record { raw_param = to_lower name; raw_values = raws }) raws
          (eq_sound (to_lower name) search_query e))
    | inr e ↦ rw e (
        listed_Good parse_float32
          (record { raw_param = to_lower name; raw_values = parse_comma_params raws }))
  ]

  -- Every filter that `parse_filter` returns is well formed at the name in lower case, and no error
  -- of it is that of an index beyond a slice.
  pub parse_filter-Ensures :
      Ensures (IsWellFormed (to_lower name)) IsInput (parse_filter parse_float32 name raws)
  parse_filter-Ensures = weaken (parse_filter parse_float32 name raws) parse_filter-IsParsed
    where
      weaken :
          (m : Parsed Filter)
          → Ensures (IsParsed (raw_of name raws)) IsInput m
          → Ensures (IsWellFormed (to_lower name)) IsInput m
      weaken (ok f) h = record {
        named = ap (λ (r : RawFilter). r.raw_param) h.raw;
        kind = h.kind;
        bounded = h.bounded;
      }
      weaken (err e) h = h
