-- ===== src/Manager/FilterParser/Echo.antt =====
-- The meta section of a response echoes a filter as its name and its value (`RawQueryName`,
-- `RawQueryVal`): sent again as a parameter, the echo is parsed to the same filter.
use vuln4shift_backend.Prelude.{
  ℕ, ◌≡◌, ◌≢◌, refl, sym, ap, ◌∙◌, inl, inr, Option, List, [], ◌∷◌, ◌++◌, append-nil, arith,
  if◌then◌else◌, Bool-cases, ok, Ensures-eq-ok, All, All-append, Str, str_eq, ◌==◌,
}
use vuln4shift_backend.Strings.{lower_byte, to_lower}
use vuln4shift_backend.Strings.Join.{split, join, Lacks, split-ne-nil, split-Lacks, split-join}
use vuln4shift_backend.Manager.Filters.{
  Filter, RawFilter, search_query, raw_filter, raw_query_name, raw_query_val,
}
use vuln4shift_backend.Manager.Parsers.{Parsed, parse_comma_params}
use vuln4shift_backend.Manager.FilterParser.{parse_search, parse_listed, parse_filter}
use vuln4shift_backend.Manager.FilterParser.Kinds.{IsInput, IsParsed, raw_of, parse_filter-IsParsed}

lower_byte_idem : (c : ℕ) → lower_byte (lower_byte c) ≡ lower_byte c
unfolding lower_byte
lower_byte_idem c = ground arith

to_lower_idem : (s : Str) → to_lower (to_lower s) ≡ to_lower s
unfolding to_lower
to_lower_idem [] = refl
to_lower_idem (c ∷ s) = ground (arith, lower_byte_idem c, to_lower_idem s)

parse_comma_params-Lacks : (vals : List Str) → All (Lacks b',') (parse_comma_params vals)
unfolding parse_comma_params
parse_comma_params-Lacks [] = tt
parse_comma_params-Lacks (v ∷ vals) =
    All-append (Lacks b',') (split b',' v) (parse_comma_params vals) (split-Lacks b',' v)
      (parse_comma_params-Lacks vals)

parse_comma_params-ne-nil : (vals : List Str) → vals ≢ [] → parse_comma_params vals ≢ []
unfolding parse_comma_params
parse_comma_params-ne-nil [] h e = h refl
parse_comma_params-ne-nil (v ∷ vals) h e = nonempty (split b',' v) (split-ne-nil b',' v) e
  where
    nonempty : (ps : List Str) → ps ≢ [] → ps ++ parse_comma_params vals ≡ [] → ⊥
    nonempty [] n e = n refl
    nonempty (p ∷ ps) n e = cc

-- The parts of several values, joined and split again.
pub parse_comma_params-join :
    (vals : List Str)
    → vals ≢ []
    → parse_comma_params (join b',' (parse_comma_params vals) ∷ []) ≡ parse_comma_params vals
parse_comma_params-join vals h =
    let ps = parse_comma_params vals in
    step (join b',' ps)
    ∙ split-join b',' ps (parse_comma_params-ne-nil vals h) (parse_comma_params-Lacks vals)
  where
    step : (s : Str) → parse_comma_params (s ∷ []) ≡ split b',' s
    step s = unfold parse_comma_params in append-nil (split b',' s)

module _ (parse_float32 : Str → Option ℕ) where
  abbrev echo : RawFilter → Parsed Filter
  echo r = parse_filter parse_float32 r.raw_param (join b',' r.raw_values ∷ [])

  -- `parse_filter` by the raw filter that it makes.
  parse_raw : RawFilter → Parsed Filter
  parse_raw r =
      if r.raw_param == search_query
      then parse_search r r.raw_values
      else parse_listed parse_float32 r.raw_param r.raw_values

  parse_filter-raw :
      (name : Str) (raws : List Str)
      → parse_filter parse_float32 name raws ≡ parse_raw (raw_of name raws)
  unfolding parse_filter parse_raw
  parse_filter-raw name raws = elim (Bool-cases (to_lower name == search_query)) [
    | inl e ↦ rw e
    | inr e ↦ rw e
  ]

  search-raws :
      (r : RawFilter) (raws : List Str) (f : Filter)
      → parse_search r raws ≡ ok f
      → join b',' raws ∷ [] ≡ raws
  unfolding parse_search
  search-raws r [] f h = cc
  search-raws r (v ∷ []) f h = unfold join in refl
  search-raws r (v ∷ w ∷ raws) f h = cc

  raw_of-echo :
      (name : Str) (raws : List Str) (f : Filter)
      → parse_filter parse_float32 name raws ≡ ok f
      → raws ≢ []
      → raw_of (to_lower name) (join b',' (raw_of name raws).raw_values ∷ []) ≡ raw_of name raws
  unfolding parse_filter
  raw_of-echo name raws f h n = elim (Bool-cases (to_lower name == search_query)) [
    | inl e ↦ ground (
      arith,
      to_lower_idem name,
      search-raws (record { raw_param = to_lower name; raw_values = raws }) raws f,
    )
    | inr e ↦ ground (arith, to_lower_idem name, parse_comma_params-join raws n)
  ]

  -- The name and the value that the meta section shows for a parsed filter are parsed to that filter.
  pub parse_filter-echo :
      (name : Str) (raws : List Str) (f : Filter)
      → parse_filter parse_float32 name raws ≡ ok f
      → raws ≢ []
      → parse_filter parse_float32 (raw_query_name f) (raw_query_val f ∷ []) ≡ ok f
  unfolding raw_query_val
  parse_filter-echo name raws f h n =
      let made : raw_filter f ≡ raw_of name raws =
        (Ensures-eq-ok (IsParsed (raw_of name raws)) IsInput (parse_filter parse_float32 name raws)
          (parse_filter-IsParsed parse_float32 name raws) h).raw in
      ap echo made
      ∙ parse_filter-raw (to_lower name) (join b',' (raw_of name raws).raw_values ∷ [])
      ∙ ap parse_raw (raw_of-echo name raws f h n)
      ∙ sym (parse_filter-raw name raws)
      ∙ h
