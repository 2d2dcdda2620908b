-- ===== src/Manager/Filterer/Entries.antt =====
-- The map of filters that the middleware hands to the controllers.
use vuln4shift_backend.Prelude.{
  ℕ, ◌≡◌, refl, inl, inr, true, Option, [], ◌∷◌, arith, if◌then◌else◌, Bool-cases, ok, err, Ensures,
  Ensures-bind, Str, codes, str_eq, eq_refl,
}
use vuln4shift_backend.Prelude.GoMap.{lookup, insert, has, Entries, Entries-insert, lookup-insert}
use vuln4shift_backend.Strings.{to_lower}
use vuln4shift_backend.Manager.Filters.{
  Filter, limit, offset, sort, limit_query, offset_query, sort_query, raw_query_name,
}
use vuln4shift_backend.Manager.Parsers.{Parsed}
use vuln4shift_backend.Manager.FilterParser.{parse_filter}
use vuln4shift_backend.Manager.FilterParser.Kinds.{IsWellFormed, IsInput, parse_filter-Ensures}
use vuln4shift_backend.Manager.Query.{FilterMap}
use vuln4shift_backend.Manager.Filterer.{Params, apply_default_filters, parse_params, filterer}

abbrev pub AllWellFormed : FilterMap → Type 0
AllWellFormed = Entries IsWellFormed

-- What every controller may rely on.
pub record IsComplete (m : FilterMap) : Type 0 where
  pub well_formed : AllWellFormed m
  pub limited : has limit_query m ≡ true
  pub offsetted : has offset_query m ≡ true
  pub sorted : has sort_query m ≡ true

has-insert : (k j : Str) (f : Filter) (m : FilterMap) → has j m ≡ true → has j (insert k f m) ≡ true
has-insert k j f m h = ground (arith, lookup-insert k j f m)

has-insert_self : (k : Str) (f : Filter) (m : FilterMap) → has k (insert k f m) ≡ true
has-insert_self k f m = ground (arith, lookup-insert k k f m, eq_refl k)

-- A default is put in only where its key is missing.
module _ (k : Str) (f : Filter) (m : FilterMap) (fits : IsWellFormed k f) where
  abbrev or_default : FilterMap
  or_default = if has k m then m else insert k f m

  or_default-has_self : has k or_default ≡ true
  or_default-has_self = ground (arith, has-insert_self k f m)

  or_default-has : (j : Str) → has j m ≡ true → has j or_default ≡ true
  or_default-has j h = ground (arith, has-insert k j f m)

  or_default-AllWellFormed : AllWellFormed m → AllWellFormed or_default
  or_default-AllWellFormed h = elim (Bool-cases (has k m)) [
    | inl there ↦ rw there h
    | inr missing ↦ rw missing (Entries-insert IsWellFormed k f m fits h)
  ]

module _ (m : FilterMap) where
  -- The defaults complete a map of well-formed filters.
  apply_default_filters-IsComplete : AllWellFormed m → IsComplete (apply_default_filters m)
  unfolding apply_default_filters
  apply_default_filters-IsComplete h = record {
    well_formed = or_default-AllWellFormed sort_query _ _ fs (
        or_default-AllWellFormed offset_query _ _ fo
          (or_default-AllWellFormed limit_query _ m fl h));
    limited =
        or_default-has sort_query _ _ fs limit_query
          (or_default-has offset_query _ _ fo limit_query (or_default-has_self limit_query _ m fl));
    offsetted =
        or_default-has sort_query _ _ fs offset_query (or_default-has_self offset_query _ _ fo);
    sorted = or_default-has_self sort_query _ _ fs;
  }
    where
      fl :
          IsWellFormed limit_query
            (limit (record { raw_param = codes "limit"; raw_values = codes "20" ∷ [] }) 20)
      fl = record { named = refl; kind = refl; bounded = omega arith }

      fo :
          IsWellFormed offset_query
            (offset (record { raw_param = codes "offset"; raw_values = codes "0" ∷ [] }) 0)
      fo = record { named = refl; kind = refl; bounded = omega arith }

      fs : IsWellFormed sort_query (sort (record { raw_param = codes "sort"; raw_values = [] }) [])
      fs = record { named = refl; kind = refl; bounded = tt }

module _ (parse_float32 : Str → Option ℕ) where
  parse_params-Ensures :
      (params : Params) (m : FilterMap)
      → AllWellFormed m
      → Ensures AllWellFormed IsInput (parse_params parse_float32 params m)
  unfolding parse_params
  parse_params-Ensures [] m h = h
  parse_params-Ensures ((param, raws) ∷ rest) m h =
      go (parse_filter parse_float32 param raws) (parse_filter-Ensures parse_float32 param raws)
        (parse_params-Ensures rest)
    where
      go :
          (r : Parsed Filter)
          → Ensures (IsWellFormed (to_lower param)) IsInput r
          → ((m' : FilterMap)
              → AllWellFormed m'
              → Ensures AllWellFormed IsInput (parse_params parse_float32 rest m'))
          → Ensures AllWellFormed IsInput (elim r [
            | err e ↦ err e
            | ok f ↦ parse_params parse_float32 rest (insert (raw_query_name f) f m)
          ])
      go (err e) i ih = i
      go (ok f) w ih =
          ih (insert (raw_query_name f) f m)
            (Entries-insert IsWellFormed (raw_query_name f) f m (rw w.named w) h)

  -- The middleware fails with an error of the input, or its map is complete: every filter stands
  -- under its own name, is of the kind of that name and within its bounds, and there are a limit, an
  -- offset and a sort.
  pub filterer-Ensures :
      (params : Params) → Ensures IsComplete IsInput (filterer parse_float32 params)
  unfolding filterer lookup
  filterer-Ensures params =
      Ensures-bind IsComplete IsInput AllWellFormed (parse_params parse_float32 params []) _
        (parse_params-Ensures params [] (λ k f e. cc)) (λ m h. apply_default_filters-IsComplete m h)
