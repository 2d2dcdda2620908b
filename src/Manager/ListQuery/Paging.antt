-- ===== src/Manager/ListQuery/Paging.antt =====
-- The page of a listing: its size is bounded, and only a report has none.
use vuln4shift_backend.Prelude.{
  ℕ, ◌≤◌, ◌≡◌, refl, inl, inr, Bool, false, Option, none, some, List, [], ◌∷◌, arith, Option-cases,
  if◌then◌else◌, Str, str_eq, Result, ok, err, Result-cases,
}
use vuln4shift_backend.Prelude.GoMap.{lookup, insert_all}
use vuln4shift_backend.Manager.Filters.{
  Filter, RawFilter, limit, report, limit_query, offset_query, sort_query, report_query,
}
use vuln4shift_backend.Manager.FilterParser.Kinds.{IsWellFormed}
use vuln4shift_backend.Manager.Filterer.Entries.{AllWellFormed, IsComplete}
use vuln4shift_backend.Manager.Query.{Query, Args, FilterMap, apply_filters}
use vuln4shift_backend.Manager.Query.Paging.{
  Limits, limit_after, limit_after_all, apply_filters-limit,
}
use vuln4shift_backend.Manager.ListQuery.{
  paging_filters, page, listed, found, fetch, bad_input, bad_database, list_query,
}

-- Whether the request asks for a report.
abbrev flag : Filter → Bool
flag (report _ b) = b
flag _ = false

abbrev pub is_report : FilterMap → Bool
is_report m = elim (lookup report_query m) [ none ↦ false | some f ↦ flag f ]

limit_at :
    (f : Filter)
    → IsWellFormed limit_query f
    → (r : RawFilter) × (n : ℕ) × (f ≡ limit r n) × (n ≤ 100)
limit_at (limit r n) h = (r, n, refl, h.bounded)
limit_at _ h = absurd (ground arith)

module _ (f : Filter) (o : Option ℕ) where
  sort_keeps : IsWellFormed sort_query f → limit_after f o ≡ o
  sort_keeps h = ground arith

  offset_keeps : IsWellFormed offset_query f → limit_after f o ≡ o
  offset_keeps h = ground arith

  report_cancels : IsWellFormed report_query f → limit_after f o ≡ (if flag f then none else o)
  report_cancels h = ground arith

module _ (m : FilterMap) (w : AllWellFormed m) (o : Option ℕ) where
  at_report :
      (l : Option ℕ) → limit_after_all (report_query ∷ []) m l ≡ (if is_report m then none else l)
  at_report l = elim (Option-cases (lookup report_query m)) [
    | inl e ↦ ground arith
    | inr (f, e) ↦ ground (arith, report_cancels f l (w report_query f e))
  ]

  at_offset :
      (l : Option ℕ)
      → limit_after_all (offset_query ∷ report_query ∷ []) m l ≡ (if is_report m then none else l)
  at_offset l = elim (Option-cases (lookup offset_query m)) [
    | inl e ↦ rw (e, limit_after_all) (at_report l)
    | inr (f, e) ↦ ground (arith, offset_keeps f l (w offset_query f e), at_report l)
  ]

  at_limit :
      (r : RawFilter) (n : ℕ)
      → lookup limit_query m ≡ some (limit r n)
      → (l : Option ℕ)
      → limit_after_all (limit_query ∷ offset_query ∷ report_query ∷ []) m l
        ≡ (if is_report m then none else some n)
  at_limit r n e l = ground (arith, at_offset (some n))

  at_sort :
      (r : RawFilter) (n : ℕ)
      → lookup limit_query m ≡ some (limit r n)
      → limit_after_all paging_filters m o ≡ (if is_report m then none else some n)
  at_sort r n e = elim (Option-cases (lookup sort_query m)) [
    | inl absent ↦ ground (arith, at_limit r n e o)
    | inr (f, there) ↦ ground (arith, sort_keeps f o (w sort_query f there), at_limit r n e o)
  ]

requested_limit :
    (m : FilterMap)
    → IsComplete m
    → (r : RawFilter) × (n : ℕ) × (lookup limit_query m ≡ some (limit r n)) × (n ≤ 100)
requested_limit m c = elim (Option-cases (lookup limit_query m)) [
  | inl e ↦ absurd (ground (arith, c.limited))
  | inr (f, e) ↦
      let (r, n, is, le) = limit_at f (c.well_formed limit_query f e) in (r, n, ground arith, le)
]

module _ (g : Limits) {E Row : Type 0} (count : Query → Result E ℕ)
    (find : Option (Query → Result E (List Row))) where
  open g use {limit_of}

  found-query :
      (used : FilterMap) (total : ℕ) (tx : Query) (r : Result E (List Row))
      → (found count find used total tx r).query ≡ tx
  unfolding found listed bad_database
  found-query used total tx (ok rows) = refl
  found-query used total tx (err e) = refl

  fetch-query :
      (used : FilterMap) (total : ℕ) (tx : Query) → (fetch count find used total tx).query ≡ tx
  unfolding fetch listed
  fetch-query used total tx = elim (Option-cases find) [
    | inl e ↦ ground (arith, e)
    | inr (run, e) ↦ ground (arith, e, found-query used total tx (run tx))
  ]

  page-limit :
      (m : FilterMap) (args : Args) (used : FilterMap) (total n : ℕ) (r : RawFilter) (tx : Query)
      → AllWellFormed m
      → lookup limit_query m ≡ some (limit r n)
      → (page count find m args used total tx).input_error ≡ none
      → limit_of (page count find m args used total tx).query
        ≡ (if is_report m then none else some n)
  unfolding page bad_input
  page-limit m args used total n r tx w e h =
      elim (Result-cases (apply_filters tx paging_filters m args).1) [
        | inl (uf, good) ↦ ground (
          arith,
          apply_filters-limit g tx paging_filters m args uf w good,
          at_sort m w (limit_of tx) r n e,
          fetch-query (insert_all uf used) total (apply_filters tx paging_filters m args).0,
        )
        | inr (x, bad) ↦ ground arith
      ]

  -- A listing, with or without a result to fetch, that ends with no error and is of filters that the
  -- middleware completed, is limited to the
  -- requested number of rows, at most 100; only a request for a report has no limit.
  pub list_query-limit :
      (tx : Query) (allowed : List Str) (m : FilterMap) (args : Args)
      → IsComplete m
      → (list_query count find tx allowed m args).input_error ≡ none
      → (list_query count find tx allowed m args).db_error ≡ none
      → (r : RawFilter) × (n : ℕ) × (lookup limit_query m ≡ some (limit r n))
        × (n ≤ 100)
        × (limit_of (list_query count find tx allowed m args).query
            ≡ (if is_report m then none else some n))
  unfolding list_query bad_input bad_database
  list_query-limit tx allowed m args c hi hd =
      let (r, n, at, le) = requested_limit m c in
      (
        r,
        n,
        at,
        le,
        elim (Result-cases (apply_filters tx allowed m args).1) [
          | inr (x, bad) ↦ ground arith
          | inl (uf, good) ↦
              let tx' = (apply_filters tx allowed m args).0 in
              elim (Result-cases (count tx')) [
                | inr (x, bad) ↦ ground arith
                | inl (total, counted) ↦
                    ground
                      (arith, page-limit m args (insert_all uf []) total n r tx' c.well_formed at)
              ]
        ],
      )
