-- ===== src/Manager/ListQuery.antt =====
-- manager/base/query.go: a listing applies the filters, counts, pages and fetches. The database is
-- two parameters, the answers of `Count` and of `Find` to the query built so far. There is no `Find`
-- where the caller passes a nil `result`.
pub mod Paging
use vuln4shift_backend.Prelude.{ℕ, Option, none, some, List, [], ◌∷◌, Str, str_eq, Result, ok, err}
use vuln4shift_backend.Prelude.GoMap.{insert_all}
use vuln4shift_backend.Manager.Filters.{limit_query, offset_query, sort_query, report_query}
use vuln4shift_backend.Manager.Parsers.{InputError}
use vuln4shift_backend.Manager.Query.{Query, Args, FilterMap, apply_filters}

-- The named results of `ListQuery`, the query that was built and the rows that `Find` stored.
pub record Listing (E Row : Type 0) : Type 0 where
  pub used_filters : FilterMap
  pub total_items : ℕ
  pub input_error : Option InputError
  pub db_error : Option E
  pub query : Query
  pub rows : List Row

-- The report comes last, to reset the limit and the offset.
abbrev pub paging_filters : List Str
paging_filters = sort_query ∷ limit_query ∷ offset_query ∷ report_query ∷ []

module _ {E Row : Type 0} (count : Query → Result E ℕ)
    (find : Option (Query → Result E (List Row))) where
  -- Stopped by an input error, or by an error of the database.
  bad_input : FilterMap → ℕ → Query → InputError → Listing E Row
  bad_input used total tx e = record {
    used_filters = used;
    total_items = total;
    input_error = some e;
    db_error = none;
    query = tx;
    rows = [];
  }

  bad_database : FilterMap → ℕ → Query → E → Listing E Row
  bad_database used total tx e = record {
    used_filters = used;
    total_items = total;
    input_error = none;
    db_error = some e;
    query = tx;
    rows = [];
  }

  listed : FilterMap → ℕ → Query → List Row → Listing E Row
  listed used total tx rows = record {
    used_filters = used;
    total_items = total;
    input_error = none;
    db_error = none;
    query = tx;
    rows = rows;
  }

  found : FilterMap → ℕ → Query → Result E (List Row) → Listing E Row
  unfolding bad_database listed
  found used total tx (err e) = bad_database used total tx e
  found used total tx (ok rows) = listed used total tx rows

  -- `if result == nil { return }`, and the fetching of rows.
  fetch : FilterMap → ℕ → Query → Listing E Row
  unfolding listed found
  fetch used total tx = elim find [
    | none ↦ listed used total tx []
    | some run ↦ found used total tx (run tx)
  ]

  page : FilterMap → Args → FilterMap → ℕ → Query → Listing E Row
  unfolding bad_input fetch
  page filters args used total tx =
      let (tx', result) = apply_filters tx paging_filters filters args in
      elim result [
        | err e ↦ bad_input used total tx' e
        | ok uf ↦ fetch (insert_all uf used) total tx'
      ]

  unfoldable pub list_query : Query → List Str → FilterMap → Args → Listing E Row
  unfolding bad_input bad_database page
  list_query tx allowed filters args =
      let (tx', result) = apply_filters tx allowed filters args in
      elim result [
        | err e ↦ bad_input [] 0 tx' e
        | ok uf ↦
            let used = insert_all uf [] in
            elim (count tx') [
              | err e ↦ bad_database used 0 tx' e
              | ok total ↦ page filters args used total tx'
            ]
      ]
