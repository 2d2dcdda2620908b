-- ===== src/Manager/Query/Order.antt =====
-- What the `Sort` filter does: the user's columns first, then the controller's.
use vuln4shift_backend.Prelude.{
  ◌≡◌, sym, inl, inr, Bool, true, false, ◌&&◌, Option, none, some, List, [], ◌∷◌, ◌++◌,
  append_assoc, append-nil, arith, Option-cases, Bool-cases, if◌then◌else◌, Str, str_eq,
}
use vuln4shift_backend.Prelude.GoMap.{GoMap, lookup, has}
use vuln4shift_backend.Manager.Filters.{RawFilter, SortItem, sort}
use vuln4shift_backend.Manager.Parsers.{invalid_sort_column}
use vuln4shift_backend.Manager.Query.{
  Query, order, call, sort_args, SortArgs, Args, sort_filter_args, sort_by_user, sort_by_default,
  apply_sort, apply_query,
}

module _ (columns : GoMap Str Str) where
  -- The ORDER BY of the items whose column is listed.
  pub order_of : Option Str → Bool → Query
  order_of none desc = []
  order_of (some col) desc = order col desc ∷ []

  pub orders : List SortItem → Query
  unfolding order_of
  orders [] = []
  orders (item ∷ items) = order_of (lookup item.column columns) item.desc ++ orders items

  abbrev pub all_listed : List SortItem → Bool
  all_listed [] = true
  all_listed (item ∷ items) = has item.column columns && all_listed items

  sort_by_default_lem :
      (items : List SortItem) (tx : Query) → sort_by_default columns items tx ≡ tx ++ orders items
  unfolding sort_by_default orders
  sort_by_default_lem [] tx = sym (append-nil tx)
  sort_by_default_lem (item ∷ items) tx = elim (Option-cases (lookup item.column columns)) [
    | inl e ↦ ground (arith, sort_by_default_lem items tx)
    | inr (col, e) ↦ ground (
      arith,
      sort_by_default_lem items (call tx (order col item.desc)),
      append_assoc tx (order col item.desc ∷ []) (orders items),
    )
  ]

  sort_by_user_lem :
      (items : List SortItem) (tx : Query)
      → all_listed items ≡ true
      → sort_by_user columns items tx ≡ (tx ++ orders items, none)
  unfolding sort_by_user orders
  sort_by_user_lem [] tx h = ground (arith, append-nil tx)
  sort_by_user_lem (item ∷ items) tx h = elim (Option-cases (lookup item.column columns)) [
    | inl e ↦ ground arith
    | inr (col, e) ↦ ground (
      arith,
      sort_by_user_lem items (call tx (order col item.desc)),
      append_assoc tx (order col item.desc ∷ []) (orders items),
    )
  ]

  sort_by_user-error :
      (items : List SortItem) (tx : Query)
      → all_listed items ≡ false
      → (sort_by_user columns items tx).1 ≡ some invalid_sort_column
  unfolding sort_by_user
  sort_by_user-error [] tx h = cc
  sort_by_user-error (item ∷ items) tx h = elim (Option-cases (lookup item.column columns)) [
    | inl e ↦ ground arith
    | inr (col, e) ↦ ground (arith, sort_by_user-error items (call tx (order col item.desc)))
  ]

module _ (r : RawFilter) (items : List SortItem) (args : Args) (a : SortArgs) (tx : Query)
    (given : lookup sort_filter_args args ≡ some (sort_args a)) where
  -- With all the user's columns listed, the query is ordered by them, in their order, and then by
  -- the default columns that are listed.
  pub apply_query-sort :
      all_listed a.sortable_columns items ≡ true
      → apply_query (sort r items) args tx ≡ (
        tx ++ orders a.sortable_columns items ++ orders a.sortable_columns a.default_sortable,
        none,
      )
  unfolding apply_query apply_sort
  apply_query-sort h = ground (
    arith,
    sort_by_user_lem a.sortable_columns items tx h,
    sort_by_default_lem a.sortable_columns a.default_sortable
        (tx ++ orders a.sortable_columns items),
    append_assoc tx (orders a.sortable_columns items)
        (orders a.sortable_columns a.default_sortable),
  )

  -- The `Sort` filter fails exactly when a column of the user is not listed.
  pub apply_query-sort_error :
      (apply_query (sort r items) args tx).1
      ≡ (if all_listed a.sortable_columns items then none else some invalid_sort_column)
  unfolding apply_query apply_sort
  apply_query-sort_error = elim (Bool-cases (all_listed a.sortable_columns items)) [
    | inl good ↦ ground (arith, sort_by_user_lem a.sortable_columns items tx good)
    | inr bad ↦ ground (arith, sort_by_user-error a.sortable_columns items tx bad)
  ]
