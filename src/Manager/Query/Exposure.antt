-- ===== src/Manager/Query/Exposure.antt =====
-- The meaning of the `affected_clusters` filter for the number of exposed clusters of a row.
use vuln4shift_backend.Prelude.{
  ℕ, ◌≡◌, refl, Bool, true, false, not, ◌&&◌, ◌||◌, [], ◌∷◌, ◌++◌, arith, ltb, nat_beq,
  if◌then◌else◌,
}
use vuln4shift_backend.Manager.Filters.{RawFilter, affecting_clusters}
use vuln4shift_backend.Manager.Query.{
  Query, Condition, where_, exposed_eq_zero, exposed_ne_zero, exposed_gt_zero, Args,
  apply_affecting, apply_query,
}

-- The value of a condition on `COALESCE(ce, 0)`; other conditions are left open.
module _ (other : Condition → Bool) (ce : ℕ) where
  abbrev pub holds : Condition → Bool
  holds exposed_eq_zero = nat_beq ce 0
  holds exposed_ne_zero = not (nat_beq ce 0)
  holds exposed_gt_zero = ltb 0 ce
  holds c = other c

  -- Whether a query keeps the row: all its conditions hold.
  abbrev pub keeps : Query → Bool
  keeps [] = true
  keeps (where_ c ∷ tx) = holds c && keeps tx
  keeps (_ ∷ tx) = keeps tx

  keeps-append : (tx ty : Query) → keeps (tx ++ ty) ≡ (keeps tx && keeps ty)
  keeps-append [] ty = refl
  keeps-append (where_ c ∷ tx) ty = ground (arith, keeps-append tx ty)
  keeps-append (_ ∷ tx) ty = keeps-append tx ty

  -- Asking for CVEs with and without clusters, or for neither, keeps every row; asking for one kind
  -- keeps the rows of that kind.
  pub keeps-affecting :
      (r : RawFilter) (one_or_more none_affected : Bool) (args : Args) (tx : Query)
      → keeps (apply_query (affecting_clusters r one_or_more none_affected) args tx).0 ≡ (
          keeps tx
          && (if one_or_more then none_affected || ltb 0 ce else not none_affected || nat_beq ce 0))
  unfolding apply_query apply_affecting
  keeps-affecting r true true args tx = ground arith
  keeps-affecting r false false args tx = ground arith
  keeps-affecting r true false args tx = ground (
    arith,
    keeps-append (tx ++ where_ exposed_ne_zero ∷ []) (where_ exposed_gt_zero ∷ []),
    keeps-append tx (where_ exposed_ne_zero ∷ []),
  )
  keeps-affecting r false true args tx = ground (
    arith,
    keeps-append (tx ++ where_ exposed_eq_zero ∷ []) (where_ exposed_eq_zero ∷ []),
    keeps-append tx (where_ exposed_eq_zero ∷ []),
  )
