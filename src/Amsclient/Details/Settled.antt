-- ===== src/Amsclient/Details/Settled.antt =====
-- Merging the same data again: the rows as the merge left them, and what is then saved.
use vuln4shift_backend.Prelude.{
  ◌≡◌, refl, sym, ap, ◌∙◌, false, Option, none, some, List, [], ◌∷◌, arith, Str, str_eq, eq_refl,
  Result, ok,
}
use vuln4shift_backend.Prelude.Action.{Action, pure, continue, bind-eq-ok}
use vuln4shift_backend.Prelude.GoMap.{GoMap, lookup}
use vuln4shift_backend.Models.{ClusterLight}
use vuln4shift_backend.Amsclient.{ClusterInfo}
use vuln4shift_backend.Amsclient.Details.{
  empty_to_na, provider_str, differs, with_info, Details, add_info, save_info, sync_row, sync_rows,
}

-- A row with the data of its cluster.
abbrev pub settled_by : Option ClusterInfo → ClusterLight → ClusterLight
settled_by none row = row
settled_by (some info) row = with_info info row

abbrev pub settled : GoMap Str ClusterInfo → List ClusterLight → List ClusterLight
settled m [] = []
settled m (row ∷ rows) = settled_by (lookup row.uuid m) row ∷ settled m rows

differs-with_info :
    (info : ClusterInfo) (row : ClusterLight) → differs (with_info info row) info ≡ false
unfolding differs with_info
differs-with_info info row = ground (
  arith,
  eq_refl info.display_name,
  eq_refl (empty_to_na info.status),
  eq_refl (empty_to_na info.type_),
  eq_refl (empty_to_na info.version),
  eq_refl (provider_str info),
)

module _ {D E : Type 0} (save : ClusterLight → D → D × Result E (Unit {0})) where
  abbrev found_details : Option ClusterInfo → Details → Details
  found_details none x = x
  found_details (some info) x = add_info info x

  sync_row-result :
      (o : Option ClusterInfo) (row : ClusterLight) (x y : Details) (d d' : D)
      → sync_row save o row x d ≡ (d', ok y)
      → y ≡ found_details o x
  unfolding sync_row
  sync_row-result none row x y d d' e = ground (arith, e)
  sync_row-result (some info) row x y d d' e =
      let next : Unit {0} → Action D E Details = λ _. pure (add_info info x) in
      let (u, saved, rest) = bind-eq-ok (save_info save info row d) next d' y e in
      ground (arith, rest)

  settled_by-uuid :
      (o : Option ClusterInfo) (row : ClusterLight) → (settled_by o row).uuid ≡ row.uuid
  unfolding with_info
  settled_by-uuid none row = refl
  settled_by-uuid (some info) row = refl

  sync_row-settled :
      (o : Option ClusterInfo) (row : ClusterLight) (x : Details) (d : D)
      → sync_row save o (settled_by o row) x d ≡ (d, ok (found_details o x))
  unfolding sync_row save_info
  sync_row-settled none row x d = refl
  sync_row-settled (some info) row x d = rw (differs-with_info info row) refl

  -- If merging the data of the service into some rows ends with no error, then merging the same data
  -- into these rows with that data saves nothing and returns the same details.
  pub sync_rows-settled :
      (m : GoMap Str ClusterInfo) (rows : List ClusterLight) (x y : Details) (d d' d1 : D)
      → sync_rows save m rows x d ≡ (d', ok y)
      → sync_rows save m (settled m rows) x d1 ≡ (d1, ok y)
  unfolding sync_rows
  sync_rows-settled m [] x y d d' d1 e = ground (arith, e)
  sync_rows-settled m (row ∷ rows) x y d d' d1 e =
      let o = lookup row.uuid m in
      let next : List ClusterLight → Details → Action D E Details = λ l z. sync_rows save m l z in
      let (z, first, rest) = bind-eq-ok (sync_row save o row x d) (next rows) d' y e in
      let same = sync_row-result o row x z d _ first in
      let again =
        ap (λ u. sync_row save (lookup u m) (settled_by o row) x d1) (settled_by-uuid o row)
        ∙ sync_row-settled o row x d1
        ∙ ap (λ w. (d1, ok w)) (sym same) in
      ap (continue (next (settled m rows))) again
      ∙ sync_rows-settled m rows z y (sync_row save o row x d).0 d' d1 rest
