-- ===== src/Amsclient/Details/Again.antt =====
-- Fetching the details of an account's clusters a second time, from the rows that the first run saved.
use vuln4shift_backend.Prelude.{
  ℕ, ◌≡◌, refl, sym, ap, ◌∙◌, inl, inr, true, false, Bool-cases, Option, none, some, List, [], ◌∷◌,
  ◌++◌, map, append_assoc, arith, nat_eq, ◌==◌, contains, IsDistinct, Str, str_eq, eq_sound,
  if◌then◌else◌, Result, ok, err,
}
use vuln4shift_backend.Prelude.Action.{Action, pure, bind-eq-ok}
use vuln4shift_backend.Prelude.GoMap.{GoMap, lookup}
use vuln4shift_backend.Models.{ClusterLight}
use vuln4shift_backend.Amsclient.{ClusterInfo}
use vuln4shift_backend.Amsclient.Details.{
  empty_to_na, provider_str, differs, with_info, Details, no_details, add_info, save_info, sync_row,
  sync_rows, DetailsError, lifted, from_service, with_rows, db_fetch_cluster_details,
}
use vuln4shift_backend.Amsclient.Details.Settled.{settled_by, settled, sync_rows-settled}

abbrev pub ids : List ClusterLight → List ℕ
ids rows = map (λ row. row.id) rows

-- The rows with one of them replaced, by its ID.
abbrev pub replaced : ClusterLight → List ClusterLight → List ClusterLight
replaced new [] = []
replaced new (row ∷ rows) = if row.id == new.id then new ∷ rows else row ∷ replaced new rows

-- What a database is taken to do: it has the clusters of the account, in the order of their IDs, a
-- query finds them and changes nothing, and a saved row replaces that of its ID.
pub record SaveLaws {D E : Type 0} (find : D → D × Result E (List ClusterLight))
    (save : ClusterLight → D → D × Result E (Unit {0})) : Type 0 where
  pub clusters : D → List ClusterLight
  pub distinct : (d : D) → IsDistinct (ids (clusters d))
  pub found :
      (d d' : D) (rows : List ClusterLight)
      → find d ≡ (d', ok rows)
      → (rows ≡ clusters d) × (clusters d' ≡ clusters d)
  pub saved :
      (row : ClusterLight) (d d' : D)
      → save row d ≡ (d', ok tt)
      → clusters d' ≡ replaced row (clusters d)

with_info-same :
    (info : ClusterInfo) (row : ClusterLight) → differs row info ≡ false → with_info info row ≡ row
unfolding differs with_info
with_info-same info row h = ground (
  arith,
  h,
  eq_sound row.display_name info.display_name,
  eq_sound row.status (empty_to_na info.status),
  eq_sound row.type_ (empty_to_na info.type_),
  eq_sound row.version (empty_to_na info.version),
  eq_sound row.provider (provider_str info),
)

settled_by-id : (o : Option ClusterInfo) (row : ClusterLight) → (settled_by o row).id ≡ row.id
unfolding with_info
settled_by-id none row = refl
settled_by-id (some info) row = refl

module _ (row new : ClusterLight) (same : new.id ≡ row.id) (todo : List ClusterLight) where
  replaced-append :
      (pre : List ClusterLight)
      → IsDistinct (ids (pre ++ row ∷ todo))
      → replaced new (pre ++ row ∷ todo) ≡ pre ++ new ∷ todo
  replaced-append [] h = ground (arith, same)
  replaced-append (r ∷ pre) (h, hs) = ground (arith, same, h, there pre, replaced-append pre hs)
    where
      there : (l : List ClusterLight) → contains (ids (l ++ row ∷ todo)) row.id ≡ true
      there [] = ground arith
      there (x ∷ l) = ground (arith, there l)

  ids-append : (pre : List ClusterLight) → ids ((pre ++ new ∷ []) ++ todo) ≡ ids (pre ++ row ∷ todo)
  ids-append [] = ap (λ i. i ∷ ids todo) same
  ids-append (r ∷ pre) = ap (λ l. r.id ∷ l) (ids-append pre)

module _ {D E : Type 0} (find : D → D × Result E (List ClusterLight))
    (save : ClusterLight → D → D × Result E (Unit {0})) (laws : SaveLaws find save) where
  open laws use {clusters, distinct, found, saved}

  save_info-clusters :
      (info : ClusterInfo) (row : ClusterLight) (pre todo : List ClusterLight) (d d' : D)
      → clusters d ≡ pre ++ row ∷ todo
      → IsDistinct (ids (pre ++ row ∷ todo))
      → save_info save info row d ≡ (d', ok tt)
      → clusters d' ≡ pre ++ with_info info row ∷ todo
  unfolding save_info
  save_info-clusters info row pre todo d d' at h e = elim (Bool-cases (differs row info)) [
    | inl changed ↦
        saved (with_info info row) d d' (ground (arith, e, changed))
        ∙ ap (replaced (with_info info row)) at
        ∙ replaced-append row (with_info info row) (settled_by-id (some info) row) todo pre h
    | inr same ↦
        let still : d ≡ d' = ground (arith, e, same) in
        ap clusters (sym still)
        ∙ at
        ∙ ap (λ r. pre ++ r ∷ todo) (sym (with_info-same info row same))
  ]

  sync_row-clusters :
      (o : Option ClusterInfo) (row : ClusterLight) (pre todo : List ClusterLight) (x y : Details)
      (d d' : D)
      → clusters d ≡ pre ++ row ∷ todo
      → IsDistinct (ids (pre ++ row ∷ todo))
      → sync_row save o row x d ≡ (d', ok y)
      → clusters d' ≡ pre ++ settled_by o row ∷ todo
  unfolding sync_row
  sync_row-clusters none row pre todo x y d d' at h e = ap (λ r. clusters r.0) (sym e) ∙ at
  sync_row-clusters (some info) row pre todo x y d d' at h e =
      let next : Unit {0} → Action D E Details = λ _. pure (add_info info x) in
      let (u, first, rest) = bind-eq-ok (save_info save info row d) next d' y e in
      ap (λ r. clusters r.0) (sym rest)
      ∙ save_info-clusters info row pre todo d (save_info save info row d).0 at h first

  -- The rows of the loop are, when it ends, those with their data.
  sync_rows-clusters :
      (m : GoMap Str ClusterInfo) (todo pre : List ClusterLight) (x y : Details) (d d' : D)
      → clusters d ≡ pre ++ todo
      → sync_rows save m todo x d ≡ (d', ok y)
      → clusters d' ≡ pre ++ settled m todo
  unfolding sync_rows
  sync_rows-clusters m [] pre x y d d' at e = ap (λ r. clusters r.0) (sym e) ∙ at
  sync_rows-clusters m (row ∷ todo) pre x y d d' at e =
      let o = lookup row.uuid m in
      let new = settled_by o row in
      let next : Details → Action D E Details = λ z. sync_rows save m todo z in
      let (z, first, rest) = bind-eq-ok (sync_row save o row x d) next d' y e in
      let d1 = (sync_row save o row x d).0 in
      let at1 = sync_row-clusters o row pre todo x z d d1 at (rw at at (distinct d)) first in
      sync_rows-clusters m todo (pre ++ new ∷ []) z y d1 d'
        (at1 ∙ sym (append_assoc pre (new ∷ []) todo)) rest
      ∙ append_assoc pre (new ∷ []) (settled m todo)

  module _ {F : Type 0} (m : GoMap Str ClusterInfo) where
    abbrev fetch : D → D × Result (DetailsError E F) Details
    fetch d = db_fetch_cluster_details find save true (ok m) d

    lifted-eq-ok :
        (r : D × Result E Details) (d' : D) (y : Details)
        → lifted {F = F} find save r ≡ (d', ok y)
        → r ≡ (d', ok y)
    unfolding lifted
    lifted-eq-ok (d, ok x) d' y e = ground (arith, e)
    lifted-eq-ok (d, err x) d' y e = ground (arith, e)

    with_rows-eq-ok :
        (r : D × Result E (List ClusterLight)) (d' : D) (y : Details)
        → with_rows {F = F} find save true (ok m) r ≡ (d', ok y)
        → (rows : List ClusterLight) × (r ≡ (r.0, ok rows))
          × (sync_rows save m rows no_details r.0 ≡ (d', ok y))
    unfolding with_rows from_service
    with_rows-eq-ok (d, ok rows) d' y e = (rows, refl, lifted-eq-ok _ d' y e)
    with_rows-eq-ok (d, err x) d' y e = ground (arith, e)

    again :
        (rows : List ClusterLight) (d d' : D) (y : Details)
        → sync_rows save m rows no_details d ≡ (d', ok y)
        → with_rows {F = F} find save true (ok m) (d, ok rows) ≡ (d', ok y)
    unfolding with_rows from_service lifted
    again rows d d' y e = ap (lifted {F = F} find save) e

    -- If DBFetchClusterDetails, with sync set to true and a reply of the service, ends with no error,
    -- then the clusters that a query finds afterwards are those of before with the data of the
    -- reply, and DBFetchClusterDetails with the same reply saves nothing more and returns the same
    -- details.
    pub db_fetch_cluster_details-again :
        (y : Details) (d d' d2 : D) (rows : List ClusterLight)
        → fetch d ≡ (d', ok y)
        → find d' ≡ (d2, ok rows)
        → (rows ≡ settled m (clusters d)) × (fetch d' ≡ (d2, ok y))
    unfolding db_fetch_cluster_details
    db_fetch_cluster_details-again y d d' d2 rows first second =
        let (before, queried, merged) = with_rows-eq-ok (find d) d' y first in
        let d0 = (find d).0 in
        let (all, still) = found d d0 before queried in
        let left = sync_rows-clusters m before [] no_details y d0 d' (still ∙ sym all) merged in
        let now = (found d' d2 rows second).0 ∙ left in
        (
          now ∙ ap (settled m) all,
          ap (with_rows {F = F} find save true (ok m)) second
              ∙ ap (λ l. with_rows {F = F} find save true (ok m) (d2, ok l)) now
              ∙ again (settled m before) d2 d2 y
                  (sync_rows-settled save m before no_details y d0 d' d2 merged),
        )
