-- ===== src/Vmsync/Sync/Written.antt =====
-- Which rows the database has after the CVEs of a reply are written.
use vuln4shift_backend.Prelude.{
  ℕ, ◌≡◌, refl, sym, ◌∙◌, ap, ◌⊎◌, inl, inr, true, false, Option, some, List, [], ◌∷◌, map, arith,
  nat_eq, Str, str_eq, contains, Result, ok, err,
}
use vuln4shift_backend.Prelude.Action.{bind-eq-ok}
use vuln4shift_backend.Prelude.GoMap.{GoMap, lookup}
use vuln4shift_backend.Models.{Cve}
use vuln4shift_backend.Vmsync.Api.{ApiCve}
use vuln4shift_backend.Vmsync.Sync.{
  Database, or_blank, cve_row, forget, rows_to_sync, close, transact, insert_update_cves, sync_cves,
}
use vuln4shift_backend.Vmsync.Sync.Pruned.{PruneLaws}

abbrev pub In : Cve → List Cve → Type 0
In row [] = ⊥
In row (r ∷ rows) = (r ≡ row) ⊎ In row rows

abbrev pub row_names : List Cve → List Str
row_names rows = map (λ row. row.name) rows

-- What a database is taken to do with the columns of its CVEs: `stored` is the row of a name, its ID
-- and its exploit data apart. A batch that is created leaves under each of its names one of its rows.
pub record WriteLaws {D E : Type 0} (db : Database D E) (laws : PruneLaws db) : Type 0 where
  pub stored : D → Str → Option Cve
  pub begun_stored : (d : D) (n : Str) → stored (db.begin_ d) n ≡ stored d n
  pub committed_stored :
      (d d' : D) → db.commit d ≡ (d', ok tt) → (n : Str) → stored d' n ≡ stored d n
  pub created :
      (rows : List Cve) (d d' : D)
      → db.create_in_batches rows d ≡ (d', ok tt)
      → (n : Str) → contains (row_names rows) n ≡ true
      → (row : Cve) × In row rows × (row.name ≡ n) × (stored d' n ≡ some row)
  pub untouched :
      (rows : List Cve) (d d' : D)
      → db.create_in_batches rows d ≡ (d', ok tt)
      → (n : Str) → contains (row_names rows) n ≡ false
      → stored d' n ≡ stored d n
  pub none_lost :
      (rows : List Cve) (d d' : D)
      → db.create_in_batches rows d ≡ (d', ok tt)
      → (i : ℕ)
      → (laws.has_cve d i ≡ true → laws.has_cve d' i ≡ true)
        × (laws.affects d' i ≡ laws.affects d i)

-- After the rows are written from `d`: each name of the reply has the row of its data, the rows of the
-- other names are as they were, and no CVE and no link is lost.
pub record IsWritten {D E : Type 0} (db : Database D E) (laws : PruneLaws db)
    (writes : WriteLaws db laws) (parse_float : Str → Option ℕ) (names : List Str)
    (api : GoMap Str ApiCve) (d d' : D) : Type 0 where
  pub written :
      (n : Str)
      → contains names n ≡ true
      → writes.stored d' n ≡ some (cve_row parse_float n (or_blank (lookup n api)))
  pub others : (n : Str) → contains names n ≡ false → writes.stored d' n ≡ writes.stored d n
  pub kept : (i : ℕ) → laws.has_cve d i ≡ true → laws.has_cve d' i ≡ true
  pub linked : (i : ℕ) → laws.affects d' i ≡ laws.affects d i

module _ (parse_float : Str → Option ℕ) (api : GoMap Str ApiCve) where
  abbrev row_of : Str → Cve
  row_of n = cve_row parse_float n (or_blank (lookup n api))

  names-rows_to_sync :
      (names : List Str) (m : GoMap Str Cve) (n : Str)
      → contains (row_names (rows_to_sync parse_float names api m).0) n ≡ contains names n
  unfolding rows_to_sync cve_row
  names-rows_to_sync [] m n = refl
  names-rows_to_sync (name ∷ names) m n =
      ground (arith, names-rows_to_sync names (forget parse_float name m) n)

  In-rows_to_sync :
      (names : List Str) (m : GoMap Str Cve) (row : Cve)
      → In row (rows_to_sync parse_float names api m).0
      → row ≡ row_of row.name
  unfolding rows_to_sync
  In-rows_to_sync [] m row h = absurd h
  In-rows_to_sync (name ∷ names) m row (inl e) =
      sym e ∙ unfold cve_row in ap (λ (r : Cve). row_of r.name) e
  In-rows_to_sync (name ∷ names) m row (inr h) = In-rows_to_sync names _ row h

module _ {D E : Type 0} (db : Database D E) (laws : PruneLaws db) (writes : WriteLaws db laws)
    (parse_float : Str → Option ℕ) (names : List Str) (api : GoMap Str ApiCve)
    (m : GoMap Str Cve) where
  abbrev rows : List Cve
  rows = (rows_to_sync parse_float names api m).0

  close-eq-ok : (r : D × Result E (Unit {0})) (d' : D) → close db r ≡ (d', ok tt) → r ≡ (d', ok tt)
  unfolding close
  close-eq-ok (d, ok u) d' e = e
  close-eq-ok (d, err x) d' e = ground (arith, e)

  abbrev Written : D → D → Type 0
  Written = IsWritten db laws writes parse_float names api

  -- A batch with the rows' names and members, which is created.
  create-IsWritten :
      (batch : List Cve) (d d' : D)
      → ((n : Str) → contains (row_names batch) n ≡ contains names n)
      → ((row : Cve) → In row batch → row ≡ row_of parse_float api row.name)
      → db.create_in_batches batch d ≡ (d', ok tt)
      → Written d d'
  create-IsWritten batch d d' same from e = record {
    written = λ n h.
        let (row, there, named, stored) = writes.created batch d d' e n (same n ∙ h) in
        stored ∙ ap some (from row there ∙ ap (row_of parse_float api) named);
    others = λ n h. writes.untouched batch d d' e n (same n ∙ h);
    kept = λ i. (writes.none_lost batch d d' e i).0;
    linked = λ i. (writes.none_lost batch d d' e i).1;
  }

  insert_update_cves-IsWritten :
      (batch : List Cve) (d d' : D)
      → ((n : Str) → contains (row_names batch) n ≡ contains names n)
      → ((row : Cve) → In row batch → row ≡ row_of parse_float api row.name)
      → insert_update_cves db batch d ≡ (d', ok tt)
      → Written d d'
  unfolding insert_update_cves
  insert_update_cves-IsWritten [] d d' same from e = record {
    written = λ n h. ground (arith, same n, h);
    others = λ n h. ap (λ r. writes.stored r.0 n) (sym e);
    kept = λ i h. ap (λ r. laws.has_cve r.0 i) (sym e) ∙ h;
    linked = λ i. ap (λ r. laws.affects r.0 i) (sym e);
  }
  insert_update_cves-IsWritten (row ∷ batch) d d' same from e =
      create-IsWritten (row ∷ batch) d d' same from e

  -- The beginning and the commit change nothing that is seen.
  around-IsWritten :
      (d d1 d' : D) → Written (db.begin_ d) d1 → db.commit d1 ≡ (d', ok tt) → Written d d'
  around-IsWritten d d1 d' w e = record {
    written = λ n h. writes.committed_stored d1 d' e n ∙ w.written n h;
    others = λ n h. writes.committed_stored d1 d' e n ∙ w.others n h ∙ writes.begun_stored d n;
    kept = λ i h. (laws.committed d1 d' e i).0 ∙ w.kept i ((laws.begun d i).0 ∙ h);
    linked = λ i. (laws.committed d1 d' e i).1 ∙ w.linked i ∙ (laws.begun d i).1;
  }

  -- If the CVEs of a reply are written with no error, each of its names has the row of its data, the
  -- rows of other names are as before, and no CVE and no link is lost.
  pub sync_cves-IsWritten : (d d' : D) → sync_cves db rows d ≡ (d', ok tt) → Written d d'
  unfolding sync_cves transact
  sync_cves-IsWritten d d' e =
      let write = insert_update_cves db rows (db.begin_ d) in
      let (u, written, then) = bind-eq-ok write (λ _. db.commit) d' tt (close-eq-ok _ d' e) in
      around-IsWritten d write.0 d'
        (insert_update_cves-IsWritten rows (db.begin_ d) write.0
          (names-rows_to_sync parse_float api names m) (In-rows_to_sync parse_float api names m)
          written)
        then
