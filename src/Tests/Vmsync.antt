-- ===== src/Tests/Vmsync.antt =====
-- A sync with two pages of CVEs, over a database that holds the known IDs and those of images.
use vuln4shift_backend.Prelude.{
  ℕ, ◌+◌, ◌≡◌, refl, sym, ap, Bool, true, false, not, ◌&&◌, ◌||◌, ◌∙◌, inl, inr, Option, none, some,
  List, [], ◌∷◌, arith, nat_beq, nat_eq, contains, contains-select, select, Str, codes, str_eq,
  str_beq, Result, ok, err, if◌then◌else◌, ◌==◌, eq_sound, Bool-cases,
}
use vuln4shift_backend.Prelude.GoMap.{GoMap, lookup, insert, delete}
use vuln4shift_backend.Prelude.Sort.{sort}
use vuln4shift_backend.Strings.Order.{str_less}
use vuln4shift_backend.Models.{Cve}
use vuln4shift_backend.Vmsync.Api.{ApiCve, ApiCveRequest, ApiCveResponse, cve_request, get_api_cves}
use vuln4shift_backend.Vmsync.Api.Pages.{IsListed, Ended, get_api_cves-Ended}
use vuln4shift_backend.Vmsync.Sync.{Database, blank_cve, cve_row, cve_map, store_reply}
use vuln4shift_backend.Vmsync.Sync.Pruned.{PruneLaws, IsPruned}
use vuln4shift_backend.Vmsync.Sync.Written.{In, row_names, WriteLaws, IsWritten}
use vuln4shift_backend.Vmsync.Sync.Stored.{store_reply-IsPruned}

abbrev page_of : ℕ → GoMap Str ApiCve
page_of n =
    if nat_beq n 1 then (codes "CVE-2-2", blank_cve) ∷ [] else (codes "CVE-1-1", blank_cve) ∷ []

-- A server with two pages, which counts its requests.
abbrev two_pages : ApiCveRequest → ℕ → ℕ × Result ℕ ApiCveResponse
two_pages request w = (
  w + 1,
  ok (record {
    cve_list = page_of request.page;
    page = request.page;
    page_size = 1;
    pages = 2;
    rh_only = true;
    errata_associated = true;
  }),
)

abbrev pages_or_none : Result ℕ ApiCveResponse → ℕ
pages_or_none (ok r) = r.pages
pages_or_none (err e) = 0

get_api_cves-Ended_example : Ended IsListed (get_api_cves two_pages 1 4 0)
get_api_cves-Ended_example =
    get_api_cves-Ended two_pages 1 2 (λ request w response e. ground (arith, ap pages_or_none e)) 0

pages_read :
    get_api_cves two_pages 1 4 0
    ≡ some (
      2,
      ok (
        codes "CVE-1-1" ∷ codes "CVE-2-2" ∷ [],
        (codes "CVE-2-2", blank_cve) ∷ (codes "CVE-1-1", blank_cve) ∷ [],
      ),
    )
unfolding get_api_cves insert str_beq sort cve_request str_less
pages_read = refl

-- The IDs of the CVEs, whether an image has one, and the rows by their names.
abbrev Table : Type 0
Table = (ℕ → Bool) × (ℕ → Bool) × (Str → Option Cve)

-- The row that a batch leaves under a name.
abbrev upserted : List Cve → (Str → Option Cve) → Str → Option Cve
upserted [] old n = old n
upserted (row ∷ rows) old n = if row.name == n then some row else upserted rows old n

abbrev table_db : Database Table ℕ
table_db = record {
  begin_ = λ d. d;
  commit = λ d. (d, ok tt);
  rollback = λ d. d;
  find_cves = λ d. (d, ok []);
  create_in_batches = λ rows d. (((λ i. nat_beq i 9 || d.0 i), d.1, upserted rows d.2), ok tt);
  find_not_affecting = λ ids d. (d, ok (select (λ i. d.0 i && not (d.1 i)) ids));
  delete_account_caches = λ ids d. (d, ok tt);
  delete_cluster_caches = λ ids d. (d, ok tt);
  delete_image_cves = λ ids d. ((d.0, (λ i. d.1 i && not (contains ids i)), d.2), ok tt);
  delete_cves = λ ids d. (((λ i. d.0 i && not (contains ids i)), d.1, d.2), ok tt);
}

abbrev rows_or_none : Result ℕ (List ℕ) → List ℕ
rows_or_none (ok rows) = rows
rows_or_none (err e) = []

table_laws : PruneLaws table_db
table_laws = record {
  has_cve = λ d. d.0;
  affects = λ d. d.1;
  begun = λ d i. (refl, refl);
  committed = λ d d' e i. (ap (λ r. r.0.0 i) (sym e), ap (λ r. r.0.1 i) (sym e));
  found = λ asked rows d d' e i. (
    ap (λ r. r.0.0 i) (sym e),
    ap (λ r. r.0.1 i) (sym e),
    ground (
      arith,
      ap (λ r. contains (rows_or_none r.1) i) e,
      contains-select (λ i. d.0 i && not (d.1 i)) asked i,
    ),
  );
  accounts_cleared = λ rows d d' e i. (ap (λ r. r.0.0 i) (sym e), ap (λ r. r.0.1 i) (sym e));
  clusters_cleared = λ rows d d' e i. (ap (λ r. r.0.0 i) (sym e), ap (λ r. r.0.1 i) (sym e));
  unlinked = λ rows d d' e i. (ap (λ r. r.0.0 i) (sym e), ap (λ r. r.0.1 i) (sym e));
  deleted = λ rows d d' e i. (ap (λ r. r.0.0 i) (sym e), ap (λ r. r.0.1 i) (sym e));
}

upserted-new :
    (rows : List Cve) (old : Str → Option Cve) (n : Str)
    → contains (row_names rows) n ≡ true
    → (row : Cve) × In row rows × (row.name ≡ n) × (upserted rows old n ≡ some row)
upserted-new [] old n h = ground (arith, h)
upserted-new (row ∷ rows) old n h = elim (Bool-cases (row.name == n)) [
  | inl same ↦ (row, inl refl, eq_sound row.name n same, rw same refl)
  | inr other ↦
      let (r, there, named, e) = upserted-new rows old n (ground (arith, h, other)) in
      (r, inr there, named, rw other e)
]

upserted-old :
    (rows : List Cve) (old : Str → Option Cve) (n : Str)
    → contains (row_names rows) n ≡ false
    → upserted rows old n ≡ old n
upserted-old [] old n h = refl
upserted-old (row ∷ rows) old n h = ground (arith, h, upserted-old rows old n)

table_writes : WriteLaws table_db table_laws
unfolding table_laws
table_writes = record {
  stored = λ d. d.2;
  begun_stored = λ d n. refl;
  committed_stored = λ d d' e n. ap (λ r. r.0.2 n) (sym e);
  created = λ rows d d' e n h.
      let (row, there, named, new) = upserted-new rows d.2 n h in
      (row, there, named, ap (λ r. r.0.2 n) (sym e) ∙ new);
  untouched = λ rows d d' e n h. ap (λ r. r.0.2 n) (sym e) ∙ upserted-old rows d.2 n h;
  none_lost = λ rows d d' e i.
      ((λ h. ap (λ r. r.0.0 i) (sym e) ∙ ground (arith, h)), ap (λ r. r.0.1 i) (sym e));
}

abbrev known_row : ℕ → Str → Cve
known_row id name = record (cve_row (λ s. none) name blank_cve) { id = id }

-- The CVEs 1 to 3 are known, of which the reply names the first and an image has the second.
abbrev rows : List Cve
rows =
    known_row 1 (codes "CVE-1-1")
    ∷ known_row 2 (codes "CVE-3-3")
    ∷ known_row 3 (codes "CVE-4-4")
    ∷ []

abbrev names : List Str
names = codes "CVE-1-1" ∷ codes "CVE-2-2" ∷ []

abbrev api : GoMap Str ApiCve
api = (codes "CVE-1-1", blank_cve) ∷ (codes "CVE-2-2", blank_cve) ∷ []

abbrev before : Table
before = ((λ i. nat_beq i 1 || nat_beq i 2 || nat_beq i 3), (λ i. nat_beq i 2), λ n. none)

abbrev stored : Table
stored =
    (store_reply {W = ℕ} {F = ℕ} table_db two_pages 1 (λ s. none) (cve_map rows [])
      (ok (names, api)) before).0

third_gone : stored.0 3 ≡ false
unfolding store_reply lookup cve_map insert str_beq delete
third_gone = refl

store_reply-IsPruned_example :
    (d1 : Table) × IsWritten table_db table_laws table_writes (λ s. none) names api before d1
    × IsPruned table_db table_laws (cve_map rows []) names d1 stored
unfolding store_reply lookup cve_map insert str_beq delete
store_reply-IsPruned_example =
    store_reply-IsPruned table_db two_pages 1 (λ s. none) table_laws table_writes rows names api
      before stored refl
