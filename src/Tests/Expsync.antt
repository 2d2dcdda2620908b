-- ===== src/Tests/Expsync.antt =====
-- A sync of exploits over a database that reads the rows of the statement at its quotes.
use vuln4shift_backend.Prelude.{
  ℕ, ◌+◌, ◌≡◌, refl, sym, ap, ◌∙◌, Bool, true, false, ◌&&◌, ◌||◌, Option, none, some, List, [], ◌∷◌,
  ◌++◌, append_assoc, arith, is_some, if◌then◌else◌, All-append, Str, codes, str_eq, nat_eq,
  Bool-cases, inl, inr, eq_sound, str_beq, ◌==◌, contains, Result, ok, err,
}
use vuln4shift_backend.Prelude.GoMap.{GoMap, lookup, AllEntries}
use vuln4shift_backend.Strings.Join.{Lacks, split, split_at, split_whole}
use vuln4shift_backend.Models.{Cve}
use vuln4shift_backend.Expsync.{
  ExploitMetadata, Exploits, FetchError, Database, value_row, update_statement, sync_exploits,
}
use vuln4shift_backend.Expsync.Statement.{separated}
use vuln4shift_backend.Expsync.Synced.{
  quote, Unquoted, or_else, names, SyncLaws, sync_exploits-data,
}

-- The texts between the quotes.
abbrev rows_of : List Str → GoMap Str Str
rows_of (before ∷ cve ∷ between ∷ json ∷ rest) = (cve, json) ∷ rows_of rest
rows_of _ = []

no_quote : (s : Str) → contains s quote ≡ false → Lacks quote s
no_quote [] e = tt
no_quote (c ∷ s) e = ground (arith, no_quote s, e)

value_row_assoc :
    (before cve json rest : Str)
    → before ++ (value_row cve json ++ rest)
      ≡ (before ++ codes "(")
        ++ (quote
            ∷ (cve
                ++ (quote
                    ∷ (codes ", " ++ (quote ∷ (json ++ (quote ∷ (codes "::jsonb)" ++ rest))))))))
unfolding value_row
value_row_assoc before cve json rest = simp append_assoc

rows_of-value_row :
    (before cve json rest : Str)
    → Lacks quote before
    → Lacks quote cve
    → Lacks quote json
    → rows_of (split quote (before ++ (value_row cve json ++ rest)))
      ≡ (cve, json) ∷ rows_of (split quote (codes "::jsonb)" ++ rest))
rows_of-value_row before cve json rest hb hc hj =
    rw
      (
        value_row_assoc before cve json rest,
        split_at quote (before ++ codes "(") _ (All-append _ before _ hb (refl, tt)),
        split_at quote cve _ hc,
        split_at quote (codes ", ") _ (refl, (refl, tt)),
        split_at quote json _ hj,
      )
      refl

rows_of-separated :
    (before : Str) (rows : GoMap Str Str) (after : Str)
    → Lacks quote before
    → AllEntries Unquoted rows
    → Lacks quote after
    → rows_of (split quote (before ++ (separated rows ++ after))) ≡ rows
unfolding separated
rows_of-separated before [] after hb h ha =
    rw (split_whole quote (before ++ after) (All-append _ before after hb ha)) refl
rows_of-separated before ((cve, json) ∷ []) after hb ((hc, hj), h) ha =
    rows_of-value_row before cve json after hb hc hj
    ∙ rw
        (split_whole quote (codes "::jsonb)" ++ after)
          (All-append _ (codes "::jsonb)") after (no_quote (codes "::jsonb)") refl) ha))
        refl
rows_of-separated before ((cve, json) ∷ row ∷ rows) after hb ((hc, hj), h) ha =
    ap (λ t. rows_of (split quote (before ++ t)))
      (append_assoc (value_row cve json) (codes ", " ++ separated (row ∷ rows)) after)
    ∙ rows_of-value_row before cve json (codes ", " ++ (separated (row ∷ rows) ++ after)) hb hc hj
    ∙ ap (λ l. (cve, json) ∷ l)
        (rows_of-separated (codes "::jsonb), ") (row ∷ rows) after
          (no_quote (codes "::jsonb), ") refl) h ha)

abbrev rows_in : Str → GoMap Str Str
rows_in text = rows_of (split quote text)

rows_in-update_statement :
    (rows : GoMap Str Str)
    → AllEntries Unquoted rows
    → rows_in (update_statement (separated rows)) ≡ rows
unfolding update_statement
rows_in-update_statement rows h =
    let head = codes "UPDATE cve SET exploit_data = exploits.data FROM (VALUES " in
    let last = codes ") AS exploits(cve, data) WHERE cve.name = exploits.cve" in
    rows_of-separated head rows last (no_quote head refl) h (no_quote last refl)

-- The exploit data of the CVEs 1 and 2, which are all that are known.
abbrev Table : Type 0
Table = Str → Option Str

abbrev known : Str → Bool
known n = codes "CVE-1-1" == n || codes "CVE-2-2" == n

abbrev row : Str → Cve
row name = record {
  id = 0;
  name = name;
  description = [];
  severity = [];
  cvss3_score = 0;
  cvss3_metrics = [];
  cvss2_score = 0;
  cvss2_metrics = [];
  public_date = none;
  modified_date = none;
  redhat_url = [];
  secondary_url = [];
  exploit_data = [];
}

abbrev at_known : Table → Table
at_known d n = if known n then d n else none

abbrev row_if : Bool → Str → List Cve → List Cve
row_if true name rows = row name ∷ rows
row_if false name rows = rows

abbrev rows_with_data : Table → List Cve
rows_with_data d =
    row_if (is_some (d (codes "CVE-1-1"))) (codes "CVE-1-1")
      (row_if (is_some (d (codes "CVE-2-2"))) (codes "CVE-2-2") [])

contains-row_if :
    (b : Bool) (name : Str) (rows : List Cve) (n : Str)
    → contains (names (row_if b name rows)) n ≡ ((b && name == n) || contains (names rows) n)
contains-row_if true name rows n = refl
contains-row_if false name rows n = refl

contains-rows_with_data :
    (d : Table) (n : Str) → contains (names (rows_with_data d)) n ≡ is_some (at_known d n)
contains-rows_with_data d n =
    let first = codes "CVE-1-1" in
    let second = codes "CVE-2-2" in
    let inner = contains-row_if (is_some (d second)) second [] n in
    let outer =
      contains-row_if (is_some (d first)) first (row_if (is_some (d second)) second []) n in
    elim (Bool-cases (first == n)) [
      | inl e ↦
          ground
            (arith, inner, outer, e, ap (λ k. is_some (d k)) (eq_sound first n e), second_case d n)
      | inr ne ↦ ground (arith, inner, outer, ne, second_case d n)
    ]
  where
    second_case :
        (d : Table) (n : Str)
        → (codes "CVE-2-2" == n) ≡ true
        → is_some (d (codes "CVE-2-2")) ≡ is_some (d n)
    second_case d n e = ap (λ k. is_some (d k)) (eq_sound (codes "CVE-2-2") n e)

abbrev table_db : Database Table ℕ
table_db = record {
  begin_ = λ d. d;
  commit = λ d. (d, ok tt);
  rollback = λ d. d;
  find_exploited = λ d. (d, ok (rows_with_data d));
  clear_exploit_data = λ cves d. ((λ n. if contains (names cves) n then none else d n), ok 0);
  exec = λ text d. ((λ n. if known n then or_else (lookup n (rows_in text)) (d n) else d n), ok 0);
}

abbrev found_rows : Result ℕ (List Cve) → List Cve
found_rows (ok cves) = cves
found_rows (err e) = []

table_laws : SyncLaws table_db
table_laws = record {
  has_cve = λ d. known;
  data_of = at_known;
  begun = λ d n. (refl, refl);
  committed = λ d d' e n. (refl, ap (λ r. at_known r.0 n) (sym e));
  found = λ cves d d' e n. (
    refl,
    ap (λ r. at_known r.0 n) (sym e),
    ap (λ r. contains (names (found_rows r.1)) n) (sym e) ∙ contains-rows_with_data d n,
  );
  cleared = λ cves d d' k e n. (refl, ap (λ r. at_known r.0 n) (sym e) ∙ ground arith);
  updated = λ rows d d' k once plain e n. (
    refl,
    ap (λ r. at_known r.0 n) (sym e)
        ∙ ground (arith, ap (lookup n) (rows_in-update_statement rows plain)),
  );
}

-- The file names the CVE 2 and one that is not known, and the CVE 1 has old data.
abbrev exploit : ExploitMetadata
exploit = record { date = codes "2024-01-01"; source = codes "CISA"; reference = codes "N/A" }

abbrev file : Exploits
file = (codes "CVE-2-2", exploit ∷ []) ∷ (codes "CVE-9-9", []) ∷ []

abbrev sources : List ExploitMetadata → Option Str
sources [] = some (codes "[]")
sources (e ∷ es) = some e.source

abbrev texts : GoMap Str Str
texts = (codes "CVE-2-2", codes "CISA") ∷ (codes "CVE-9-9", codes "[]") ∷ []

abbrev old : Table
old n = if codes "CVE-1-1" == n then some (codes "old") else none

abbrev get : ℕ → ℕ × Result FetchError Exploits
get w = (w + 1, ok file)

abbrev new : Table
new = (sync_exploits table_db sources get 0 old).1

sync_exploits-data_example :
    (known (codes "CVE-2-2") ≡ true)
    × (at_known new (codes "CVE-2-2") ≡ lookup (codes "CVE-2-2") texts)
unfolding sync_exploits str_beq lookup table_laws
sync_exploits-data_example =
    sync_exploits-data table_db table_laws sources get 0 file texts old new refl
      ((refl, refl, (refl, refl, tt))) (refl, (refl, tt))
      (
        ((no_quote (codes "CVE-2-2") refl, no_quote (codes "CISA") refl)),
        ((no_quote (codes "CVE-9-9") refl, no_quote (codes "[]") refl), tt),
      )
      refl refl (codes "CVE-2-2") refl
