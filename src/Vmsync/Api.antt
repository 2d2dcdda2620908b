-- ===== src/Vmsync/Api.antt =====
-- The requests to VMaaS (vmsync/api.go).
pub mod Pages
use vuln4shift_backend.Prelude.{
  ℕ, zero, suc, ◌+◌, Bool, true, false, Option, none, some, List, [], ◌∷◌, ◌++◌, leb, if◌then◌else◌,
  Str, codes, str_eq, Result, ok, err,
}
use vuln4shift_backend.Prelude.GoMap.{GoMap, insert}
use vuln4shift_backend.Prelude.Sort.{sort}
use vuln4shift_backend.Client.{HttpClient, ClientError, retry_request}
use vuln4shift_backend.Strings.Order.{str_less}

pub record ApiCveRequest : Type 0 where
  pub cve_list : List Str
  pub page : ℕ
  pub page_size : ℕ
  pub rh_only : Bool
  pub errata_associated : Bool

pub record ApiCve : Type 0 where
  pub redhat_url : Str
  pub secondary_url : Str
  pub synopsis : Str
  pub impact : Str
  pub public_date : Option ℕ
  pub modified_date : Option ℕ
  pub cwe_list : List Str
  pub cvss3_score : Str
  pub cvss3_metrics : Str
  pub cvss2_score : Str
  pub cvss2_metrics : Str
  pub description : Str
  pub package_list : List Str
  pub source_package_list : List Str
  pub errata_list : List Str

-- With no negative number of pages, which is taken as none.
pub record ApiCveResponse : Type 0 where
  pub cve_list : GoMap Str ApiCve
  pub page : ℕ
  pub page_size : ℕ
  pub pages : ℕ
  pub rh_only : Bool
  pub errata_associated : Bool

abbrev pub blank_response : ApiCveResponse
blank_response = record {
  cve_list = [];
  page = 0;
  page_size = 0;
  pages = 0;
  rh_only = false;
  errata_associated = false;
}

unfoldable pub cve_request : ℕ → ℕ → ApiCveRequest
cve_request page_size page = record {
  cve_list = codes ".*" ∷ [];
  page = page;
  page_size = page_size;
  rh_only = true;
  errata_associated = true;
}

-- A page by `RetryRequest`, of whose reply the code and the error are read.
unfoldable pub fetch_cves :
    {W : Type 0}
    → HttpClient W
    → (ApiCveRequest → Option Str)
    → (Str → ApiCveResponse → ApiCveResponse × Option ClientError)
    → ℕ
    → Str
    → ApiCveRequest
    → W
    → W × Result ClientError ApiCveResponse
fetch_cves http encode decode retries url request w =
    let (w', reply) =
      retry_request http encode decode retries (codes "POST") url (some request) blank_response w in
    (w', elim reply.error [ none ↦ ok reply.response | some e ↦ err e ])

-- The names in the order in which they came, and the CVE of each.
abbrev pub Fetched : Type 0
Fetched = List Str × GoMap Str ApiCve

-- The loop over the CVEs of a page.
unfoldable pub add_page : GoMap Str ApiCve → Fetched → Fetched
add_page [] (list, m) = (list, m)
add_page ((name, cve) ∷ cves) (list, m) = add_page cves (list ++ name ∷ [], insert name cve m)

module _ {W F : Type 0} (fetch : ApiCveRequest → W → W × Result F ApiCveResponse)
    (page_size : ℕ) where
  after_reply :
      (ℕ → Fetched → W → Option (W × Result F Fetched))
      → Fetched
      → W × Result F ApiCveResponse
      → Option (W × Result F Fetched)
  after_reply loop got (w, err e) = some (w, err e)
  after_reply loop got (w, ok response) = loop response.pages (add_page response.cve_list got) w

  -- `none` when the fuel runs out.
  unfoldable pub cve_loop : ℕ → ℕ → ℕ → Fetched → W → Option (W × Result F Fetched)
  unfolding after_reply add_page
  cve_loop zero page total_pages got w = none
  cve_loop (suc fuel) page total_pages got w =
      let rest =
        after_reply (cve_loop fuel (suc page)) got (fetch (cve_request page_size page) w) in
      if leb page total_pages then rest else some (w, ok got)

  -- `getAPICves`
  sort_list : W × Result F Fetched → W × Result F Fetched
  sort_list (w, ok (list, m)) = (w, ok (sort str_less list, m))
  sort_list (w, err e) = (w, err e)

  unfoldable pub get_api_cves : ℕ → W → Option (W × Result F Fetched)
  unfolding cve_loop sort_list
  get_api_cves fuel w = elim (cve_loop fuel 1 9999 ([], []) w) [
    | none ↦ none
    | some r ↦ some (sort_list r)
  ]
