-- ===== src/Vmsync/Api/Pages.antt =====
-- The loop over the pages of VMaaS ends, and names exactly the CVEs that it has.
use vuln4shift_backend.Prelude.{
  ℕ, zero, suc, ◌+◌, ◌≤◌, ◌≡◌, refl, ◌∙◌, Bool, true, false, Option, none, some, [], ◌∷◌, ◌++◌,
  arith, leb, if◌then◌else◌, Str, str_eq, contains, contains-append, Result, ok, err, Ensures,
}
use vuln4shift_backend.Prelude.GoMap.{GoMap, insert, lookup, lookup-insert, has}
use vuln4shift_backend.Prelude.Sort.{IsSorted, sort-IsSorted, contains-sort}
use vuln4shift_backend.Strings.Order.{str_less, str_less_asym, str_less_trans}
use vuln4shift_backend.Vmsync.Api.{
  ApiCve, ApiCveRequest, ApiCveResponse, Fetched, add_page, cve_request, after_reply, cve_loop,
  sort_list, get_api_cves,
}

-- The names are those of the map.
abbrev pub Agrees : Fetched → Type 0
Agrees (list, m) = (n : Str) → contains list n ≡ has n m

abbrev pub Anything : {F : Type 0} → F → Type 0
Anything e = Unit

-- The names are in order, and those of the map.
pub record IsListed (got : Fetched) : Type 0 where
  pub sorted : IsSorted str_less got.0
  pub agrees : Agrees got

-- A loop that returned, with a result of `P`.
abbrev pub Ended : {W F : Type 0} → (Fetched → Type 0) → Option (W × Result F Fetched) → Type 0
Ended P none = true ≡ false
Ended P (some (w, r)) = Ensures P Anything r

add_page-Agrees :
    (cves : GoMap Str ApiCve) (got : Fetched) → Agrees got → Agrees (add_page cves got)
unfolding add_page
add_page-Agrees [] (list, m) h = h
add_page-Agrees ((name, cve) ∷ cves) (list, m) h =
    add_page-Agrees cves (list ++ name ∷ [], insert name cve m)
      λ n. ground (arith, h n, contains-append list (name ∷ []) n, lookup-insert name n cve m)

module _ {W F : Type 0} (fetch : ApiCveRequest → W → W × Result F ApiCveResponse) (page_size : ℕ)
    (bound : ℕ)
    (bounded : (request : ApiCveRequest) (w : W) (response : ApiCveResponse)
      → (fetch request w).1 ≡ ok response
      → response.pages ≤ bound) where
  Ended-if :
      (P : Fetched → Type 0) (b : Bool) (r s : Option (W × Result F Fetched))
      → (b ≡ true → Ended P r)
      → (b ≡ false → Ended P s)
      → Ended P (if b then r else s)
  Ended-if P true r s h k = h refl
  Ended-if P false r s h k = k refl

  after_reply-Ended :
      (loop : ℕ → Fetched → W → Option (W × Result F Fetched)) (got : Fetched)
      (r : W × Result F ApiCveResponse)
      → Agrees got
      → ((response : ApiCveResponse) → r.1 ≡ ok response → response.pages ≤ bound)
      → ((total : ℕ) (got' : Fetched) (w' : W)
          → total ≤ bound
          → Agrees got'
          → Ended Agrees (loop total got' w'))
      → Ended Agrees (after_reply fetch page_size loop got r)
  unfolding after_reply
  after_reply-Ended loop got (w, err e) h few next = tt
  after_reply-Ended loop got (w, ok response) h few next =
      next response.pages (add_page response.cve_list got) w (few response refl)
        (add_page-Agrees response.cve_list got h)

  cve_loop-Ended :
      (fuel page total : ℕ) (got : Fetched) (w : W)
      → total ≤ bound
      → bound + 1 ≤ fuel + page
      → Agrees got
      → Ended Agrees (cve_loop fetch page_size (suc fuel) page total got w)
  unfolding cve_loop
  cve_loop-Ended zero page total got w few enough h =
      Ended-if Agrees (leb page total) _ (some (w, ok got))
        (λ more. ground (arith, more, few, enough)) λ _. h
  cve_loop-Ended (suc fuel) page total got w few enough h =
      let request = cve_request page_size page in
      Ended-if Agrees (leb page total) _ (some (w, ok got))
        (λ _.
          after_reply-Ended (cve_loop fetch page_size (suc fuel) (suc page)) got (fetch request w) h
            (bounded request w)
            λ t got' w' few' h'.
              cve_loop-Ended fuel (suc page) t got' w' few' (omega (arith, enough)) h')
        λ _. h

  cve_loop-first :
      (w : W) → Ended Agrees (cve_loop fetch page_size (suc (suc bound)) 1 9999 ([], []) w)
  unfolding cve_loop lookup
  cve_loop-first w =
      let request = cve_request page_size 1 in
      after_reply-Ended (cve_loop fetch page_size (suc bound) 2) ([], []) (fetch request w)
        (λ n. refl) (bounded request w)
        λ t got' w' few h. cve_loop-Ended bound 2 t got' w' few (omega arith) h

  sort_list-Ended :
      (r : Option (W × Result F Fetched))
      → Ended Agrees r
      → Ended IsListed (elim r [ none ↦ none | some x ↦ some (sort_list fetch page_size x) ])
  unfolding sort_list
  sort_list-Ended none h = h
  sort_list-Ended (some (w, ok (list, m))) h = record {
    sorted = sort-IsSorted str_less str_less_asym str_less_trans list;
    agrees = λ n. contains-sort str_less list n ∙ h n;
  }
  sort_list-Ended (some (w, err e)) h = tt

  -- If no reply announces more than a bound of pages, then the loop ends after at most two rounds more,
  -- and unless a request failed it returns the names in order, which are exactly those that have a CVE
  -- in the map.
  pub get_api_cves-Ended :
      (w : W) → Ended IsListed (get_api_cves fetch page_size (suc (suc bound)) w)
  unfolding get_api_cves
  get_api_cves-Ended w =
      sort_list-Ended (cve_loop fetch page_size (suc (suc bound)) 1 9999 ([], []) w)
        (cve_loop-first w)
