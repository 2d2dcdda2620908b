-- ===== src/Pyxis/Api/Pages.antt =====
-- The loops over the pages of Pyxis: that they end, and which pages they read.
use mathlib.Core.Path.{subst}
use vuln4shift_backend.Prelude.{
  ℕ, zero, suc, ◌+◌, ◌-◌, ◌*◌, ◌≤◌, ◌<◌, ◌≡◌, refl, inl, inr, true, false, Option, some, List, [],
  ◌∷◌, arith, nat_beq, ltb, if◌then◌else◌, Str, Result, ok, err, Result-cases, Bool-cases, ◌>>=◌,
}
use vuln4shift_backend.Pyxis.Api.{
  Page, ApiError, get_total_pages, page_url, after_page, page_loop, fetch_pages,
}

pub get_total_pages-le : (a b : ℕ) → a ≤ b → get_total_pages a ≤ get_total_pages b
unfolding get_total_pages
get_total_pages-le a b h = ground arith

-- The pages hold all the items, and one page less would not hold them, but for no items, which have
-- one page too.
pub get_total_pages-fits :
    (n : ℕ)
    → (n ≤ get_total_pages n * 500)
      × (get_total_pages n * 500 < n + 500 + (if nat_beq n 0 then 1 else 0))
unfolding get_total_pages
get_total_pages-fits n = ground arith

module _ {W F A M : Type 0} (fetch : Str → W → W × Result F (Page A))
    (add : List A → M → Result (ApiError F) M) (url : Str) where
  -- `Fetched page total_pages w pages w'`: from a state of the loop, the pages that are read until
  -- it ends, with what each of them carries.
  pub data Fetched : ℕ → ℕ → W → List (List A) → W → Type 0 where
    finished :
        {page total_pages : ℕ} {w : W}
        → ltb page total_pages ≡ false
        → Fetched page total_pages w [] w
    next :
        {page total_pages : ℕ} {w w' : W} {pages : List (List A)} (response : Page A)
        → ltb page total_pages ≡ true
        → (fetch (page_url url page) w).1 ≡ ok response
        → Fetched
            (suc page)
            (get_total_pages response.total)
            (fetch (page_url url page) w).0
            pages
            w'
        → Fetched page total_pages w (response.data_ ∷ pages) w'

  unfoldable pub add_all : List (List A) → M → Result (ApiError F) M
  add_all [] m = ok m
  add_all (data_ ∷ pages) m = add data_ m >>= add_all pages

  abbrev Loop : Type 0
  Loop = ℕ → ℕ → M → W → Option (W × Result (ApiError F) M)

  after_page-eq-ok :
      (page : ℕ) (loop : Loop) (m : M) (r : W × Result F (Page A)) (w' : W) (m' : M)
      → after_page fetch add url page loop m r ≡ some (w', ok m')
      → (response : Page A) × (r.1 ≡ ok response)
        × (m1 : M) × (add response.data_ m ≡ ok m1)
        × (loop (suc page) (get_total_pages response.total) m1 r.0 ≡ some (w', ok m'))
  unfolding after_page
  after_page-eq-ok page loop m (w, err x) w' m' e = ground arith
  after_page-eq-ok page loop m (w, ok response) w' m' e =
      elim (Result-cases (add response.data_ m)) [
        | inl (m1, added) ↦ (response, refl, m1, added, ground arith)
        | inr (x, failed) ↦ ground arith
      ]

  -- A loop that ends with no error has read pages up to the total that the last of them gave, and
  -- has added each of them in order.
  pub page_loop-Fetched :
      (fuel page total_pages : ℕ) (m : M) (w w' : W) (m' : M)
      → page_loop fetch add url fuel page total_pages m w ≡ some (w', ok m')
      → (pages : List (List A)) × Fetched page total_pages w pages w' × (add_all pages m ≡ ok m')
  unfolding page_loop add_all
  page_loop-Fetched zero page total_pages m w w' m' e = cc
  page_loop-Fetched (suc fuel) page total_pages m w w' m' e =
      elim (Bool-cases (ltb page total_pages)) [
        | inr stop ↦
            let same : w ≡ w' = ground arith in
            ([], subst (λ v. Fetched page total_pages w [] v) same (finished stop), ground arith)
        | inl go ↦
            let (response, got, m1, added, rest) =
              after_page-eq-ok page (page_loop fetch add url fuel) m (fetch (page_url url page) w)
                w' m' (ground arith) in
            let (pages, fetched, all) = page_loop-Fetched fuel _ _ m1 _ w' m' rest in
            (response.data_ ∷ pages, next response go got fetched, ground arith)
      ]

  abbrev pub Returns : Option (W × Result (ApiError F) M) → Type 0
  Returns o = (r : W × Result (ApiError F) M) × (o ≡ some r)

  after_page-Returns :
      (page : ℕ) (loop : Loop) (m : M) (r : W × Result F (Page A))
      → ((response : Page A) (m1 : M)
          → r.1 ≡ ok response
          → Returns (loop (suc page) (get_total_pages response.total) m1 r.0))
      → Returns (after_page fetch add url page loop m r)
  unfolding after_page
  after_page-Returns page loop m (w, err x) h = (_, refl)
  after_page-Returns page loop m (w, ok response) h = elim (Result-cases (add response.data_ m)) [
    | inl (m1, added) ↦ let (r, e) = h response m1 refl in (r, ground arith)
    | inr (x, failed) ↦ ((w, err x), ground arith)
  ]

  module _ (bound : ℕ)
      (bounded : (u : Str) (w : W) (response : Page A)
        → (fetch u w).1 ≡ ok response
        → response.total ≤ bound) where
    page_loop-Returns :
        (fuel page total_pages : ℕ) (m : M) (w : W)
        → total_pages ≤ get_total_pages bound
        → get_total_pages bound - page < fuel
        → Returns (page_loop fetch add url fuel page total_pages m w)
    unfolding page_loop
    page_loop-Returns zero page total_pages m w h k = absurd (omega (arith, k))
    page_loop-Returns (suc fuel) page total_pages m w h k =
        elim (Bool-cases (ltb page total_pages)) [
          | inr stop ↦ ((w, ok m), ground arith)
          | inl go ↦
              let lt : page < total_pages = ground arith in
              let (r, e) =
                after_page-Returns page (page_loop fetch add url fuel) m
                  (fetch (page_url url page) w)
                  (λ response m1 got.
                    page_loop-Returns fuel (suc page) _ m1 _
                      (get_total_pages-le response.total bound (bounded _ _ response got))
                      (omega (arith, k, lt, h))) in
              (r, ground arith)
        ]

    -- If no reply gives a total above `bound`, the loop over the pages returns with fuel for two
    -- rounds more than `bound` items have pages, whether its requests succeed or not.
    pub fetch_pages-Returns :
        (fuel : ℕ) (m : M) (w : W)
        → get_total_pages bound + 2 ≤ fuel
        → Returns (fetch_pages fetch add url fuel m w)
    unfolding fetch_pages page_loop
    fetch_pages-Returns zero m w h = absurd (omega (arith, h))
    fetch_pages-Returns (suc fuel) m w h =
        after_page-Returns 0 (page_loop fetch add url fuel) m (fetch (page_url url 0) w)
          λ response m1 got.
            page_loop-Returns fuel 1 _ m1 _
              (get_total_pages-le response.total bound (bounded _ _ response got))
              (omega (arith, h))
