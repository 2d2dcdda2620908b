-- ===== src/Amsclient/Pages.antt =====
-- The loop over the subscriptions ends after an empty page, with every cluster under its own ID.
use vuln4shift_backend.Prelude.{
  ℕ, zero, suc, ◌+◌, ◌<◌, ◌≡◌, ◌≢◌, refl, inl, inr, true, false, Option, none, some, List, [], ◌∷◌,
  arith, nat_beq, Bool-cases, Str, str_eq, str_beq, ◌==◌, Result, ok, err, Ensures,
}
use vuln4shift_backend.Prelude.GoMap.{GoMap, AllEntries, AllEntries-insert}
use vuln4shift_backend.Amsclient.{
  ClusterInfo, Subscription, SubscriptionPage, Service, AmsError, cluster_info, add_item, add_items,
  get_internal_org_id_from_external, after_page, subscription_loop,
  execute_subscription_list_request, list_clusters, get_clusters_for_organization,
}

-- A cluster stands under its own ID, which is not empty, and has a name.
pub record IsKeyed (key : Str) (info : ClusterInfo) : Type 0 where
  pub keyed : info.id ≡ key
  pub given : key ≢ []

not_empty : (s : Str) → (s == []) ≡ false → s ≢ []
unfolding str_beq
not_empty [] h e = ground (arith, h)
not_empty (c ∷ s) h e = ground (arith, e)

add_item-IsKeyed :
    (id : Option Str) (item : Subscription) (m : GoMap Str ClusterInfo)
    → AllEntries IsKeyed m
    → AllEntries IsKeyed (add_item id item m)
unfolding add_item cluster_info
add_item-IsKeyed none item m h = h
add_item-IsKeyed (some id) item m h = elim (Bool-cases (id == [])) [
  | inl e ↦ rw e h
  | inr ne ↦ rw ne (
      AllEntries-insert IsKeyed id (cluster_info id item) m
        (record { keyed = refl; given = not_empty id ne }) h)
]

add_items-IsKeyed :
    (items : List Subscription) (m : GoMap Str ClusterInfo)
    → AllEntries IsKeyed m
    → AllEntries IsKeyed (add_items items m)
unfolding add_items
add_items-IsKeyed [] m h = h
add_items-IsKeyed (item ∷ items) m h =
    add_items-IsKeyed items (add_item item.external_cluster_id item m)
      (add_item-IsKeyed item.external_cluster_id item m h)

abbrev pub Anything : {F : Type 0} → F → Type 0
Anything e = Unit

-- A loop that returned, with such a map if with any.
abbrev pub Ended :
    {W F : Type 0} → Option (W × Result (AmsError F) (GoMap Str ClusterInfo)) → Type 0
Ended none = true ≡ false
Ended (some (w, r)) = Ensures (AllEntries IsKeyed) Anything r

module _ {W F : Type 0} (service : Service W F) (bound : ℕ)
    (few : (search : Str) (page : ℕ) (w : W) (reply : SubscriptionPage)
      → bound < page
      → (service.subscriptions search page w).1 ≡ ok reply
      → reply.size ≡ 0) where
  after_page-Ended :
      (loop : GoMap Str ClusterInfo → W → Option (W × Result (AmsError F) (GoMap Str ClusterInfo)))
      (m : GoMap Str ClusterInfo) (r : W × Result F SubscriptionPage)
      → AllEntries IsKeyed m
      → ((page : SubscriptionPage) (w : W)
          → r.1 ≡ ok page
          → page.size ≢ 0
          → Ended (loop (add_items page.items m) w))
      → Ended (after_page service loop m r)
  unfolding after_page
  after_page-Ended loop m (w, err e) h next = tt
  after_page-Ended loop m (w, ok page) h next = elim (Bool-cases (nat_beq page.size 0)) [
    | inl last ↦ rw last h
    | inr more ↦ rw more (next page w refl (ground (arith, more)))
  ]

  subscription_loop-Ended :
      (fuel : ℕ) (search : Str) (page : ℕ) (m : GoMap Str ClusterInfo) (w : W)
      → AllEntries IsKeyed m
      → bound < fuel + page
      → Ended (subscription_loop service (suc fuel) search page m w)
  unfolding subscription_loop
  subscription_loop-Ended zero search page m w h enough =
      after_page-Ended (subscription_loop service zero search (suc page)) m
        (service.subscriptions search page w) h
        λ reply w' e more. absurd (more (few search page w reply (omega (arith, enough)) e))
  subscription_loop-Ended (suc fuel) search page m w h enough =
      after_page-Ended (subscription_loop service (suc fuel) search (suc page)) m
        (service.subscriptions search page w) h
        λ reply w' e more.
          subscription_loop-Ended fuel search (suc page) (add_items reply.items m) w'
            (add_items-IsKeyed reply.items m h) (omega (arith, enough))

  list_clusters-Ended :
      (r : W × Result (AmsError F) Str) → Ended (list_clusters service (suc bound) r)
  unfolding list_clusters execute_subscription_list_request
  list_clusters-Ended (w, err e) = tt
  list_clusters-Ended (w, ok id) = subscription_loop-Ended bound _ 1 [] w tt (omega arith)

  -- If the pages after a bound are empty, then the request for the clusters of an organization ends
  -- after at most one round more, and unless it failed every cluster stands in the map under its own ID,
  -- which is not empty.
  pub get_clusters_for_organization-Ended :
      (org_id : Str) (w : W) → Ended (get_clusters_for_organization service (suc bound) org_id w)
  unfolding get_clusters_for_organization
  get_clusters_for_organization-Ended org_id w =
      list_clusters-Ended (get_internal_org_id_from_external service org_id w)
