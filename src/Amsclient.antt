-- ===== src/Amsclient.antt =====
-- The client of the account management service (manager/amsclient/amsclient.go), over the replies of
-- the library ocm-sdk-go, and the merge of its data into the clusters of the database.
pub mod Pages
pub mod Details
use vuln4shift_backend.Prelude.{
  ℕ, zero, suc, Bool, Option, none, some, List, [], ◌∷◌, ◌++◌, nat_beq, if◌then◌else◌, Str, codes,
  str_eq, ◌==◌, Result, ok, err, ◌>>=◌,
}
use vuln4shift_backend.Prelude.GoMap.{GoMap, insert}

-- `ams.ClusterInfo`
pub record ClusterInfo : Type 0 where
  pub id : Str
  pub display_name : Str
  pub status : Str
  pub type_ : Str
  pub version : Str
  pub provider : Str
  pub region : Str

-- What the getters of a subscription give.
pub record Plan : Type 0 where
  pub type_ : Option Str

pub record Metrics : Type 0 where
  pub openshift_version : Option Str
  pub cloud_provider : Option Str
  pub region : Option Str

pub record Subscription : Type 0 where
  pub external_cluster_id : Option Str
  pub display_name : Option Str
  pub status : Option Str
  pub plan : Option Plan
  pub metrics : Option (List Metrics)

pub record SubscriptionPage : Type 0 where
  pub size : ℕ
  pub items : List Subscription

abbrev pub or_default : Option Str → Str → Str
or_default none def = def
or_default (some s) def = s

abbrev pub plan_type : Option Plan → Str
plan_type none = []
plan_type (some plan) = or_default plan.type_ []

-- `metrics[0]`, if it is there.
abbrev pub first_metrics : Option (List Metrics) → Metrics
first_metrics (some (m ∷ ms)) = m
first_metrics _ = record { openshift_version = none; cloud_provider = none; region = none }

unfoldable pub cluster_info : Str → Subscription → ClusterInfo
cluster_info id item =
    let metrics = first_metrics item.metrics in
    record {
      id = id;
      display_name = or_default item.display_name id;
      status = or_default item.status [];
      type_ = plan_type item.plan;
      version = or_default metrics.openshift_version [];
      provider = or_default metrics.cloud_provider [];
      region = or_default metrics.region [];
    }

-- An item with no external ID is left out.
add_item : Option Str → Subscription → GoMap Str ClusterInfo → GoMap Str ClusterInfo
unfolding cluster_info
add_item none item m = m
add_item (some id) item m = if id == [] then m else insert id (cluster_info id item) m

unfoldable pub add_items : List Subscription → GoMap Str ClusterInfo → GoMap Str ClusterInfo
unfolding add_item
add_items [] m = m
add_items (item ∷ items) m = add_items items (add_item item.external_cluster_id item m)

-- `generateSearchParameter`, with `strings.Join`.
unfoldable pub joined : List Str → Str
joined [] = []
joined (s ∷ []) = s
joined (s ∷ t ∷ ss) = s ++ codes "','" ++ joined (t ∷ ss)

unfoldable pub generate_search_parameter : Str → List Str → Str
unfolding joined
generate_search_parameter org_id [] =
    codes "organization_id is '" ++ org_id ++ codes "' and cluster_id != ''"
generate_search_parameter org_id (s ∷ ss) =
    codes "organization_id is '"
    ++ org_id
    ++ codes "' and cluster_id != ''"
    ++ codes " and status not in ('"
    ++ joined (s ∷ ss)
    ++ codes "')"

abbrev pub default_status_negative_filters : List Str
default_status_negative_filters = codes "Archived" ∷ codes "Deprovisioned" ∷ codes "Reserved" ∷ []

pub data AmsError (F : Type 0) : Type 0 where
  request_failed : F → AmsError F
  more_internal_orgs no_internal_id : AmsError F

-- The requests, by the search and, for subscriptions, the number of the page, in a state `W` of the
-- world.
pub record Service (W F : Type 0) : Type 0 where
  pub organizations : Str → W → W × Result F (List (Option Str))
  pub subscriptions : Str → ℕ → W → W × Result F SubscriptionPage

module _ {W F : Type 0} (service : Service W F) where
  -- Exactly one organization, with an ID.
  internal_id : List (Option Str) → Result (AmsError F) Str
  internal_id (some id ∷ []) = ok id
  internal_id (none ∷ []) = err no_internal_id
  internal_id _ = err more_internal_orgs

  checked : W × Result F (List (Option Str)) → W × Result (AmsError F) Str
  unfolding internal_id
  checked (w, ok items) = (w, internal_id items)
  checked (w, err e) = (w, err (request_failed e))

  unfoldable pub get_internal_org_id_from_external : Str → W → W × Result (AmsError F) Str
  unfolding checked
  get_internal_org_id_from_external org_id w =
      checked (service.organizations (codes "external_id = " ++ org_id) w)

  after_page :
      (GoMap Str ClusterInfo → W → Option (W × Result (AmsError F) (GoMap Str ClusterInfo)))
      → GoMap Str ClusterInfo
      → W × Result F SubscriptionPage
      → Option (W × Result (AmsError F) (GoMap Str ClusterInfo))
  after_page loop m (w, err e) = some (w, err (request_failed e))
  after_page loop m (w, ok page) =
      let rest = loop (add_items page.items m) w in
      if nat_beq page.size 0 then some (w, ok m) else rest

  -- The loop over pages from a number on, `none` when the fuel runs out.
  unfoldable pub subscription_loop :
      ℕ
      → Str
      → ℕ
      → GoMap Str ClusterInfo
      → W
      → Option (W × Result (AmsError F) (GoMap Str ClusterInfo))
  unfolding after_page
  subscription_loop zero search page m w = none
  subscription_loop (suc fuel) search page m w =
      after_page (subscription_loop fuel search (suc page)) m (service.subscriptions search page w)

  unfoldable pub execute_subscription_list_request :
      ℕ → Str → W → Option (W × Result (AmsError F) (GoMap Str ClusterInfo))
  unfolding subscription_loop
  execute_subscription_list_request fuel search w = subscription_loop fuel search 1 [] w

  list_clusters :
      ℕ → W × Result (AmsError F) Str → Option (W × Result (AmsError F) (GoMap Str ClusterInfo))
  unfolding execute_subscription_list_request generate_search_parameter
  list_clusters fuel (w, err e) = some (w, err e)
  list_clusters fuel (w, ok id) =
      execute_subscription_list_request fuel
        (generate_search_parameter id default_status_negative_filters) w

  -- `GetClustersForOrganization`
  unfoldable pub get_clusters_for_organization :
      ℕ → Str → W → Option (W × Result (AmsError F) (GoMap Str ClusterInfo))
  unfolding list_clusters get_internal_org_id_from_external
  get_clusters_for_organization fuel org_id w =
      list_clusters fuel (get_internal_org_id_from_external org_id w)
