-- ===== src/Tests/Amsclient.antt =====
-- An organization with two clusters, one of which the database knows with old data.
use vuln4shift_backend.Prelude.{
  IsDistinct, nat_eq, nat_beq_iff, ℕ, ◌+◌, ◌<◌, ◌≡◌, refl, sym, ap, ◌∙◌, Bool, true, false, none,
  some, List, [], ◌∷◌, arith, ltb, Str, codes, str_eq, str_beq, Result, ok, err,
}
use vuln4shift_backend.Prelude.GoMap.{GoMap, lookup}
use vuln4shift_backend.Models.{ClusterLight}
use vuln4shift_backend.Amsclient.{
  ClusterInfo, Subscription, SubscriptionPage, Service, get_clusters_for_organization,
}
use vuln4shift_backend.Amsclient.Pages.{Ended, get_clusters_for_organization-Ended}
use vuln4shift_backend.Amsclient.Details.{
  Details, no_details, sync_rows, add_info, db_fetch_cluster_details,
}
use vuln4shift_backend.Amsclient.Details.Settled.{settled}
use vuln4shift_backend.Amsclient.Details.Again.{
  ids, replaced, SaveLaws, db_fetch_cluster_details-again,
}

abbrev subscription : Str → Subscription
subscription id = record {
  external_cluster_id = some id;
  display_name = none;
  status = some (codes "Active");
  plan = some (record { type_ = some (codes "OCP") });
  metrics = some (
      record {
        openshift_version = some (codes "4.12");
        cloud_provider = some (codes "aws");
        region = some (codes "us-east-1");
      }
      ∷ []);
}

abbrev page_of : Bool → SubscriptionPage
page_of true = record { size = 2; items = subscription (codes "c1") ∷ subscription [] ∷ [] }
page_of false = record { size = 0; items = [] }

abbrev one_page : Service ℕ ℕ
one_page = record {
  organizations = λ search w. (w + 1, ok (some (codes "org") ∷ []));
  subscriptions = λ search page w. (w + 1, ok (page_of (ltb page 2)));
}

abbrev size_or : Result ℕ SubscriptionPage → ℕ
size_or (ok page) = page.size
size_or (err e) = 0

size-page_of : (page : ℕ) → 1 < page → (page_of (ltb page 2)).size ≡ 0
size-page_of page h = ground (arith, h)

get_clusters_for_organization-Ended_example :
    Ended (get_clusters_for_organization one_page 2 (codes "42") 0)
get_clusters_for_organization-Ended_example =
    get_clusters_for_organization-Ended one_page 1
      (λ search page w reply late e. sym (ap size_or e) ∙ size-page_of page late) (codes "42") 0

abbrev info : ClusterInfo
info = record {
  id = codes "c1";
  display_name = codes "one";
  status = codes "Active";
  type_ = codes "OCP";
  version = codes "4.12";
  provider = codes "aws";
  region = codes "us-east-1";
}

abbrev infos : GoMap Str ClusterInfo
infos = (codes "c1", info) ∷ []

abbrev row : Str → ClusterLight
row uuid = record {
  id = 1;
  uuid = uuid;
  display_name = [];
  status = codes "N/A";
  type_ = [];
  version = [];
  provider = [];
  account_id = 1;
  cve_cache_critical = 0;
  cve_cache_important = 0;
  cve_cache_moderate = 0;
  cve_cache_low = 0;
  last_seen = 0;
}

abbrev two_rows : List ClusterLight
two_rows = row (codes "c0") ∷ record (row (codes "c1")) { id = 2 } ∷ []

-- A table of two rows, of which the query finds those in order of their IDs.
abbrev Table : Type 0
Table = (rows : List ClusterLight) × (IsDistinct (ids rows))

ids-replaced : (new : ClusterLight) (rows : List ClusterLight) → ids (replaced new rows) ≡ ids rows
ids-replaced new [] = refl
ids-replaced new (r ∷ rows) = ground (arith, ids-replaced new rows, nat_beq_iff r.id new.id)

replaced-IsDistinct :
    (new : ClusterLight) (rows : List ClusterLight)
    → IsDistinct (ids rows)
    → IsDistinct (ids (replaced new rows))
replaced-IsDistinct new rows h = rw (ids-replaced new rows) h

abbrev finding : Table → Table × Result ℕ (List ClusterLight)
finding t = (t, ok t.0)

abbrev saving : ClusterLight → Table → Table × Result ℕ (Unit {0})
saving r t = ((replaced r t.0, replaced-IsDistinct r t.0 t.1), ok tt)

rows_or_none : Result ℕ (List ClusterLight) → List ClusterLight
rows_or_none (ok rows) = rows
rows_or_none (err e) = []

table_laws : SaveLaws finding saving
unfolding rows_or_none
table_laws = record {
  clusters = λ t. t.0;
  distinct = λ t. t.1;
  found = λ d d' rows e. (ap (λ r. rows_or_none r.1) (sym e), ap (λ r. r.0.0) (sym e));
  saved = λ r d d' e. ap (λ x. x.0.0) (sym e);
}

abbrev table : Table
table = (two_rows, (refl, (refl, tt)))

abbrev saved_table : Table
saved_table = (db_fetch_cluster_details {F = ℕ} finding saving true (ok infos) table).0

abbrev details : Details
details = add_info info no_details

db_fetch_cluster_details-again_example :
    (saved_table.0 ≡ settled infos two_rows)
    × (db_fetch_cluster_details {F = ℕ} finding saving true (ok infos) saved_table
        ≡ (saved_table, ok details))
unfolding db_fetch_cluster_details lookup str_beq sync_rows table_laws
db_fetch_cluster_details-again_example =
    db_fetch_cluster_details-again finding saving table_laws {F = ℕ} infos details table saved_table
      saved_table saved_table.0 refl refl
