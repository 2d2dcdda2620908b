-- ===== src/Amsclient/Details.antt =====
-- The clusters of an account with the data of the account management service
-- (manager/amsclient/database.go).
pub mod Settled
pub mod Again
use vuln4shift_backend.Prelude.{
  ℕ, Bool, true, false, not, ◌&&◌, ◌||◌, Option, none, some, List, [], ◌∷◌, ◌++◌, if◌then◌else◌,
  Str, codes, str_eq, ◌==◌, Result, ok, err,
}
use vuln4shift_backend.Prelude.Action.{Action, pure, fail, ◌>>=◌}
use vuln4shift_backend.Prelude.GoMap.{GoMap, lookup, insert}
use vuln4shift_backend.Models.{ClusterLight}
use vuln4shift_backend.Amsclient.{ClusterInfo}

abbrev pub na_string : Str
na_string = codes "N/A"

unfoldable pub empty_to_na : Str → Str
empty_to_na input = if input == [] then na_string else input

-- The provider, with its region.
unfoldable pub provider_str : ClusterInfo → Str
unfolding empty_to_na
provider_str info =
    let provider = empty_to_na info.provider in
    if not (provider == na_string) && not (info.region == [])
    then provider ++ codes " (" ++ info.region ++ codes ")"
    else provider

unfoldable pub differs : ClusterLight → ClusterInfo → Bool
differs row info =
    not (row.display_name == info.display_name)
    || not (row.status == empty_to_na info.status)
    || not (row.type_ == empty_to_na info.type_)
    || not (row.version == empty_to_na info.version)
    || not (row.provider == provider_str info)

unfoldable pub with_info : ClusterInfo → ClusterLight → ClusterLight
with_info info row = record row {
  display_name = info.display_name;
  status = empty_to_na info.status;
  type_ = empty_to_na info.type_;
  version = empty_to_na info.version;
  provider = provider_str info;
}

-- The four results.
pub record Details : Type 0 where
  pub cluster_ids : List Str
  pub statuses : GoMap Str (Unit {0})
  pub versions : GoMap Str (Unit {0})
  pub providers : GoMap Str (Unit {0})

abbrev pub no_details : Details
no_details = record { cluster_ids = []; statuses = []; versions = []; providers = [] }

unfoldable pub add_details : Str → Str → Str → Str → Details → Details
add_details id status version provider x = record {
  cluster_ids = x.cluster_ids ++ id ∷ [];
  statuses = insert status tt x.statuses;
  versions = insert version tt x.versions;
  providers = insert provider tt x.providers;
}

abbrev pub add_info : ClusterInfo → Details → Details
add_info info =
    add_details info.id (empty_to_na info.status) (empty_to_na info.version) (provider_str info)

abbrev pub add_row : ClusterLight → Details → Details
add_row row = add_details row.uuid row.status row.version row.provider

-- The loop with `sync` set to false.
unfoldable pub stored_details : List ClusterLight → Details → Details
stored_details [] x = x
stored_details (row ∷ rows) x = stored_details rows (add_row row x)

-- `conn.Save` on a database in state `D`, which fails with an `E`.
module _ {D E : Type 0} (save : ClusterLight → D → D × Result E (Unit {0})) where
  save_info : ClusterInfo → ClusterLight → Action D E (Unit {0})
  unfolding differs with_info
  save_info info row = if differs row info then save (with_info info row) else pure tt

  sync_row : Option ClusterInfo → ClusterLight → Details → Action D E Details
  unfolding save_info
  sync_row none row x = pure x
  sync_row (some info) row x = save_info info row >>= λ _. pure (add_info info x)

  -- The loop with `sync` set to true.
  unfoldable pub sync_rows :
      GoMap Str ClusterInfo → List ClusterLight → Details → Action D E Details
  unfolding sync_row
  sync_rows m [] x = pure x
  sync_rows m (row ∷ rows) x = sync_row (lookup row.uuid m) row x >>= λ x'. sync_rows m rows x'

pub data DetailsError (E F : Type 0) : Type 0 where
  database : E → DetailsError E F
  ams : F → DetailsError E F

module _ {D E F : Type 0} (find : D → D × Result E (List ClusterLight))
    (save : ClusterLight → D → D × Result E (Unit {0})) where
  lifted : D × Result E Details → D × Result (DetailsError E F) Details
  lifted (d, ok x) = (d, ok x)
  lifted (d, err e) = (d, err (database e))

  from_service :
      Result F (GoMap Str ClusterInfo)
      → List ClusterLight
      → D
      → D × Result (DetailsError E F) Details
  unfolding lifted sync_rows
  from_service (err e) rows d = (d, err (ams e))
  from_service (ok m) rows d = lifted (sync_rows save m rows no_details d)

  -- From the rows found, with the reply of the service.
  with_rows :
      Bool
      → Result F (GoMap Str ClusterInfo)
      → D × Result E (List ClusterLight)
      → D × Result (DetailsError E F) Details
  unfolding from_service stored_details
  with_rows sync reply (d, err e) = (d, err (database e))
  with_rows true reply (d, ok rows) = from_service reply rows d
  with_rows false reply (d, ok rows) = (d, ok (stored_details rows no_details))

  -- `DBFetchClusterDetails`, for an account whose rows are `find`.
  unfoldable pub db_fetch_cluster_details :
      Bool → Result F (GoMap Str ClusterInfo) → D → D × Result (DetailsError E F) Details
  unfolding with_rows
  db_fetch_cluster_details sync reply d = with_rows sync reply (find d)
