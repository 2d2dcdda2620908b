-- ===== src/Digest/Storage.antt =====
-- Writing a cluster's workload (digestwriter/storage.go). The database and what the code asks of it
-- through gorm are the interface `Database`; a time, the UUID parser and the JSON encoder of the
-- workload are parameters.
pub mod Diff
pub mod Link
pub mod Outcome
use vuln4shift_backend.Prelude.{
  ℕ, Bool, true, false, Option, none, some, List, [], ◌∷◌, ◌++◌, map, if◌then◌else◌, Str, codes,
  str_eq, nat_eq, Result, ok, err,
}
use vuln4shift_backend.Prelude.GoMap.{GoMap, lookup, insert, delete, has, keys}
use vuln4shift_backend.Digest.Message.{Workload}

pub record ClusterImage : Type 0 where
  pub cluster_id : ℕ
  pub image_id : ℕ

-- The columns of `cluster` that are written.
pub record ClusterRow : Type 0 where
  pub uuid : Str
  pub account_id : ℕ
  pub last_seen : ℕ
  pub workload : Str

-- The statements of a transaction on a database in state `D`, which fail with an `E`.
pub record Database (D E : Type 0) : Type 0 where
  -- Where(account).FirstOrCreate, giving the account's ID
  pub first_or_create_account : Str → D → D × Result E ℕ
  -- Where(cluster).FirstOrCreate with an update on a conflict of the UUID, giving the cluster's ID
  pub upsert_cluster : ClusterRow → D → D × Result E ℕ
  -- the names and IDs of the rows of `arch` with a name
  pub find_archs : Str → D → Result E (List (Str × ℕ))
  -- the IDs of the images with one of the digests and the architecture
  pub find_images : List Str → ℕ → D → Result E (List ℕ)
  -- the rows of `cluster_image` of a cluster
  pub find_cluster_images : ℕ → D → Result E (List ClusterImage)
  -- insertion that does nothing on a conflict, and deletion
  pub create_cluster_images : List ClusterImage → D → D × Option E
  pub delete_cluster_images : List ClusterImage → D → D × Option E
  -- `UpdateClusterCache`
  pub update_cluster_cache : ℕ → D → D × Option E
  pub commit : D → D × Option E
  pub rollback : D → D × Option E

abbrev pub IdSet : Type 0
IdSet = GoMap ℕ (Unit {0})

-- The loop of `prepareClusterImageLists` over the images found; what stays in `current` is deleted.
split_images : ℕ → IdSet → List ℕ → List ClusterImage × IdSet
split_images cluster_id current [] = ([], current)
split_images cluster_id current (id ∷ ids) =
    if has id current
    then split_images cluster_id (delete id current) ids
    else let (to_insert, rest) = split_images cluster_id current ids in
      (record { cluster_id = cluster_id; image_id = id } ∷ to_insert, rest)

unfoldable pub prepare_cluster_image_lists :
    ℕ → IdSet → List ℕ → List ClusterImage × List ClusterImage
unfolding split_images
prepare_cluster_image_lists cluster_id current existing =
    let (to_insert, rest) = split_images cluster_id current existing in
    (to_insert, map (λ id. record { cluster_id = cluster_id; image_id = id }) (keys rest))

pub id_set : List ClusterImage → IdSet → IdSet
id_set [] ids = ids
id_set (row ∷ rows) ids = id_set rows (insert row.image_id tt ids)

abbrev pub default_image_arch : Str
default_image_arch = codes "amd64"

pub data WriteError (E : Type 0) : Type 0 where
  bad_uuid bad_workload unknown_arch : WriteError E
  database : E → WriteError E

-- A transaction is open until `Commit` or `Rollback` is called on it.
pub data Phase : Type 0 where
  open_ committed rolled_back : Phase

-- What `WriteClusterInfo` leaves: the database, the cache `archMap`, the state of its transaction if
-- it began one, and the error it returns.
pub record Written (D E : Type 0) : Type 0 where
  pub db : D
  pub arch_map : GoMap Str ℕ
  pub phase : Option Phase
  pub error : Option (WriteError E)

abbrev pub db_error : {E : Type 0} → Option E → Option (WriteError E)
db_error none = none
db_error (some e) = some (database e)

module _ {D E : Type 0} (db : Database D E) where
  open db use {
    first_or_create_account, upsert_cluster, find_archs, find_images, find_cluster_images,
    create_cluster_images, delete_cluster_images, update_cluster_cache, commit, rollback,
  }

  -- A statement that is made only on a list with a row.
  unless_empty : {A : Type 0} → (List A → D → D × Option E) → List A → D → D × Option E
  unless_empty run [] d = (d, none)
  unless_empty run (row ∷ rows) d = run (row ∷ rows) d

  -- The next statement, unless the last one failed.
  after : D × Option E → (D → D × Option E) → D × Option E
  after (d, none) next = next d
  after (d, some e) next = (d, some e)

  -- The tail of `linkDigestsToCluster`, from the rows that the cluster has.
  relink : ℕ → List ℕ → List ClusterImage → D → D × Option E
  unfolding unless_empty after id_set prepare_cluster_image_lists
  relink cluster_id existing rows d =
      let (to_insert, to_delete) =
        prepare_cluster_image_lists cluster_id (id_set rows []) existing in
      after (unless_empty create_cluster_images to_insert d) λ d'.
        after (unless_empty delete_cluster_images to_delete d') (update_cluster_cache cluster_id)

  link_found : ℕ → List ℕ → D → D × Option E
  unfolding relink
  link_found cluster_id [] d = (d, none)
  link_found cluster_id (id ∷ ids) d = elim (find_cluster_images cluster_id d) [
    | err e ↦ (d, some e)
    | ok rows ↦ relink cluster_id (id ∷ ids) rows d
  ]

  unfoldable pub link_digests_to_cluster : ℕ → ℕ → List Str → D → D × Option E
  unfolding link_found
  link_digests_to_cluster cluster_id arch_id digests d = elim (find_images digests arch_id d) [
    | err e ↦ (d, some e)
    | ok existing ↦ link_found cluster_id existing d
  ]

  store_archs : List (Str × ℕ) → GoMap Str ℕ → GoMap Str ℕ
  store_archs [] m = m
  store_archs ((name, id) ∷ rows) m = store_archs rows (insert name id m)

  -- The default architecture's ID, from the cache or by `lookupArch`.
  arch_id_of : GoMap Str ℕ → D → GoMap Str ℕ × Result (WriteError E) ℕ
  unfolding store_archs
  arch_id_of arch_map d = elim (lookup default_image_arch arch_map) [
    | some id ↦ (arch_map, ok id)
    | none ↦ elim (find_archs default_image_arch d) [
      | err e ↦ (arch_map, err (database e))
      | ok rows ↦
          let arch_map' = store_archs rows arch_map in
          elim (lookup default_image_arch arch_map') [
            | some id ↦ (arch_map', ok id)
            | none ↦ (arch_map', err unknown_arch)
          ]
    ]
  ]

  -- A failed link is rolled back, and the error is that of the rollback.
  finish : GoMap Str ℕ → D × Option E → Written D E
  finish arch_map (d, some _) =
      let (d', e) = rollback d in
      record { db = d'; arch_map = arch_map; phase = some rolled_back; error = db_error e }
  finish arch_map (d, none) =
      let (d', e) = commit d in
      record { db = d'; arch_map = arch_map; phase = some committed; error = db_error e }

  -- From the cluster's row on.
  write_links : GoMap Str ℕ → ℕ → List Str → D → Written D E
  unfolding arch_id_of finish link_digests_to_cluster
  write_links arch_map cluster_id digests d =
      let (arch_map', found) = arch_id_of arch_map d in
      elim found [
        | err e ↦ record { db = d; arch_map = arch_map'; phase = some open_; error = some e }
        | ok arch_id ↦ finish arch_map' (link_digests_to_cluster cluster_id arch_id digests d)
      ]

  write_cluster : GoMap Str ℕ → ClusterRow → List Str → D → Written D E
  unfolding write_links
  write_cluster arch_map row digests d =
      let (d', result) = upsert_cluster row d in
      elim result [
        | err e ↦ record {
          db = d';
          arch_map = arch_map;
          phase = some open_;
          error = some (database e);
        }
        | ok cluster_id ↦ write_links arch_map cluster_id digests d'
      ]

  -- A failed account statement is rolled back, and the error is the rollback's if it has one.
  account_failed : GoMap Str ℕ → D → E → Written D E
  account_failed arch_map d e =
      let (d', r) = rollback d in
      record {
        db = d';
        arch_map = arch_map;
        phase = some rolled_back;
        error = elim r [ none ↦ some (database e) | some e' ↦ some (database e') ];
      }

  module _ (parse_uuid : Str → Option Str) (encode : Workload → Option Str) (now : ℕ) where
    write_account : GoMap Str ℕ → Str → Str → Workload → List Str → D → Written D E
    unfolding account_failed write_cluster
    write_account arch_map uuid org_id workload digests d =
        let (d', result) = first_or_create_account org_id d in
        elim result [
          | err e ↦ account_failed arch_map d' e
          | ok account_id ↦ elim (encode workload) [
            | none ↦ record {
              db = d';
              arch_map = arch_map;
              phase = some open_;
              error = some bad_workload;
            }
            | some json ↦
                write_cluster arch_map
                  (record {
                    uuid = uuid;
                    account_id = account_id;
                    last_seen = now;
                    workload = json;
                  })
                  digests d'
          ]
        ]

    -- `WriteClusterInfo`; `arch_map` is the storage's cache.
    unfoldable pub write_cluster_info :
        GoMap Str ℕ → Str → Str → Workload → List Str → D → Written D E
    unfolding write_account
    write_cluster_info arch_map cluster org_id workload digests d = elim (parse_uuid cluster) [
      | none ↦ record { db = d; arch_map = arch_map; phase = none; error = some bad_uuid }
      | some uuid ↦ write_account arch_map uuid org_id workload digests d
    ]
