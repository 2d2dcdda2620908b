-- ===== src/Pyxis/Repos.antt =====
-- The run over all repositories (`syncRepos` and `Start` of pyxis/pyxis.go).
pub mod Run
pub mod Kept
use vuln4shift_backend.Prelude.{
  Bool, true, false, not, ◌&&◌, ◌||◌, Option, none, some, List, [], ◌∷◌, ltb, if◌then◌else◌, Str,
  str_eq, Result, ok, err,
}
use vuln4shift_backend.Prelude.GoMap.{GoMap, lookup, delete}
use vuln4shift_backend.Models.{Repository}
use vuln4shift_backend.Pyxis.Api.{ApiRepo, ApiError}
use vuln4shift_backend.Pyxis.Cache.{Maps, Pending, flush_pending_cache, empty_pending_cache}
use vuln4shift_backend.Pyxis.Image.{Database, Client, Config, Tx, SyncError}
use vuln4shift_backend.Pyxis.Repo.{sync_repo, cons_some}

-- What a run over the repositories keeps.
pub record SyncState (D W : Type 0) : Type 0 where
  pub tx : Tx D W
  pub maps : Maps

unfoldable pub update_repo : Repository → ApiRepo → Repository
update_repo repo api = record {
  id = repo.id;
  pyxis_id = api.pyxis_id;
  modified_date = api.modified_date;
  registry = api.registry;
  repository = api.repository;
}

-- The zero value of a row.
abbrev pub blank_repo : Repository
blank_repo = record { id = 0; pyxis_id = []; modified_date = 0; registry = []; repository = [] }

unfoldable pub new_repo : ApiRepo → Repository
unfolding update_repo
new_repo api = update_repo blank_repo api

-- The row to sync for a repository that passed the profile, if any, and whether its key leaves
-- `dbRepoMap`. Where the key is known and the Pyxis ID of its row is not, `dbRepo` is the zero value
-- of the failed lookup.
unfoldable pub repo_row :
    Bool → GoMap Str Repository → GoMap Str Repository → Str → ApiRepo → Option Repository × Bool
unfolding update_repo new_repo
repo_row force_sync repos pyxis_id_repos repo_key api = elim (lookup repo_key repos) [
  | none ↦ elim (lookup api.pyxis_id pyxis_id_repos) [
    | some repo ↦ (some (update_repo repo api), false)
    | none ↦ (some (new_repo api), false)
  ]
  | some known ↦ elim (lookup known.pyxis_id pyxis_id_repos) [
    | none ↦ (some (update_repo blank_repo api), false)
    | some repo ↦
        if ltb repo.modified_date api.modified_date || force_sync
        then (some (update_repo repo api), true)
        else (none, true)
  ]
]

-- The loop of `syncRepos` over the API's repositories: the rows to sync, and what is left of
-- `dbRepoMap`. `in_profile` is `repositoryInProfile`.
unfoldable pub repos_to_sync :
    Bool
    → (Str → Str → Bool)
    → GoMap Str Repository
    → GoMap Str ApiRepo
    → GoMap Str Repository
    → List Repository × GoMap Str Repository
unfolding repo_row
repos_to_sync force in_profile by_id [] repos = ([], repos)
repos_to_sync force in_profile by_id ((repo_key, api) ∷ apis) repos =
    let passed = in_profile api.registry api.repository in
    let (row, leaves) = repo_row force repos by_id repo_key api in
    let (rows, rest) =
      repos_to_sync force in_profile by_id apis
        (if passed && leaves then delete repo_key repos else repos) in
    (if passed then cons_some row rows else rows, rest)

-- The rows that a repository's sync left pending go to the maps if it was committed, and are dropped
-- if it failed.
unfoldable pub after_sync : {D W X : Type 0} → Maps → Tx D W × Result X (Unit {0}) → SyncState D W
after_sync maps (s, ok u) =
    let (maps', pending) = flush_pending_cache maps s.pending in
    record { tx = record s { pending = pending }; maps = maps' }
after_sync maps (s, err e) = record { tx = record s { pending = empty_pending_cache }; maps = maps }

module _ {D W E F : Type 0} (db : Database D E) (client : Client W F) (config : Config)
    (marshal : List Str → Str) (unmarshal : Str → Option (List Str)) where
  unfoldable pub sync_next : Repository → SyncState D W → SyncState D W
  unfolding after_sync
  sync_next repo run =
      after_sync run.maps (sync_repo db client config marshal unmarshal run.maps repo run.tx)

  unfoldable pub sync_all : List Repository → SyncState D W → SyncState D W
  unfolding sync_next
  sync_all [] run = run
  sync_all (repo ∷ repos) run = sync_all repos (sync_next repo run)

  -- `syncRepos`, from what `getAPIRepositories` gives; `none` ends the program.
  unfoldable pub sync_repos :
      (Str → Str → Bool)
      → Result (ApiError F) (GoMap Str ApiRepo)
      → SyncState D W
      → Option (SyncState D W)
  unfolding repos_to_sync sync_all
  sync_repos in_profile (err e) run = none
  sync_repos in_profile (ok apis) run =
      let (rows, rest) =
        repos_to_sync config.force_sync in_profile run.maps.pyxis_id_repos apis run.maps.repos in
      some (
        sync_all rows (record {
          tx = run.tx;
          maps = record {
            repos = rest;
            pyxis_id_repos = run.maps.pyxis_id_repos;
            archs = run.maps.archs;
            images = run.maps.images;
            cves = run.maps.cves;
          };
        }))
