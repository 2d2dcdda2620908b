-- ===== src/Expsync.antt =====
-- The sync of exploits (expsync/), over an interface of the statements on the database.
pub mod Statement
pub mod Synced
use vuln4shift_backend.Prelude.{
  ℕ, zero, suc, Bool, not, Option, none, some, List, [], ◌∷◌, ◌++◌, is_some, nat_beq, select,
  if◌then◌else◌, Str, codes, str_eq, ◌==◌, Result, ok, err,
}
use vuln4shift_backend.Prelude.Action.{Action, pure, fail, ◌>>=◌, ◌>>◌}
use vuln4shift_backend.Prelude.GoMap.{GoMap, lookup, has}
use vuln4shift_backend.Models.{Cve}
use vuln4shift_backend.Client.{HttpClient, ClientError, Reply, retry_request, is_success_code}

-- `GithubRepoAPIResponse` of base/api/github.go.
pub record GithubRepoApiResponse : Type 0 where
  pub type_ : Str
  pub encoding : Str
  pub name : Str
  pub sha : Str
  pub content : Str
  pub size : ℕ

pub record ExploitMetadata : Type 0 where
  pub date : Str
  pub source : Str
  pub reference : Str

abbrev pub Exploits : Type 0
Exploits = GoMap Str (List ExploitMetadata)

pub data FetchError : Type 0 where
  request_failed : ClientError → FetchError
  invalid_token bad_contents bad_json : FetchError
  unexpected_status : ℕ → FetchError
  unsupported_encoding : Str → FetchError

module _ (decode_base64 : Str → Option Str) (unmarshal : Str → Option Exploits) where
  decoded : Option Str → Result FetchError Str
  decoded none = err bad_contents
  decoded (some contents) = ok contents

  unfoldable pub get_contents : GithubRepoApiResponse → Result FetchError Str
  unfolding decoded
  get_contents r =
      if r.encoding == codes "base64"
      then decoded (decode_base64 r.content)
      else err (unsupported_encoding r.encoding)

  read_json : Result FetchError Str → Result FetchError Exploits
  read_json (err e) = err e
  read_json (ok contents) = elim (unmarshal contents) [ none ↦ err bad_json | some m ↦ ok m ]

  -- From the reply of `RetryRequest`.
  exploits_of : Option ClientError → ℕ → GithubRepoApiResponse → Result FetchError Exploits
  unfolding get_contents read_json
  exploits_of (some e) code response = err (request_failed e)
  exploits_of none code response =
      if nat_beq code 401
      then err invalid_token
      else if not (is_success_code code)
      then err (unexpected_status code)
      else read_json (get_contents response)

  -- `getAPIExploits`
  unfoldable pub get_api_exploits :
      {W : Type 0} → (W → W × Reply GithubRepoApiResponse) → W → W × Result FetchError Exploits
  unfolding exploits_of
  get_api_exploits fetch w =
      let (w', reply) = fetch w in (w', exploits_of reply.error reply.status_code reply.response)

-- The statements on a database in state `D`, which fail with an `E`.
pub record Database (D E : Type 0) : Type 0 where
  pub begin_ : D → D
  pub commit : D → D × Result E (Unit {0})
  pub rollback : D → D
  -- the CVEs whose `exploit_data` is not null
  pub find_exploited : D → D × Result E (List Cve)
  -- sets the column to null, and gives the number of rows
  pub clear_exploit_data : List Cve → D → D × Result E ℕ
  pub exec : Str → D → D × Result E ℕ

pub data SyncError (E : Type 0) : Type 0 where
  not_fetched : FetchError → SyncError E
  not_pruned not_updated not_committed : E → SyncError E
  not_marshalled : SyncError E

-- `('%s', '%s'::jsonb)`
unfoldable pub value_row : Str → Str → Str
value_row cve json = codes "('" ++ cve ++ codes "', '" ++ json ++ codes "'::jsonb)"

-- The loop that builds `argList`, or an error of `json.Marshal`.
unfoldable pub arg_list : (List ExploitMetadata → Option Str) → Exploits → Str → Option Str
arg_list marshal [] args = some args
arg_list marshal ((cve, metadata) ∷ exploits) args = elim (marshal metadata) [
  | none ↦ none
  | some json ↦ arg_list marshal exploits (args ++ (codes " " ++ (value_row cve json ++ codes ",")))
]

abbrev pub but_last : Str → Str
but_last [] = []
but_last (c ∷ []) = []
but_last (c ∷ d ∷ s) = c ∷ but_last (d ∷ s)

-- `argList[1 : len(argList)-1]`
abbrev pub trimmed : Str → Str
trimmed [] = []
trimmed (c ∷ s) = but_last s

unfoldable pub update_statement : Str → Str
update_statement args =
    codes "UPDATE cve SET exploit_data = exploits.data FROM (VALUES "
    ++ args
    ++ codes ") AS exploits(cve, data) WHERE cve.name = exploits.cve"

module _ {D E : Type 0} (db : Database D E) (marshal : List ExploitMetadata → Option Str) where
  -- An error of the database, named by where it comes about.
  wrapped : {A : Type 0} → (E → SyncError E) → D × Result E A → D × Result (SyncError E) A
  wrapped why (d, ok a) = (d, ok a)
  wrapped why (d, err e) = (d, err (why e))

  named : {A : Type 0} → (E → SyncError E) → (D → D × Result E A) → Action D (SyncError E) A
  unfolding wrapped
  named why run d = wrapped why (run d)

  remove_exploit_data : List Cve → Action D (SyncError E) ℕ
  unfolding named
  remove_exploit_data [] = pure 0
  remove_exploit_data (cve ∷ cves) = named not_pruned (db.clear_exploit_data (cve ∷ cves))

  prune_cves_metadata : Exploits → Action D (SyncError E) ℕ
  unfolding named remove_exploit_data
  prune_cves_metadata exploits = do
    cves ← named not_pruned db.find_exploited
    remove_exploit_data (select (λ cve. not (has cve.name exploits)) cves)

  exec_update : Option Str → Action D (SyncError E) ℕ
  unfolding named
  exec_update none = fail not_marshalled
  exec_update (some args) = named not_updated (db.exec (update_statement (trimmed args)))

  update_exploits_metadata : Exploits → Action D (SyncError E) ℕ
  unfolding exec_update arg_list
  update_exploits_metadata [] = pure 0
  update_exploits_metadata (e ∷ exploits) = exec_update (arg_list marshal (e ∷ exploits) [])

  -- `syncExploits` from the reply on, up to the commit.
  store_exploits : Result FetchError Exploits → Action D (SyncError E) (Unit {0})
  unfolding prune_cves_metadata update_exploits_metadata named
  store_exploits (err e) = fail (not_fetched e)
  store_exploits (ok exploits) = do
    _ ← prune_cves_metadata exploits
    _ ← update_exploits_metadata exploits
    named not_committed db.commit

  -- The deferred rollback does nothing after a commit.
  close : D × Result (SyncError E) (Unit {0}) → D × Result (SyncError E) (Unit {0})
  close (d, ok u) = (d, ok u)
  close (d, err e) = (db.rollback d, err e)

  unfoldable pub sync_exploits :
      {W : Type 0}
      → (W → W × Result FetchError Exploits)
      → W
      → D
      → W × D × Result (SyncError E) (Unit {0})
  unfolding store_exploits close
  sync_exploits get w d =
      let (w', reply) = get w in
      let (d', r) = close (store_exploits reply (db.begin_ d)) in (w', d', r)
