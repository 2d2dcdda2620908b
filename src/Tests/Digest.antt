-- ===== src/Tests/Digest.antt =====
-- Messages to the digest writer, and a database of links.
use vuln4shift_backend.Prelude.{
  ℕ, ◌+◌, ◌≡◌, refl, ◌⊎◌, true, not, ◌&&◌, ◌||◌, Option, none, some, List, [], ◌∷◌, ◌++◌, arith,
  nat_beq, if◌then◌else◌, ok, Str, codes, str_eq, str_beq, nat_eq, nat_beq_iff, ◌==◌, contains,
  IsDistinct, select,
}
use vuln4shift_backend.Prelude.GoMap.{GoMap, lookup, insert, delete, keys}
use vuln4shift_backend.Digest.Message.{
  Container, Namespace, Workload, IncomingMessage, unmarshal_account, extract_digests, is_gzip,
  parse_message,
}
use vuln4shift_backend.Digest.Message.Account.{quoted, unmarshal_account-quoted}
use vuln4shift_backend.Digest.Message.Digests.{in_namespaces, extract_digests_lem}
use vuln4shift_backend.Digest.Storage.{
  ClusterImage, Database, committed, rolled_back, link_digests_to_cluster, write_cluster_info,
}
use vuln4shift_backend.Digest.Storage.Diff.{linked, image_in}
use vuln4shift_backend.Digest.Storage.Link.{LinkLaws, link_digests_to_cluster-links}
use vuln4shift_backend.Digest.Storage.Outcome.{write_cluster_info-ends}
use vuln4shift_backend.Digest.Consumer.Sends.{run_sends, IsCounted, run_sends-IsCounted}
use vuln4shift_backend.Digest.Consumer.{
  Tracker, Status, Consumer, TrackerEvent, received, success, error, process_message,
}
use vuln4shift_backend.Digest.Consumer.Accounting.{
  IsAccounted, process_message-IsAccounted, process_message-launches,
}

unmarshal_account-quoted_example :
    unmarshal_account (quoted (codes "12"))
    ≡ some (if codes "12" == codes "null" then [] else codes "12")
unmarshal_account-quoted_example = unmarshal_account-quoted (codes "12")

abbrev container : Container
container = record { image_id = codes "sha256:b" }

abbrev namespaces : GoMap Str Namespace
namespaces =
    (
      codes "ns",
      record {
        shapes =
            record {
              init_containers = container ∷ [];
              containers = container ∷ record { image_id = codes "sha256:c" } ∷ [];
            }
            ∷ [];
      },
    )
    ∷ []

abbrev images : GoMap Str Str
images = (codes "sha256:a", []) ∷ (codes "sha256:b", []) ∷ []

extract_digests_lem_example :
    IsDistinct (extract_digests images namespaces)
    × ((d : Str)
        → contains (extract_digests images namespaces) d
          ≡ (contains (keys images) d || in_namespaces namespaces d))
extract_digests_lem_example = extract_digests_lem images namespaces

digests_extracted :
    extract_digests images namespaces ≡ codes "sha256:a" ∷ codes "sha256:b" ∷ codes "sha256:c" ∷ []
unfolding extract_digests insert str_beq
digests_extracted = refl

-- A database that holds the rows of `cluster_image`, and knows the images 1, 2 and 3.
abbrev Rows : Type 0
Rows = List ClusterImage

abbrev of_cluster : ℕ → Rows → Rows
of_cluster c = select (λ row. row.cluster_id == c)

abbrev without : Rows → Rows → Rows
without gone = select (λ row. not (linked gone row.cluster_id row.image_id))

abbrev table : Database Rows Str
table = record {
  first_or_create_account = λ org d. (d, ok 1);
  upsert_cluster = λ row d. (d, ok 5);
  find_archs = λ name d. ok ((codes "amd64", 1) ∷ []);
  find_images = λ digests arch d. ok (1 ∷ 2 ∷ []);
  find_cluster_images = λ c d. ok (of_cluster c d);
  create_cluster_images = λ rows d. (d ++ rows, none);
  delete_cluster_images = λ rows d. (without rows d, none);
  update_cluster_cache = λ c d. (d, none);
  commit = λ d. (d, none);
  rollback = λ d. ([], none);
}

linked-of_cluster : (c i : ℕ) (d : Rows) → image_in (of_cluster c d) i ≡ linked d c i
linked-of_cluster c i [] = refl
linked-of_cluster c i (row ∷ d) = ground (arith, linked-of_cluster c i d)

linked-append :
    (c i : ℕ) (d rows : Rows) → linked (d ++ rows) c i ≡ (linked d c i || linked rows c i)
linked-append c i [] rows = refl
linked-append c i (row ∷ d) rows = ground (arith, linked-append c i d rows)

linked-without :
    (c i : ℕ) (rows d : Rows)
    → linked (without rows d) c i ≡ (linked d c i && not (linked rows c i))
linked-without c i rows [] = ground arith
linked-without c i rows (row ∷ d) =
    ground
      (arith, linked-without c i rows d, nat_beq_iff row.cluster_id c, nat_beq_iff row.image_id i)

table_laws : LinkLaws table
table_laws = record {
  links = λ c d i. linked d c i;
  found = λ c d rows e i. ground (arith, linked-of_cluster c i d);
  created = λ rows d d' e c i. ground (arith, linked-append c i d rows);
  deleted = λ rows d d' e c i. ground (arith, linked-without c i rows d);
  cached = λ k d d' e c i. ground arith;
}

-- The cluster 5 runs the images 1 and 3, the cluster 6 the image 3.
abbrev before : Rows
before =
    record { cluster_id = 5; image_id = 1 }
    ∷ record { cluster_id = 5; image_id = 3 }
    ∷ record { cluster_id = 6; image_id = 3 }
    ∷ []

abbrev relinked : Rows
relinked =
    record { cluster_id = 5; image_id = 1 }
    ∷ record { cluster_id = 6; image_id = 3 }
    ∷ record { cluster_id = 5; image_id = 2 }
    ∷ []

link_digests_to_cluster-links_example :
    table_laws.links 5 relinked 3
    ≡ (if nat_beq 5 5 then contains {A = ℕ} (1 ∷ 2 ∷ []) 3 else table_laws.links 5 before 3)
unfolding link_digests_to_cluster lookup insert delete
link_digests_to_cluster-links_example =
    link_digests_to_cluster-links table table_laws 5 1 [] (1 ∷ 2 ∷ []) before relinked refl
      (refl, (refl, tt)) (λ e. cc) refl 5 3

abbrev any_uuid : Str → Option Str
any_uuid s = some s

abbrev any_json : Workload → Option Str
any_json w = some []

abbrev workload : Workload
workload = record { image_count = 3; images = some images; namespaces = some namespaces }

write_cluster_info-ends_example :
    ((write_cluster_info table any_uuid any_json 9 []
        (codes "u")
        (codes "o")
        workload
        []
        before).phase
      ≡ some committed)
    ⊎ ((write_cluster_info table any_uuid any_json 9 []
          (codes "u")
          (codes "o")
          workload
          []
          before).phase
        ≡ some rolled_back)
unfolding write_cluster_info link_digests_to_cluster lookup insert delete str_beq
write_cluster_info-ends_example =
    write_cluster_info-ends table any_uuid any_json 9 [] (codes "u") (codes "o") workload [] before
      refl

abbrev message : IncomingMessage
message = record {
  organization = codes "o";
  account_number = [];
  cluster_name = codes "u";
  workload = some workload;
  version = 1;
  request_id = codes "r";
}

abbrev idle : Consumer ℕ
idle = record {
  storage = 0;
  messages_with_empty_digests = 0;
  parse_incoming_message_error = 0;
  parsed_incoming_message = 0;
  stored_messages_error = 0;
  stored_messages_ok = 0;
  launched = [];
}

-- A storage that counts its calls.
abbrev counting : Str → Str → Workload → List Str → ℕ → ℕ × Option Str
counting cluster org w digests n = (n + 1, none)

process_message-IsAccounted_example :
    IsAccounted (process_message (λ s. none) (λ s. some message) counting [] 1 2 idle).0
process_message-IsAccounted_example =
    process_message-IsAccounted (λ s. none) (λ s. some message) counting [] 1 2 idle (omega arith)
      (record { parsed = refl })

abbrev done : Consumer ℕ
done = (process_message (λ s. none) (λ s. some message) counting [] 1 2 idle).0

process_message-launches_example :
    (first last : TrackerEvent) × (done.launched ≡ (idle.launched ++ first ∷ []) ++ last ∷ [])
    × (first.status ≡ received)
    × (first.request_id ≡ some (codes "r"))
    × (last.request_id ≡ some (codes "r"))
    × ((last.status ≡ success) × (done.stored_messages_ok ≡ idle.stored_messages_ok + 1)
        ⊎ (last.status ≡ error) × (done.stored_messages_ok ≡ idle.stored_messages_ok))
unfolding parse_message is_gzip str_beq
process_message-launches_example =
    process_message-launches (λ s. none) (λ s. some message) counting [] 1 2 idle
      (message, workload) refl

-- A producer that fails at the second message.
abbrev second_fails : Str → Str → ℕ → ℕ × Option Str
second_fails key value n = (n + 1, if nat_beq n 1 then some (codes "broken") else none)

abbrev status_code : Status → Str
status_code received = codes "r"
status_code success = codes "s"
status_code error = codes "e"

abbrev unsent : Tracker ℕ
unsent = record { producer = 0; payload_tracker_error = 0; payload_tracker_message_sent = 0 }

abbrev two_events : List TrackerEvent
two_events =
    record {
      org_id = codes "o";
      request_id = some (codes "r");
      status = success;
      status_msg = [];
      date = 2;
    }
    ∷ record {
      org_id = codes "o";
      request_id = some (codes "r");
      status = received;
      status_msg = [];
      date = 1;
    }
    ∷ []

run_sends-IsCounted_example :
    IsCounted
      (λ e. some (status_code e.status))
      second_fails
      true
      two_events
      unsent
      (run_sends (λ e. some (status_code e.status)) second_fails true two_events unsent)
run_sends-IsCounted_example =
    run_sends-IsCounted (λ e. some (status_code e.status)) second_fails true two_events unsent
