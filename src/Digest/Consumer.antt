-- ===== src/Digest/Consumer.antt =====
-- Processing a message (digestwriter/consumer.go, `ProcessMessage`), with the counters it keeps and
-- the events of the payload tracker (base/utils/payload_tracker.go). Each `go` statement starts a call
-- of `sendPayloadTrackerMessage` with a copy of the event: the copies are kept in the order of the
-- statements, and the calls run at any time. The storage, the producer and the encoder of JSON are
-- parameters.
pub mod Accounting
pub mod Sends
use vuln4shift_backend.Prelude.{
  ℕ, suc, ◌+◌, ◌%◌, ◌^◌, Bool, true, false, Option, none, some, List, [], ◌∷◌, ◌++◌, if◌then◌else◌,
  Str, codes, Result, ok, err,
}
use vuln4shift_backend.Prelude.GoMap.{GoMap}
use vuln4shift_backend.Digest.Message.{
  Namespace, Workload, IncomingMessage, ParseError, extract_digests, parse_message,
}

pub data Status : Type 0 where
  received success error : Status

-- The fields that are no constants; a time is that of the update.
pub record TrackerEvent : Type 0 where
  pub org_id : Str
  pub request_id : Option Str
  pub status : Status
  pub status_msg : Str
  pub date : ℕ

new_event : Str → Str → ℕ → TrackerEvent
new_event request_id org_id now = record {
  org_id = org_id;
  request_id = some request_id;
  status = received;
  status_msg = [];
  date = now;
}

update_success : ℕ → TrackerEvent → TrackerEvent
update_success now e = record e { status = success; date = now }

update_error : Str → ℕ → TrackerEvent → TrackerEvent
update_error msg now e = record e { status = error; status_msg = msg; date = now }

-- The counters of the package, and the consumer with its storage in state `S`.
pub record Consumer (S : Type 0) : Type 0 where
  pub storage : S
  pub messages_with_empty_digests : ℕ
  pub parse_incoming_message_error : ℕ
  pub parsed_incoming_message : ℕ
  pub stored_messages_error : ℕ
  pub stored_messages_ok : ℕ
  pub launched : List TrackerEvent

pub data ProcessError (E : Type 0) : Type 0 where
  not_parsed : ParseError → ProcessError E
  not_stored : E → ProcessError E

abbrev pub err_no_digests : Str
err_no_digests = codes "no digests were retrieved from incoming message"

abbrev pub err_cluster_data : Str
err_cluster_data = codes "error updating cluster data"

-- `go d.sendPayloadTrackerMessage(event)`
launch : {S : Type 0} → TrackerEvent → Consumer S → Consumer S
launch e c = record c { launched = c.launched ++ e ∷ [] }

-- What `sendPayloadTrackerMessage` changes: the producer in state `P`, and two counters.
pub record Tracker (P : Type 0) : Type 0 where
  pub producer : P
  pub payload_tracker_error : ℕ
  pub payload_tracker_message_sent : ℕ

pub data SendError (F : Type 0) : Type 0 where
  no_request_id not_marshalled : SendError F
  not_sent : F → SendError F

module _ {P F : Type 0} (marshal : TrackerEvent → Option Str)
    (send_message : Str → Str → P → P × Option F) where
  produced : P × Option F → P × Option (SendError F)
  produced (p, none) = (p, none)
  produced (p, some e) = (p, some (not_sent e))

  marshalled : Str → Option Str → P → P × Option (SendError F)
  unfolding produced
  marshalled id none p = (p, some not_marshalled)
  marshalled id (some bs) p = produced (send_message id bs p)

  -- `SendKafkaMessage`
  unfoldable pub send_kafka_message : TrackerEvent → P → P × Option (SendError F)
  unfolding marshalled
  send_kafka_message event p = elim event.request_id [
    | none ↦ (p, some no_request_id)
    | some id ↦ marshalled id (marshal event) p
  ]

  -- The counting of what `SendKafkaMessage` returned.
  counted : Tracker P → P × Option (SendError F) → Tracker P
  counted t (p, some e) = record t {
    producer = p;
    payload_tracker_error = t.payload_tracker_error + 1;
  }
  counted t (p, none) = record t {
    producer = p;
    payload_tracker_message_sent = t.payload_tracker_message_sent + 1;
  }

  -- `sendPayloadTrackerMessage`
  unfoldable pub send_payload_tracker_message : Bool → TrackerEvent → Tracker P → Tracker P
  unfolding send_kafka_message counted
  send_payload_tracker_message use_payload_tracker event t =
      if use_payload_tracker then counted t (send_kafka_message event t.producer) else t

-- a `uint64`
increment : ℕ → ℕ
increment n = (n + 1) % 2 ^ 64

module _ {S E : Type 0} (gunzip : Str → Option Str) (decode : Str → Option IncomingMessage)
    (write_cluster_info : Str → Str → Workload → List Str → S → S × Option E) where
  no_digests : TrackerEvent → ℕ → Consumer S → Consumer S × Option (ProcessError E)
  unfolding launch increment update_error
  no_digests e now c = (
    launch (update_error err_no_digests now e)
        (record c { messages_with_empty_digests = increment c.messages_with_empty_digests }),
    none,
  )

  -- Step 3, from what the storage returned.
  stored : TrackerEvent → ℕ → Consumer S → Option E → Consumer S × Option (ProcessError E)
  unfolding launch update_error update_success
  stored e now c (some x) = (
    launch (update_error err_cluster_data now e)
        (record c { stored_messages_error = c.stored_messages_error + 1 }),
    some (not_stored x),
  )
  stored e now c none =
      let c' = launch (update_success now e) c in
      (record c' { stored_messages_ok = c'.stored_messages_ok + 1 }, none)

  -- Steps 2 and 3, where the images and the namespaces are there.
  store_digests :
      IncomingMessage
      → Workload
      → GoMap Str Str
      → GoMap Str Namespace
      → TrackerEvent
      → ℕ
      → Consumer S
      → Consumer S × Option (ProcessError E)
  unfolding stored
  store_digests message workload images namespaces e now c =
      let digests = extract_digests images namespaces in
      let (s, result) =
        write_cluster_info message.cluster_name message.organization workload digests c.storage in
      stored e now (record c { storage = s }) result

  process_workload :
      Option (GoMap Str Str)
      → Option (GoMap Str Namespace)
      → IncomingMessage
      → Workload
      → TrackerEvent
      → ℕ
      → Consumer S
      → Consumer S × Option (ProcessError E)
  unfolding no_digests store_digests
  process_workload (some images) (some namespaces) message workload e now c =
      store_digests message workload images namespaces e now c
  process_workload none _ message workload e now c = no_digests e now c
  process_workload (some images) none message workload e now c = no_digests e now c

  process_parsed :
      IncomingMessage → Workload → ℕ → ℕ → Consumer S → Consumer S × Option (ProcessError E)
  unfolding process_workload new_event launch
  process_parsed message workload now later c =
      let c' = record c { parsed_incoming_message = c.parsed_incoming_message + 1 } in
      let e = new_event message.request_id message.organization now in
      process_workload workload.images workload.namespaces message workload e later (launch e c')

  -- `ProcessMessage` at the message's value, with the times of its two events.
  unfoldable pub process_message : Str → ℕ → ℕ → Consumer S → Consumer S × Option (ProcessError E)
  unfolding process_parsed
  process_message value now later c = elim (parse_message gunzip decode value) [
    | err x ↦ (
      record c { parse_incoming_message_error = c.parse_incoming_message_error + 1 },
      some (not_parsed x),
    )
    | ok (message, workload) ↦ process_parsed message workload now later c
  ]
