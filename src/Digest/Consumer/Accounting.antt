-- ===== src/Digest/Consumer/Accounting.antt =====
-- The consumer's counters and events account for every message.
use vuln4shift_backend.Prelude.{
  ℕ, ◌+◌, ◌^◌, ◌%◌, ◌<◌, ◌≡◌, refl, inl, inr, ◌⊎◌, Option, none, some, Option-cases, List, [], ◌∷◌,
  ◌++◌, arith, Str, ok, Result-cases,
}
use vuln4shift_backend.Digest.Message.{Workload, IncomingMessage, extract_digests, parse_message}
use vuln4shift_backend.Digest.Consumer.{
  Consumer, TrackerEvent, received, success, error, ProcessError, new_event, update_error,
  update_success, err_no_digests, err_cluster_data, increment, launch, stored, no_digests,
  store_digests, process_workload, process_parsed, process_message,
}

-- Every parsed message was stored, failed to be stored or had no digests.
pub record IsAccounted {S : Type 0} (c : Consumer S) : Type 0 where
  pub parsed :
      c.parsed_incoming_message
      ≡ c.stored_messages_ok + c.stored_messages_error + c.messages_with_empty_digests

module _ {S E : Type 0} (gunzip : Str → Option Str) (decode : Str → Option IncomingMessage)
    (write_cluster_info : Str → Str → Workload → List Str → S → S × Option E) (value : Str)
    (now later : ℕ) (c : Consumer S) where
  abbrev processed : Consumer S × Option (ProcessError E)
  processed = process_message gunzip decode write_cluster_info value now later c

  -- Processing a message keeps the accounts, as long as the 64 bits of the counter of empty messages
  -- are not used up.
  pub process_message-IsAccounted :
      c.messages_with_empty_digests + 1 < 2 ^ 64 → IsAccounted c → IsAccounted processed.0
  unfolding process_message process_parsed process_workload store_digests stored no_digests launch
      increment
  process_message-IsAccounted room a = elim (Result-cases (parse_message gunzip decode value)) [
    | inr (x, failed) ↦ ground arith
    | inl (m, parsed) ↦ elim (Option-cases m.1.images) [
      | inl e ↦ ground arith
      | inr (images, e) ↦ ground arith
    ]
  ]

  -- Processing a parsed message starts two sends, the first of a `received` event and the second of
  -- one for the same request: `success` if the message is counted as stored, and otherwise `error`.
  pub process_message-launches :
      (m : IncomingMessage × Workload)
      → parse_message gunzip decode value ≡ ok m
      → (first last : TrackerEvent) × (processed.0.launched
          ≡ (c.launched ++ first ∷ []) ++ last ∷ [])
        × (first.status ≡ received)
        × (first.request_id ≡ some m.0.request_id)
        × (last.request_id ≡ some m.0.request_id)
        × ((last.status ≡ success) × (processed.0.stored_messages_ok ≡ c.stored_messages_ok + 1)
            ⊎ (last.status ≡ error) × (processed.0.stored_messages_ok ≡ c.stored_messages_ok))
  unfolding process_message process_parsed process_workload store_digests stored no_digests launch
      new_event update_error update_success
  process_message-launches m parsed =
      let first = new_event m.0.request_id m.0.organization now in
      let empty = update_error err_no_digests later first in
      elim (Option-cases m.1.images) [
        | inl e ↦ (first, empty, ground arith, refl, refl, refl, inr (refl, ground arith))
        | inr (images, e) ↦ elim (Option-cases m.1.namespaces) [
          | inl e' ↦ (first, empty, ground arith, refl, refl, refl, inr (refl, ground arith))
          | inr (namespaces, e') ↦
              elim (Option-cases
                (write_cluster_info m.0.cluster_name m.0.organization m.1
                  (extract_digests images namespaces) c.storage).1) [
                    | inl fine ↦ (
                      first,
                      update_success later first,
                      ground arith,
                      refl,
                      refl,
                      refl,
                      inl (refl, ground arith),
                    )
                    | inr (x, failed) ↦ (
                      first,
                      update_error err_cluster_data later first,
                      ground arith,
                      refl,
                      refl,
                      refl,
                      inr (refl, ground arith),
                    )
                  ]
        ]
      ]

-- What one message adds to the counters, by the error that comes back.
abbrev pub served : {S : Type 0} → Consumer S → ℕ
served c = c.stored_messages_ok + c.messages_with_empty_digests

abbrev pub rejected : {S : Type 0} → Consumer S → ℕ
rejected c = c.parse_incoming_message_error + c.stored_messages_error

abbrev pub Tallied : {S E : Type 0} → Consumer S → Consumer S → Option E → Type 0
Tallied c c' none = (served c' % 2 ^ 64 ≡ (served c + 1) % 2 ^ 64) × (rejected c' ≡ rejected c)
Tallied c c' (some e) = (served c' ≡ served c) × (rejected c' ≡ rejected c + 1)

module _ {S E : Type 0} (gunzip : Str → Option Str) (decode : Str → Option IncomingMessage)
    (write_cluster_info : Str → Str → Workload → List Str → S → S × Option E) (value : Str)
    (now later : ℕ) (c : Consumer S) where
  abbrev result : Consumer S × Option (ProcessError E)
  result = process_message gunzip decode write_cluster_info value now later c

  pub process_message-Tallied : Tallied c result.0 result.1
  unfolding process_message process_parsed process_workload store_digests stored no_digests launch
      increment
  process_message-Tallied = elim (Result-cases (parse_message gunzip decode value)) [
    | inr (x, failed) ↦ ground arith
    | inl (m, parsed) ↦ elim (Option-cases m.1.images) [
      | inl e ↦ ground arith
      | inr (images, e) ↦ elim (Option-cases m.1.namespaces) [
        | inl e' ↦ ground arith
        | inr (namespaces, e') ↦
            elim (Option-cases
              (write_cluster_info m.0.cluster_name m.0.organization m.1
                (extract_digests images namespaces) c.storage).1) [
                  | inl fine ↦ ground arith
                  | inr (x, failed) ↦ ground arith
                ]
      ]
    ]
  ]
