-- ===== src/Digest/Consumer/Sends.antt =====
-- The calls of `sendPayloadTrackerMessage`, in whatever order they come to run.
use vuln4shift_backend.Prelude.{
  ℕ, ◌+◌, ◌≡◌, Bool, Option, none, some, List, [], ◌∷◌, length, arith, if◌then◌else◌, Str,
}
use vuln4shift_backend.Digest.Consumer.{
  TrackerEvent, Tracker, SendError, send_kafka_message, send_payload_tracker_message, counted,
}

module _ {P F : Type 0} (marshal : TrackerEvent → Option Str)
    (send_message : Str → Str → P → P × Option F) (use_payload_tracker : Bool) where
  abbrev pub sent : TrackerEvent → Tracker P → Tracker P
  sent e t = send_payload_tracker_message marshal send_message use_payload_tracker e t

  -- The calls for some events, in the order in which they run.
  abbrev pub run_sends : List TrackerEvent → Tracker P → Tracker P
  run_sends [] t = t
  run_sends (e ∷ events) t = run_sends events (sent e t)

  -- The errors that `SendKafkaMessage` returns to these calls.
  abbrev failure : Option (SendError F) → ℕ
  failure none = 0
  failure (some e) = 1

  abbrev pub failures : List TrackerEvent → Tracker P → ℕ
  failures [] t = 0
  failures (e ∷ events) t =
      failure (send_kafka_message marshal send_message e t.producer).1 + failures events (sent e t)

  -- What is counted: each call once, as an error if it failed; nothing where the tracker is not used.
  pub record IsCounted (events : List TrackerEvent) (t t' : Tracker P) : Type 0 where
    pub all_counted :
        t'.payload_tracker_error + t'.payload_tracker_message_sent
        ≡ t.payload_tracker_error
          + t.payload_tracker_message_sent
          + (if use_payload_tracker then length events else 0)
    pub errors_counted :
        t'.payload_tracker_error
        ≡ t.payload_tracker_error + (if use_payload_tracker then failures events t else 0)
    pub untouched : (if use_payload_tracker then t.producer else t'.producer) ≡ t.producer

  counted-errors :
      (t : Tracker P) (r : P × Option (SendError F))
      → let t' = counted marshal send_message t r in
        (t'.payload_tracker_error ≡ t.payload_tracker_error + failure r.1)
        × (t'.payload_tracker_error + t'.payload_tracker_message_sent
            ≡ t.payload_tracker_error + t.payload_tracker_message_sent + 1)
  unfolding counted
  counted-errors t (p, none) = omega arith
  counted-errors t (p, some e) = omega arith

  -- In whatever order the calls run, each of them counts one message, as an error exactly if
  -- SendKafkaMessage returned one to it; where the tracker is not used nothing is counted and the producer left alone.
  pub run_sends-IsCounted :
      (events : List TrackerEvent) (t : Tracker P) → IsCounted events t (run_sends events t)
  unfolding send_payload_tracker_message
  run_sends-IsCounted [] t = record {
    all_counted = ground arith;
    errors_counted = ground arith;
    untouched = ground arith;
  }
  run_sends-IsCounted (e ∷ events) t =
      let rest = run_sends-IsCounted events (sent e t) in
      let one = counted-errors t (send_kafka_message marshal send_message e t.producer) in
      record {
        all_counted = ground (arith, rest.all_counted, one);
        errors_counted = ground (arith, rest.errors_counted, one);
        untouched = ground (arith, rest.untouched);
      }
