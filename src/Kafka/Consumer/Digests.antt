-- ===== src/Kafka/Consumer/Digests.antt =====
-- The consumer of the digest writer: `KafkaConsumer` with `DigestConsumer` as its processor.
use vuln4shift_backend.Prelude.{
  ℕ, ◌^◌, ◌%◌, ◌≡◌, Option, none, some, List, [], ◌∷◌, arith, Str, Result, ok, err, inl, inr,
  Option-cases,
}
use vuln4shift_backend.Prelude.Action.{Action, each, continue}
use vuln4shift_backend.Digest.Message.{Workload, IncomingMessage}
use vuln4shift_backend.Digest.Consumer.{Consumer, ProcessError, process_message}
use vuln4shift_backend.Digest.Consumer.Accounting.{
  served, rejected, Tallied, process_message-Tallied,
}
use vuln4shift_backend.Kafka.Consumer.{
  KafkaConsumer, Panic, Processor, count, handle_message, mark_message, consume_message,
  consume_claim, increment_number_of_successfully_consumed_messages,
  increment_number_of_errors_consuming_messages,
}

-- A message's value, with the times of its two events.
pub record TimedMessage : Type 0 where
  pub value : Str
  pub now : ℕ
  pub later : ℕ

-- What the two kinds of counters say of each other, up to the 64 bits of those that wrap.
pub record IsMatched {S W : Type 0} (c : KafkaConsumer (Consumer S) W) : Type 0 where
  pub successes :
      c.number_of_successfully_consumed_messages % 2 ^ 64 ≡ served c.processor_state % 2 ^ 64
  pub failures :
      c.number_of_errors_consuming_messages % 2 ^ 64 ≡ rejected c.processor_state % 2 ^ 64

module _ {S W E : Type 0} where
  count-IsMatched :
      (c : KafkaConsumer (Consumer S) W) (d : Consumer S) (r : Option E)
      → Tallied c.processor_state d r
      → IsMatched c
      → IsMatched (count r (record c { processor_state = d }))
  unfolding count increment_number_of_successfully_consumed_messages
      increment_number_of_errors_consuming_messages
  count-IsMatched c d none t h = ground (arith, t, h)
  count-IsMatched c d (some e) t h = ground (arith, t, h)

module _ {S E : Type 0} (gunzip : Str → Option Str) (decode : Str → Option IncomingMessage)
    (write_cluster_info : Str → Str → Workload → List Str → S → S × Option E) where
  -- `DigestConsumer` as a `Processor`.
  abbrev pub digest_processor : Processor (Consumer S) TimedMessage (ProcessError E)
  digest_processor m c = process_message gunzip decode write_cluster_info m.value m.now m.later c

  module _ {W : Type 0} (mark : Option TimedMessage → W → Option W) where
    mark_message-IsMatched :
        (m : Option TimedMessage) (c : KafkaConsumer (Consumer S) W)
        → IsMatched c
        → IsMatched (mark_message mark m c).0
    unfolding mark_message
    mark_message-IsMatched m c h = elim (Option-cases (mark m c.session)) [
      | inl e ↦ ground (arith, e, h)
      | inr (w, e) ↦ ground (arith, e, h)
    ]

    consume_message-IsMatched :
        (m : Option TimedMessage) (c : KafkaConsumer (Consumer S) W)
        → IsMatched c
        → IsMatched (consume_message mark (some digest_processor) m c).0
    unfolding consume_message handle_message
    consume_message-IsMatched none c h = mark_message-IsMatched none c h
    consume_message-IsMatched (some m) c h =
        let d = digest_processor m c.processor_state in
        mark_message-IsMatched (some m) (count d.1 (record c { processor_state = d.0 })) (
          count-IsMatched c d.0 d.1
            (process_message-Tallied gunzip decode write_cluster_info m.value m.now m.later
              c.processor_state)
            h)

    continue-IsMatched :
        (f : Action (KafkaConsumer (Consumer S) W) Panic (Unit {0}))
        (r : KafkaConsumer (Consumer S) W × Result Panic (Unit {0}))
        → ((c : KafkaConsumer (Consumer S) W) → IsMatched c → IsMatched (f c).0)
        → IsMatched r.0
        → IsMatched (continue (λ _. f) r).0
    continue-IsMatched f (c, ok u) k h = k c h
    continue-IsMatched f (c, err e) k h = h

    -- Whatever the messages, and wherever marking one panics, the consumer goes on counting as
    -- successes those that were stored or had no digests, and as errors those that could not be
    -- parsed or stored.
    pub consume_claim-IsMatched :
        (messages : List (Option TimedMessage)) (c : KafkaConsumer (Consumer S) W)
        → IsMatched c
        → IsMatched (consume_claim mark (some digest_processor) messages c).0
    unfolding consume_claim each
    consume_claim-IsMatched [] c h = h
    consume_claim-IsMatched (m ∷ messages) c h =
        continue-IsMatched (consume_claim mark (some digest_processor) messages) _
          (consume_claim-IsMatched messages) (consume_message-IsMatched m c h)
