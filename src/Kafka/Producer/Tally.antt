-- ===== src/Kafka/Producer/Tally.antt =====
-- Calls of SendMessage that do not overlap.
use vuln4shift_backend.Prelude.{
  ℕ, suc, ◌+◌, ◌%◌, ◌^◌, ◌≡◌, refl, sym, ◌∙◌, ap, Option, none, some, List, [], ◌∷◌, ◌++◌,
  append-nil, append_assoc, arith, Str,
}
use vuln4shift_backend.Kafka.Producer.{
  KafkaProducer, ProducerMessage, Offer, taken, refused, Reply, succeeded, failed, enqueue,
  await_write_result, write, send_message, increment_number_of_successfully_produced_messages,
  increment_number_of_errors_producing_messages, decrement_enqueued,
}

-- A call: its key and value, the time, and what its two `select` statements find.
pub record Call (E : Type 0) : Type 0 where
  pub key : Str
  pub value : Str
  pub now : ℕ
  pub offer : Offer E
  pub reply : Reply E

module _ {E : Type 0} where
  abbrev pub called : Call E → KafkaProducer → KafkaProducer × Option E
  called c p = send_message c.key c.value c.now c.offer c.reply p

  -- The producer after some calls, and their errors.
  abbrev pub after_calls : List (Call E) → KafkaProducer → KafkaProducer
  after_calls [] p = p
  after_calls (c ∷ calls) p = after_calls calls (called c p).0

  abbrev pub results : List (Call E) → KafkaProducer → List (Option E)
  results [] p = []
  results (c ∷ calls) p = (called c p).1 ∷ results calls (called c p).0

  abbrev pub successes : List (Option E) → ℕ
  successes [] = 0
  successes (none ∷ rs) = suc (successes rs)
  successes (some e ∷ rs) = successes rs

  abbrev pub errors : List (Option E) → ℕ
  errors [] = 0
  errors (none ∷ rs) = errors rs
  errors (some e ∷ rs) = suc (errors rs)

  -- The calls that read an error before their message was taken.
  abbrev turned_away : Offer E → ℕ → ℕ
  turned_away taken n = n
  turned_away (refused e) n = suc n

  abbrev pub refusals : List (Call E) → ℕ
  refusals [] = 0
  refusals (c ∷ calls) = turned_away c.offer (refusals calls)

  abbrev message_of : Str → Call E → ProducerMessage
  message_of topic c = record { topic = topic; key = c.key; value = c.value; timestamp = c.now }

  abbrev accepted : Str → Call E → Offer E → List ProducerMessage
  accepted topic c taken = message_of topic c ∷ []
  accepted topic c (refused e) = []

  -- The messages that the writer took, in order.
  abbrev pub inputs : Str → List (Call E) → List ProducerMessage
  inputs topic [] = []
  inputs topic (c ∷ calls) = accepted topic c c.offer ++ inputs topic calls

-- What some calls leave of a producer `p`.
pub record IsTallied {E : Type 0} (calls : List (Call E)) (p p' : KafkaProducer) : Type 0 where
  pub succeeded_count :
      p'.number_of_successfully_produced_messages % 2 ^ 64
      ≡ (p.number_of_successfully_produced_messages + successes (results calls p)) % 2 ^ 64
  pub failed_count :
      p'.number_of_errors_producing_messages % 2 ^ 64
      ≡ (p.number_of_errors_producing_messages + errors (results calls p)) % 2 ^ 64
  pub level : (p'.enqueued + refusals calls) % 2 ^ 64 ≡ p.enqueued % 2 ^ 64
  pub written : p'.input ≡ p.input ++ inputs p.topic calls
  pub same_topic : p'.topic ≡ p.topic

module _ {E : Type 0} where
  write-IsTallied :
      (offer : Offer E) (reply : Reply E) (key value : Str) (now : ℕ) (p : KafkaProducer)
      → let c : Call E = record {
        key = key;
        value = value;
        now = now;
        offer = offer;
        reply = reply;
      } in
        IsTallied (c ∷ []) p (called c p).0
  unfolding send_message write enqueue await_write_result decrement_enqueued
      increment_number_of_successfully_produced_messages
      increment_number_of_errors_producing_messages
  write-IsTallied taken succeeded key value now p = ground arith
  write-IsTallied taken (failed e) key value now p = ground arith
  write-IsTallied (refused e) succeeded key value now p = ground (arith, append-nil p.input)
  write-IsTallied (refused e) (failed e') key value now p = ground (arith, append-nil p.input)

  errors-cons :
      (r : Option E) (rs : List (Option E)) → errors (r ∷ rs) ≡ errors (r ∷ []) + errors rs
  errors-cons none rs = omega arith
  errors-cons (some e) rs = omega arith

  successes-cons :
      (r : Option E) (rs : List (Option E)) → successes (r ∷ rs) ≡ successes (r ∷ []) + successes rs
  successes-cons none rs = omega arith
  successes-cons (some e) rs = omega arith

  turned_away-add : (offer : Offer E) (n : ℕ) → turned_away offer n ≡ turned_away offer 0 + n
  turned_away-add taken n = omega arith
  turned_away-add (refused e) n = omega arith

  -- After calls one after another each counter has grown by the number of calls that returned no
  -- error, and that returned one, up to its 64 bits, `Enqueued` has fallen by the number of calls that
  -- were turned away, and the writer was given the messages of the other calls, in order.
  pub send_messages-IsTallied :
      (calls : List (Call E)) (p : KafkaProducer) → IsTallied calls p (after_calls calls p)
  send_messages-IsTallied [] p = record {
    succeeded_count = omega arith;
    failed_count = omega arith;
    level = omega arith;
    written = sym (append-nil p.input);
    same_topic = refl;
  }
  send_messages-IsTallied (c ∷ calls) p =
      let p1 = (called c p).0 in
      let one = write-IsTallied c.offer c.reply c.key c.value c.now p in
      let rest = send_messages-IsTallied calls p1 in
      record {
        succeeded_count = omega (
          arith,
          one.succeeded_count,
          rest.succeeded_count,
          successes-cons (called c p).1 (results calls p1),
        );
        failed_count = omega (
          arith,
          one.failed_count,
          rest.failed_count,
          errors-cons (called c p).1 (results calls p1),
        );
        level = omega (arith, one.level, rest.level, turned_away-add c.offer (refusals calls));
        written =
            rest.written
            ∙ ap (λ t. p1.input ++ inputs t calls) one.same_topic
            ∙ ap (λ l. l ++ inputs p.topic calls)
                (one.written ∙ ap (λ l. p.input ++ l) (append-nil (accepted p.topic c c.offer)))
            ∙ append_assoc p.input (accepted p.topic c c.offer) (inputs p.topic calls);
        same_topic = rest.same_topic ∙ one.same_topic;
      }
