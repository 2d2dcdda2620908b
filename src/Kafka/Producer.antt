-- ===== src/Kafka/Producer.antt =====
-- The producer of a topic (base/utils/kafka.go). What the two `select` statements of a call find is
-- given to it.
pub mod Tally
use vuln4shift_backend.Prelude.{
  ℕ, ◌+◌, ◌%◌, ◌^◌, ◌-◌, Bool, ◌&&◌, Option, none, some, List, [], ◌∷◌, ◌++◌, ltb, Str,
}

pub record ProducerMessage : Type 0 where
  pub topic : Str
  pub key : Str
  pub value : Str
  pub timestamp : ℕ

-- `enqueued` is an `int`: a negative one stands from 2 ^ 63 on. `input` is what was written to the
-- channel of the writer.
pub record KafkaProducer : Type 0 where
  pub topic : Str
  pub number_of_successfully_produced_messages : ℕ
  pub number_of_errors_producing_messages : ℕ
  pub enqueued : ℕ
  pub input : List ProducerMessage

-- The producer that `NewKafkaProducer` makes.
unfoldable pub new_producer : Str → KafkaProducer
new_producer topic = record {
  topic = topic;
  number_of_successfully_produced_messages = 0;
  number_of_errors_producing_messages = 0;
  enqueued = 0;
  input = [];
}

-- What `awaitWriteResult` reads: from `Successes`, or from `Errors`.
pub data Reply (E : Type 0) : Type 0 where
  succeeded : Reply E
  failed : E → Reply E

-- What `write` comes to: the writer takes the message, or there is an error to read.
pub data Offer (E : Type 0) : Type 0 where
  taken : Offer E
  refused : E → Offer E

unfoldable pub increment_number_of_successfully_produced_messages : KafkaProducer → KafkaProducer
increment_number_of_successfully_produced_messages p = record p {
  number_of_successfully_produced_messages =
      (p.number_of_successfully_produced_messages + 1) % 2 ^ 64;
}

unfoldable pub increment_number_of_errors_producing_messages : KafkaProducer → KafkaProducer
increment_number_of_errors_producing_messages p = record p {
  number_of_errors_producing_messages = (p.number_of_errors_producing_messages + 1) % 2 ^ 64;
}

-- `producer.Enqueued--`
unfoldable pub decrement_enqueued : KafkaProducer → KafkaProducer
decrement_enqueued p = record p { enqueued = (p.enqueued + (2 ^ 64 - 1)) % 2 ^ 64 }

-- The case of the message being taken, up to the wait.
unfoldable pub enqueue : ProducerMessage → KafkaProducer → KafkaProducer
enqueue message p = record p {
  enqueued = (p.enqueued + 1) % 2 ^ 64;
  input = p.input ++ message ∷ [];
}

module _ {E : Type 0} where
  unfoldable pub await_write_result : Reply E → KafkaProducer → KafkaProducer × Option E
  unfolding increment_number_of_successfully_produced_messages
      increment_number_of_errors_producing_messages decrement_enqueued
  await_write_result succeeded p =
      (decrement_enqueued (increment_number_of_successfully_produced_messages p), none)
  await_write_result (failed e) p =
      (decrement_enqueued (increment_number_of_errors_producing_messages p), some e)

  -- The reply is read only where the message is taken.
  unfoldable pub write :
      ProducerMessage → Offer E → Reply E → KafkaProducer → KafkaProducer × Option E
  unfolding enqueue await_write_result increment_number_of_errors_producing_messages
      decrement_enqueued
  write message taken reply p = await_write_result reply (enqueue message p)
  write message (refused e) reply p =
      (decrement_enqueued (increment_number_of_errors_producing_messages p), some e)

  unfoldable pub send_message :
      Str → Str → ℕ → Offer E → Reply E → KafkaProducer → KafkaProducer × Option E
  unfolding write
  send_message key value now offer reply p =
      write (record { topic = p.topic; key = key; value = value; timestamp = now }) offer reply p

-- The warning of `Close`: `producer.Enqueued > 0`.
unfoldable pub has_unprocessed : KafkaProducer → Bool
has_unprocessed p = ltb 0 p.enqueued && ltb p.enqueued (2 ^ 63)
