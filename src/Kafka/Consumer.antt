-- ===== src/Kafka/Consumer.antt =====
-- The consumer of a topic (base/utils/kafka.go): the loop over the messages of a claim, and the
-- sessions that `Serve` runs one after the other.
pub mod Loop
pub mod Sessions
pub mod Digests
use vuln4shift_backend.Prelude.{
  ℕ, suc, ◌+◌, ◌%◌, ◌^◌, Bool, true, false, not, Option, none, some, List, [], ◌∷◌, nat_eq,
  contains, if◌then◌else◌, Result, ok, err,
}
use vuln4shift_backend.Prelude.Action.{Action, pure, fail, ◌>>=◌, each}

-- A consumer, the state `S` of its processor and the state `W` of its session. The counters are
-- `uint64`.
pub record KafkaConsumer (S W : Type 0) : Type 0 where
  pub processor_state : S
  pub number_of_successfully_consumed_messages : ℕ
  pub number_of_errors_consuming_messages : ℕ
  pub session : W

-- The consumer that `NewKafkaConsumer` makes, with the session that it comes to.
unfoldable pub new_consumer : {S W : Type 0} → S → W → KafkaConsumer S W
new_consumer processor session = record {
  processor_state = processor;
  number_of_successfully_consumed_messages = 0;
  number_of_errors_consuming_messages = 0;
  session = session;
}

pub data Panic : Type 0 where
  no_processor : Panic
  marking : Panic

module _ {S W : Type 0} where
  unfoldable pub increment_number_of_successfully_consumed_messages :
      KafkaConsumer S W → KafkaConsumer S W
  increment_number_of_successfully_consumed_messages c = record c {
    number_of_successfully_consumed_messages =
        (c.number_of_successfully_consumed_messages + 1) % 2 ^ 64;
  }

  unfoldable pub increment_number_of_errors_consuming_messages :
      KafkaConsumer S W → KafkaConsumer S W
  increment_number_of_errors_consuming_messages c = record c {
    number_of_errors_consuming_messages = (c.number_of_errors_consuming_messages + 1) % 2 ^ 64;
  }

  -- From what the processor returned.
  count : {E : Type 0} → Option E → KafkaConsumer S W → KafkaConsumer S W
  unfolding increment_number_of_successfully_consumed_messages
      increment_number_of_errors_consuming_messages
  count (some e) c = increment_number_of_errors_consuming_messages c
  count none c = increment_number_of_successfully_consumed_messages c

-- What a processor does to its state, and its error.
abbrev pub Processor : Type 0 → Type 0 → Type 0 → Type 0
Processor S M E = M → S → S × Option E

module _ {S W M E : Type 0} where
  -- `handleMessage`, on a processor and a message that may be nil.
  unfoldable pub handle_message :
      Option (Processor S M E) → Option M → Action (KafkaConsumer S W) Panic (Unit {0})
  unfolding count
  handle_message none message c = (c, err no_processor)
  handle_message (some process) none c = (c, ok tt)
  handle_message (some process) (some message) c =
      let (s, result) = process message c.processor_state in
      (count result (record c { processor_state = s }), ok tt)

-- `MarkMessage` of the session is `mark`, which gives none where it panics.
module _ {S W M : Type 0} (mark : Option M → W → Option W) where
  mark_message : Option M → Action (KafkaConsumer S W) Panic (Unit {0})
  mark_message message c = elim (mark message c.session) [
    | none ↦ (c, err marking)
    | some w ↦ (record c { session = w }, ok tt)
  ]

  -- The body of the loop.
  consume_message :
      {E : Type 0}
      → Option (Processor S M E)
      → Option M
      → Action (KafkaConsumer S W) Panic (Unit {0})
  unfolding handle_message mark_message
  consume_message processor message = handle_message processor message >>= λ _. mark_message message

  -- `ConsumeClaim` on the messages of a claim.
  unfoldable pub consume_claim :
      {E : Type 0}
      → Option (Processor S M E)
      → List (Option M)
      → Action (KafkaConsumer S W) Panic (Unit {0})
  unfolding consume_message
  consume_claim processor messages = each (consume_message processor) messages

-- A call of `ConsumerGroup.Consume`: whether it came to call `Setup`, and whether the context is
-- cancelled when it returns.
pub record Session : Type 0 where
  pub set_up : Bool
  pub cancelled : Bool

-- The channels that `Ready` has been, by number: the one it is now, and the closed ones.
pub record Ready : Type 0 where
  pub current : ℕ
  pub closed : List ℕ

-- `Setup` closes the channel, which panics if it is closed.
unfoldable pub setup : Ready → Option Ready
setup r =
    if contains r.closed r.current
    then none
    else some (record { current = r.current; closed = r.current ∷ r.closed })

after_setup : Bool → Ready → Option Ready
unfolding setup
after_setup true r = setup r
after_setup false r = some r

make_ready : Ready → Ready
make_ready r = record { current = suc r.current; closed = r.closed }

-- The goroutine of `Serve`, over the sessions that come about.
unfoldable pub serve_sessions : List Session → Ready → Option Ready
unfolding after_setup make_ready
serve_sessions [] r = some r
serve_sessions (s ∷ sessions) r = elim (after_setup s.set_up r) [
  | none ↦ none
  | some r' ↦ if s.cancelled then some r' else serve_sessions sessions (make_ready r')
]

module _ {W : Type 0} where
  when_set : Option (W → W) → W → W
  when_set none w = w
  when_set (some call) w = call w

  close_group : {E : Type 0} → Option (W → W × Option E) → W → W
  close_group none w = w
  close_group (some call) w = (call w).0

  -- `Close`: each of the three is called if it is there, and the error of the last is dropped.
  unfoldable pub close :
      {E : Type 0} → Option (W → W) → Option (W → W) → Option (W → W × Option E) → W → W
  unfolding when_set close_group
  close shutdown cancel group w = close_group group (when_set cancel (when_set shutdown w))
