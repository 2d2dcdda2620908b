-- ===== src/Tests/Kafka.antt =====
-- A claim with a message that fails and one that is nil, sessions that fail at first, and calls of
-- SendMessage.
use vuln4shift_backend.Prelude.{
  ℕ, ℤ, ◌+◌, ◌≡◌, refl, true, false, Option, none, some, List, [], ◌∷◌, ◌++◌, arith, Str, codes,
  nat_eq, nat_beq, str_beq, Result, ok, err, if◌then◌else◌,
}
use vuln4shift_backend.Prelude.Action.{each}
use vuln4shift_backend.Strings.{to_lower}
use vuln4shift_backend.Digest.Message.{Workload, IncomingMessage}
use vuln4shift_backend.Digest.Consumer.{Consumer}
use vuln4shift_backend.Kafka.Config.{
  BrokerConfig, KafkaSettings, SaramaConfig, known_mechanism, new_kafka_consumer,
}
use vuln4shift_backend.Kafka.Config.Secured.{IsMade, new_kafka_consumer-IsMade}
use vuln4shift_backend.Kafka.Consumer.{
  new_consumer, handle_message, consume_claim, Session, Ready, setup, serve_sessions, Processor,
}
use vuln4shift_backend.Kafka.Consumer.Loop.{HasConsumed, MarkLaws, consume_claim-HasConsumed}
use vuln4shift_backend.Kafka.Consumer.Sessions.{Leaves, serve_sessions-Leaves}
use vuln4shift_backend.Kafka.Consumer.Digests.{
  TimedMessage, IsMatched, digest_processor, consume_claim-IsMatched,
}
use vuln4shift_backend.Kafka.Producer.{KafkaProducer, new_producer, taken, refused, succeeded}
use vuln4shift_backend.Kafka.Producer.Tally.{Call, after_calls, IsTallied, send_messages-IsTallied}

-- The sum of the messages, each an error when it is 0.
abbrev summing : Processor ℕ ℕ ℕ
summing m s = (s + m, if nat_beq m 0 then some 7 else none)

abbrev claim : List (Option ℕ)
claim = some 3 ∷ some 0 ∷ some 4 ∷ none ∷ some 5 ∷ []

-- A session that keeps what is marked.
abbrev logging : Option ℕ → List ℕ → Option (List ℕ)
logging none w = none
logging (some m) w = some (w ++ m ∷ [])

abbrev logging_laws : MarkLaws logging
logging_laws = record { marked = λ m w. w ++ m ∷ []; marks = λ m w. refl; panics = λ w. refl }

consume_claim-HasConsumed_example :
    HasConsumed summing
      (λ m w. w ++ m ∷ [])
      claim
      (new_consumer 10 [])
      (consume_claim logging (some summing) claim (new_consumer 10 []))
unfolding new_consumer
consume_claim-HasConsumed_example =
    consume_claim-HasConsumed summing logging logging_laws claim (new_consumer 10 []) (omega arith)

three_marked :
    (consume_claim logging (some summing) claim (new_consumer 10 [])).0.session ≡ 3 ∷ 0 ∷ 4 ∷ []
unfolding consume_claim new_consumer each handle_message
three_marked = refl

-- The first call of Consume fails.
abbrev failing_first : List Session
failing_first =
    record { set_up = false; cancelled = false }
    ∷ record { set_up = true; cancelled = false }
    ∷ record { set_up = true; cancelled = true }
    ∷ []

abbrev first_ready : Ready
first_ready = record { current = 0; closed = [] }

serve_sessions-Leaves_example : Leaves 0 false (serve_sessions failing_first first_ready)
serve_sessions-Leaves_example = serve_sessions-Leaves failing_first first_ready (λ k above. refl)

sessions_served :
    serve_sessions failing_first first_ready ≡ some (record { current = 2; closed = 2 ∷ 1 ∷ [] })
unfolding serve_sessions setup
sessions_served = refl

-- A message that is sent, and one that is turned away by an error of before.
abbrev two_calls : List (Call ℕ)
two_calls =
    record { key = codes "r"; value = codes "v"; now = 1; offer = taken; reply = succeeded }
    ∷ record { key = codes "s"; value = codes "w"; now = 2; offer = refused 5; reply = succeeded }
    ∷ []

abbrev tracker : KafkaProducer
unfolding new_producer
tracker = new_producer (codes "tracker")

send_messages-IsTallied_example : IsTallied two_calls tracker (after_calls two_calls tracker)
send_messages-IsTallied_example = send_messages-IsTallied two_calls tracker

-- The kept messages, of which one cannot be parsed.
abbrev texts : List (Option TimedMessage)
texts =
    some (record { value = codes "a"; now = 1; later = 2 })
    ∷ none
    ∷ some (record { value = []; now = 3; later = 4 })
    ∷ []

abbrev no_counts : Consumer ℕ
no_counts = record {
  storage = 0;
  messages_with_empty_digests = 0;
  parse_incoming_message_error = 0;
  parsed_incoming_message = 0;
  stored_messages_error = 0;
  stored_messages_ok = 0;
  launched = [];
}

abbrev counting : Str → Str → Workload → List Str → ℕ → ℕ × Option Str
counting cluster org w digests n = (n + 1, none)

abbrev unless_blank : Str → Option IncomingMessage
unless_blank [] = none
unless_blank (c ∷ text) = some (record {
  organization = codes "o";
  account_number = [];
  cluster_name = codes "u";
  workload = some (record { image_count = 0; images = some []; namespaces = some [] });
  version = 1;
  request_id = c ∷ text;
})

-- A session in which every message can be marked.
abbrev keep_none : Option TimedMessage → ℕ → Option ℕ
keep_none m w = some (w + 1)

consume_claim-IsMatched_example :
    IsMatched
      (consume_claim keep_none
        (some (digest_processor (λ s. none) unless_blank counting))
        texts
        (new_consumer no_counts 0)).0
unfolding new_consumer
consume_claim-IsMatched_example =
    consume_claim-IsMatched (λ s. none) unless_blank counting keep_none texts
      (new_consumer no_counts 0) (record { successes = refl; failures = refl })

abbrev broker : BrokerConfig
broker = record {
  sasl = some (record {
    sasl_mechanism = some (codes "Plain");
    username = some (codes "u");
    password = some (codes "p");
  });
  authtype = some (codes "sasl");
  cacert = none;
}

abbrev settings : KafkaSettings
settings = record {
  kafka_servers = codes "localhost:9092" ∷ [];
  kafka_broker = broker;
  kafka_broker_consumer_group = codes "group";
  kafka_broker_incoming_topic = codes "digests";
  kafka_consumer_timeout = [];
  kafka_producer_timeout = [];
  kafka_payload_tracker_topic = codes "tracker";
}

abbrev no_duration : Str → Option ℤ
no_duration s = none

abbrev any_group : List Str → Str → SaramaConfig → Result ℕ ℕ
any_group servers name config = ok 5

abbrev any_writer : List Str → SaramaConfig → Result ℕ ℕ
any_writer servers config = err 1

new_kafka_consumer-IsMade_example : IsMade no_duration any_group any_writer settings 5
unfolding new_kafka_consumer str_beq known_mechanism to_lower
new_kafka_consumer-IsMade_example =
    new_kafka_consumer-IsMade no_duration any_group any_writer settings none 5 refl
