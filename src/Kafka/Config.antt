-- ===== src/Kafka/Config.antt =====
-- The settings of a consumer and a producer: the constructors of base/utils/kafka.go, and
-- SetKafkaSSLConfig and SetKafkaTLSConfig of base/utils/config.go. What the library sarama makes of
-- its configuration is a parameter.
pub mod Secured
use vuln4shift_backend.Prelude.{
  zero, suc, ℤ, pos, negsuc, Bool, true, false, not, ◌&&◌, Option, none, some, List, [], ◌∷◌,
  nat_beq, length, if◌then◌else◌, Str, codes, str_eq, ◌==◌, Result, ok, err, ◌>>=◌,
}
use vuln4shift_backend.Prelude.GoMap.{GoMap, lookup}
use vuln4shift_backend.Strings.{to_lower}
use vuln4shift_backend.Strings.Join.{split}

-- `clowder.BrokerConfig`, with the fields that are read.
pub record SaslConfig : Type 0 where
  pub sasl_mechanism : Option Str
  pub username : Option Str
  pub password : Option Str

pub record BrokerConfig : Type 0 where
  pub sasl : Option SaslConfig
  pub authtype : Option Str
  pub cacert : Option Str

-- The fields of `utils.Cfg` that Kafka needs.
pub record KafkaSettings : Type 0 where
  pub kafka_servers : List Str
  pub kafka_broker : BrokerConfig
  pub kafka_broker_consumer_group : Str
  pub kafka_broker_incoming_topic : Str
  pub kafka_consumer_timeout : Str
  pub kafka_producer_timeout : Str
  pub kafka_payload_tracker_topic : Str

-- `GetEnv` at strings, which a variable cannot fail to be.
unfoldable pub get_env : GoMap Str Str → Str → Str → Str
get_env env key def = elim (lookup key env) [ none ↦ def | some v ↦ v ]

-- What `initConfig` reads of Clowder's configuration, if it is enabled: the servers, the brokers, and
-- the names of the topics by those that were requested.
pub record Clowder : Type 0 where
  pub kafka_servers : List Str
  pub brokers : List BrokerConfig
  pub topics : GoMap Str Str

abbrev pub no_broker : BrokerConfig
no_broker = record { sasl = none; authtype = none; cacert = none }

clowder_servers : List Str → List BrokerConfig → List Str
clowder_servers servers [] = []
clowder_servers servers (broker ∷ brokers) = servers

first_broker : List BrokerConfig → BrokerConfig
first_broker [] = no_broker
first_broker (broker ∷ brokers) = broker

topic_name : Option Str → Str
topic_name none = []
topic_name (some name) = name

servers_of : GoMap Str Str → Option Clowder → List Str
unfolding clowder_servers get_env
servers_of env (some c) = clowder_servers c.kafka_servers c.brokers
servers_of env none = split b',' (get_env env (codes "KAFKA_SERVERS") [])

broker_of : Option Clowder → BrokerConfig
unfolding first_broker
broker_of (some c) = first_broker c.brokers
broker_of none = no_broker

topic_of : Str → Option Clowder → Str
unfolding topic_name
topic_of requested (some c) = topic_name (lookup requested c.topics)
topic_of requested none = requested

-- The part of `initConfig` on Kafka.
unfoldable pub init_kafka : GoMap Str Str → Option Clowder → KafkaSettings
unfolding get_env servers_of broker_of topic_of
init_kafka env clowder = record {
  kafka_servers = servers_of env clowder;
  kafka_broker = broker_of clowder;
  kafka_broker_consumer_group = get_env env (codes "KAFKA_BROKER_CONSUMER_GROUP") [];
  kafka_broker_incoming_topic =
      topic_of (get_env env (codes "KAFKA_BROKER_INCOMING_TOPIC") []) clowder;
  kafka_consumer_timeout = get_env env (codes "KAFKA_CONSUMER_TIMEOUT") [];
  kafka_producer_timeout = get_env env (codes "KAFKA_PRODUCER_TIMEOUT") [];
  kafka_payload_tracker_topic =
      topic_of (get_env env (codes "KAFKA_PAYLOAD_TRACKER_TOPIC") []) clowder;
}

pub data Mechanism : Type 0 where
  plain scram_sha_256 scram_sha_512 : Mechanism

-- The fields of `sarama.Config` that are written; a timeout is that of the three of `Net`.
pub record SaramaConfig : Type 0 where
  pub mechanism : Option Mechanism
  pub user : Str
  pub password : Str
  pub handshake : Bool
  pub sasl_enable : Bool
  pub tls_enable : Bool
  pub root_cas : Option Str
  pub timeout : Option ℤ
  pub return_successes : Bool

pub data KafkaError (E : Type 0) : Type 0 where
  no_kafka_servers no_consumer_group no_incoming_topic no_payload_tracker_topic : KafkaError E
  no_broker_address empty_producer_topic : KafkaError E
  no_sarama_config no_sasl_config no_sasl_mechanism no_username no_password : KafkaError E
  unknown_mechanism : Str → KafkaError E
  sarama : E → KafkaError E

-- `sarama.NewConfig()`
abbrev pub new_config : SaramaConfig
new_config = record {
  mechanism = none;
  user = [];
  password = [];
  handshake = true;
  sasl_enable = false;
  tls_enable = false;
  root_cas = none;
  timeout = none;
  return_successes = false;
}

-- The `switch` on the lower-cased name.
unfoldable pub known_mechanism : Str → Option Mechanism
known_mechanism name =
    if name == codes "plain"
    then some plain
    else if name == codes "scram-sha-256"
    then some scram_sha_256
    else if name == codes "scram-sha-512"
    then some scram_sha_512
    else none

-- `SetKafkaTLSConfig`, which fails never.
unfoldable pub set_kafka_tls_config : BrokerConfig → SaramaConfig → SaramaConfig
set_kafka_tls_config broker config = record config {
  tls_enable = true;
  root_cas = elim broker.cacert [
    | none ↦ none
    | some cert ↦ if cert == [] then none else some cert
  ];
}

secure_tls : BrokerConfig → Option Str → SaramaConfig → SaramaConfig
unfolding set_kafka_tls_config
secure_tls broker none config = config
secure_tls broker (some authtype) config = set_kafka_tls_config broker config

module _ {E : Type 0} where
  -- The user and the password, after the mechanism.
  set_credentials :
      Mechanism → Option Str → Option Str → SaramaConfig → Result (KafkaError E) SaramaConfig
  set_credentials m none password config = err no_username
  set_credentials m (some user) none config = err no_password
  set_credentials m (some user) (some password) config = ok (record config {
    mechanism = some m;
    user = user;
    password = password;
    handshake = true;
    sasl_enable = true;
  })

  set_known :
      SaslConfig → Str → Option Mechanism → SaramaConfig → Result (KafkaError E) SaramaConfig
  unfolding set_credentials
  set_known sasl name none config = err (unknown_mechanism name)
  set_known sasl name (some m) config = set_credentials m sasl.username sasl.password config

  set_mechanism : SaslConfig → Option Str → SaramaConfig → Result (KafkaError E) SaramaConfig
  unfolding set_known
  set_mechanism sasl none config = err no_sasl_mechanism
  set_mechanism sasl (some name) config =
      if name == []
      then err no_sasl_mechanism
      else set_known sasl name (known_mechanism (to_lower name)) config

  -- `SetKafkaSSLConfig`. What it has written when it fails is not read.
  unfoldable pub set_kafka_ssl_config :
      Option SaslConfig → Option SaramaConfig → Result (KafkaError E) SaramaConfig
  unfolding set_mechanism
  set_kafka_ssl_config sasl none = err no_sarama_config
  set_kafka_ssl_config none (some config) = err no_sasl_config
  set_kafka_ssl_config (some sasl) (some config) = set_mechanism sasl sasl.sasl_mechanism config

  -- `if Cfg.KafkaBroker.Sasl != nil`, and then `Authtype`.
  secure_sasl : Option SaslConfig → SaramaConfig → Result (KafkaError E) SaramaConfig
  unfolding set_kafka_ssl_config
  secure_sasl none config = ok config
  secure_sasl (some sasl) config = set_kafka_ssl_config (some sasl) (some config)

  secure : BrokerConfig → SaramaConfig → Result (KafkaError E) SaramaConfig
  unfolding secure_sasl secure_tls
  secure broker config = do
    config' ← secure_sasl broker.sasl config
    ok (secure_tls broker broker.authtype config')

  lift_sarama : {A : Type 0} → Result E A → Result (KafkaError E) A
  lift_sarama (ok a) = ok a
  lift_sarama (err e) = err (sarama e)

-- `timeout, err := time.ParseDuration(..)`: an error or zero leaves the defaults, and a negative
-- duration is set.
unfoldable pub with_timeout : Option ℤ → SaramaConfig → SaramaConfig
with_timeout none config = config
with_timeout (some (pos zero)) config = config
with_timeout (some (pos (suc n))) config = record config { timeout = some (pos (suc n)) }
with_timeout (some (negsuc n)) config = record config { timeout = some (negsuc n) }

module _ {G E : Type 0} (parse_duration : Str → Option ℤ)
    (new_consumer_group : List Str → Str → SaramaConfig → Result E G)
    (new_async_producer : List Str → SaramaConfig → Result E G) (cfg : KafkaSettings) where
  consumer_config : Option SaramaConfig → SaramaConfig
  unfolding with_timeout
  consumer_config none = with_timeout (parse_duration cfg.kafka_consumer_timeout) new_config
  consumer_config (some config) = config

  -- The group of `NewKafkaConsumer`.
  unfoldable pub new_kafka_consumer : Option SaramaConfig → Result (KafkaError E) G
  unfolding consumer_config secure lift_sarama
  new_kafka_consumer config =
      if nat_beq (length cfg.kafka_servers) 0
      then err no_kafka_servers
      else if cfg.kafka_broker_consumer_group == []
      then err no_consumer_group
      else if cfg.kafka_broker_incoming_topic == []
      then err no_incoming_topic
      else if cfg.kafka_payload_tracker_topic == []
      then err no_payload_tracker_topic
      else do
        secured ← secure cfg.kafka_broker (consumer_config config)
        lift_sarama (new_consumer_group cfg.kafka_servers cfg.kafka_broker_consumer_group secured)

  producer_config : Option SaramaConfig → SaramaConfig
  unfolding with_timeout
  producer_config none =
      with_timeout (parse_duration cfg.kafka_producer_timeout)
        (record new_config { return_successes = true })
  producer_config (some config) = config

  -- The writer of `NewKafkaProducer`.
  unfoldable pub new_kafka_producer : Option SaramaConfig → List Str → Str → Result (KafkaError E) G
  unfolding producer_config secure lift_sarama
  new_kafka_producer config kafka_servers topic =
      if nat_beq (length kafka_servers) 0
      then err no_broker_address
      else if topic == []
      then err empty_producer_topic
      else do
        secured ← secure cfg.kafka_broker (producer_config config)
        lift_sarama (new_async_producer kafka_servers secured)
