-- ===== src/Kafka/Config/Secured.antt =====
-- What a consumer that could be made was made with.
use vuln4shift_backend.Prelude.{
  ℤ, ◌≡◌, ◌≢◌, refl, true, false, Option, none, some, List, [], ◌∷◌, arith, nat_beq, length,
  is_some, Str, codes, str_eq, str_beq, ◌==◌, Result, ok, err, Ensures, Ensures-if, Ensures-eq-ok,
  Ensures-bind, ◌>>=◌,
}
use vuln4shift_backend.Prelude.GoMap.{GoMap}
use vuln4shift_backend.Strings.{to_lower}
use vuln4shift_backend.Strings.Join.{split-ne-nil}
use vuln4shift_backend.Kafka.Config.{
  SaslConfig, BrokerConfig, KafkaSettings, Mechanism, SaramaConfig, known_mechanism,
  set_credentials, set_known, set_mechanism, set_kafka_ssl_config, set_kafka_tls_config,
  secure_sasl, secure_tls, secure, lift_sarama, consumer_config, get_env, servers_of, init_kafka,
  new_kafka_consumer,
}

-- What the broker asks for is switched on.
pub record IsSecured (broker : BrokerConfig) (config : SaramaConfig) : Type 0 where
  pub authenticated :
      is_some broker.sasl ≡ true → (config.sasl_enable ≡ true) × (is_some config.mechanism ≡ true)
  pub encrypted : is_some broker.authtype ≡ true → config.tls_enable ≡ true

-- The settings that are asked for are there.
pub record IsComplete (cfg : KafkaSettings) : Type 0 where
  pub servers : nat_beq (length cfg.kafka_servers) 0 ≡ false
  pub group : cfg.kafka_broker_consumer_group ≢ []
  pub topic : cfg.kafka_broker_incoming_topic ≢ []
  pub tracker : cfg.kafka_payload_tracker_topic ≢ []

abbrev Authenticated : SaramaConfig → Type 0
Authenticated config = (config.sasl_enable ≡ true) × (is_some config.mechanism ≡ true)

abbrev Anything : {E : Type 0} → E → Type 0
Anything e = Unit

-- What `Sasl` leaves, and what `Authtype` adds.
abbrev HasSasl : Option SaslConfig → SaramaConfig → Type 0
HasSasl sasl config = is_some sasl ≡ true → Authenticated config

secure_tls-IsSecured :
    (broker : BrokerConfig) (authtype : Option Str) (config : SaramaConfig)
    → authtype ≡ broker.authtype
    → HasSasl broker.sasl config
    → IsSecured broker (secure_tls broker authtype config)
unfolding secure_tls set_kafka_tls_config
secure_tls-IsSecured broker none config e h = record {
  authenticated = h;
  encrypted = λ asked. ground (arith, e, asked);
}
secure_tls-IsSecured broker (some authtype) config e h = record {
  authenticated = h;
  encrypted = λ asked. refl;
}

not_empty : (s : Str) → (s == []) ≡ false → s ≢ []
unfolding str_beq
not_empty [] h e = ground (arith, h)
not_empty (c ∷ s) h e = ground (arith, e)

Ensures-map :
    {E A : Type 0} (P Q : A → Type 0) (X : E → Type 0) (r : Result E A)
    → ((a : A) → P a → Q a)
    → Ensures P X r
    → Ensures Q X r
Ensures-map P Q X (ok a) f h = f a h
Ensures-map P Q X (err e) f h = h

module _ (E : Type 0) where
  set_credentials-Ensures :
      (m : Mechanism) (user password : Option Str) (config : SaramaConfig)
      → Ensures Authenticated Anything (set_credentials {E = E} m user password config)
  unfolding set_credentials
  set_credentials-Ensures m none password config = tt
  set_credentials-Ensures m (some user) none config = tt
  set_credentials-Ensures m (some user) (some password) config = (refl, refl)

  set_known-Ensures :
      (sasl : SaslConfig) (name : Str) (m : Option Mechanism) (config : SaramaConfig)
      → Ensures Authenticated Anything (set_known {E = E} sasl name m config)
  unfolding set_known
  set_known-Ensures sasl name none config = tt
  set_known-Ensures sasl name (some m) config =
      set_credentials-Ensures m sasl.username sasl.password config

  set_mechanism-Ensures :
      (sasl : SaslConfig) (name : Option Str) (config : SaramaConfig)
      → Ensures Authenticated Anything (set_mechanism {E = E} sasl name config)
  unfolding set_mechanism
  set_mechanism-Ensures sasl none config = tt
  set_mechanism-Ensures sasl (some name) config =
      Ensures-if Authenticated Anything (name == []) _ _ (λ e. tt)
        (λ e. set_known-Ensures sasl name (known_mechanism (to_lower name)) config)

  secure_sasl-Ensures :
      (sasl : Option SaslConfig) (config : SaramaConfig)
      → Ensures (HasSasl sasl) Anything (secure_sasl {E = E} sasl config)
  unfolding secure_sasl set_kafka_ssl_config
  secure_sasl-Ensures none config = λ h. ground (arith, h)
  secure_sasl-Ensures (some sasl) config =
      Ensures-map Authenticated (HasSasl (some sasl)) Anything
        (set_mechanism {E = E} sasl sasl.sasl_mechanism config) (λ c h asked. h)
        (set_mechanism-Ensures sasl sasl.sasl_mechanism config)

  secure-Ensures :
      (broker : BrokerConfig) (config : SaramaConfig)
      → Ensures (IsSecured broker) Anything (secure {E = E} broker config)
  unfolding secure
  secure-Ensures broker config =
      Ensures-bind (IsSecured broker) Anything (HasSasl broker.sasl)
        (secure_sasl {E = E} broker.sasl config)
        (λ config'. ok (secure_tls broker broker.authtype config'))
        (secure_sasl-Ensures broker.sasl config)
        λ config' h. secure_tls-IsSecured broker broker.authtype config' refl h

module _ {G E : Type 0} (parse_duration : Str → Option ℤ)
    (new_consumer_group : List Str → Str → SaramaConfig → Result E G)
    (new_async_producer : List Str → SaramaConfig → Result E G) (cfg : KafkaSettings) where
  -- The group that a consumer is made on: of a complete configuration, and with what the broker asks
  -- for.
  abbrev pub IsMade : G → Type 0
  IsMade g =
      IsComplete cfg
      × (used : SaramaConfig) × IsSecured cfg.kafka_broker used
      × (new_consumer_group cfg.kafka_servers cfg.kafka_broker_consumer_group used ≡ ok g)

  lift_sarama-Ensures :
      (used : SaramaConfig) (r : Result E G)
      → IsComplete cfg
      → IsSecured cfg.kafka_broker used
      → new_consumer_group cfg.kafka_servers cfg.kafka_broker_consumer_group used ≡ r
      → Ensures IsMade Anything (lift_sarama r)
  unfolding lift_sarama
  lift_sarama-Ensures used (ok g) c h e = (c, used, h, e)
  lift_sarama-Ensures used (err x) c h e = tt

  connect-Ensures :
      (config : SaramaConfig)
      → IsComplete cfg
      → Ensures IsMade Anything (
          secure cfg.kafka_broker config >>= λ used.
          lift_sarama (new_consumer_group cfg.kafka_servers cfg.kafka_broker_consumer_group used))
  connect-Ensures config c =
      Ensures-bind IsMade Anything (IsSecured cfg.kafka_broker) (secure cfg.kafka_broker config)
        (λ used.
          lift_sarama (new_consumer_group cfg.kafka_servers cfg.kafka_broker_consumer_group used))
        (secure-Ensures E cfg.kafka_broker config) λ used h. lift_sarama-Ensures used _ c h refl

  new_kafka_consumer-Ensures :
      (config : Option SaramaConfig)
      → Ensures IsMade Anything
          (new_kafka_consumer parse_duration new_consumer_group new_async_producer cfg config)
  unfolding new_kafka_consumer
  new_kafka_consumer-Ensures config =
      Ensures-if IsMade Anything (nat_beq (length cfg.kafka_servers) 0) _ _ (λ _. tt)
        λ servers.
          Ensures-if IsMade Anything (cfg.kafka_broker_consumer_group == []) _ _ (λ _. tt)
            λ group.
              Ensures-if IsMade Anything (cfg.kafka_broker_incoming_topic == []) _ _ (λ _. tt)
                λ topic.
                  Ensures-if IsMade Anything (cfg.kafka_payload_tracker_topic == []) _ _ (λ _. tt)
                    λ tracker.
                      connect-Ensures
                        (consumer_config parse_duration new_consumer_group new_async_producer cfg
                          config)
                        (record {
                          servers = servers;
                          group = not_empty cfg.kafka_broker_consumer_group group;
                          topic = not_empty cfg.kafka_broker_incoming_topic topic;
                          tracker = not_empty cfg.kafka_payload_tracker_topic tracker;
                        })

  -- A consumer is made only with all settings, and on a group of the broker with SASL and TLS switched
  -- on where the broker asks for them, whether it is given a configuration or makes its own.
  pub new_kafka_consumer-IsMade :
      (config : Option SaramaConfig) (g : G)
      → new_kafka_consumer parse_duration new_consumer_group new_async_producer cfg config ≡ ok g
      → IsMade g
  new_kafka_consumer-IsMade config g e =
      Ensures-eq-ok IsMade Anything _ (new_kafka_consumer-Ensures config) e

length-ne-nil : (parts : List Str) → parts ≢ [] → nat_beq (length parts) 0 ≡ false
length-ne-nil [] n = absurd (n refl)
length-ne-nil (p ∷ parts) n = ground arith

-- Outside of Clowder there is always a server, if only one with an empty name.
pub init_kafka-servers :
    (env : GoMap Str Str) → nat_beq (length (init_kafka env none).kafka_servers) 0 ≡ false
unfolding init_kafka servers_of
init_kafka-servers env =
    length-ne-nil _ (split-ne-nil b',' (get_env env (codes "KAFKA_SERVERS") []))
