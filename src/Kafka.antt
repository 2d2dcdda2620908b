-- ===== src/Kafka.antt =====
-- The messages of Kafka (base/utils/kafka.go), over the channels of the library sarama.
pub mod Config
pub mod Consumer
pub mod Producer
