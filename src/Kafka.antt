-- ===== src/Kafka.antt =====
-- internal/infra/kafka: the pipeline of the consumer (consumer.go), the topics (topics.go), the
-- clients (client.go) and what is observed of them (observability.go).
pub mod Consumer
pub mod Topics
pub mod Lag
pub mod Signal
pub mod Client
