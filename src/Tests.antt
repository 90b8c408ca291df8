-- ===== src/Tests.antt =====
-- Runs of the model on concrete inputs, and the theorems applied where their hypotheses hold.
mod Otlp
mod Fingerprint
mod Core
mod Samples
mod OneSlot
mod Auth
mod Spans
mod Stats
mod Logs
mod Kafka
mod Export
mod Config
mod Writer
mod App
mod Lag
mod Program
mod Grpc
mod Stored
