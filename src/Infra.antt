-- ===== src/Infra.antt =====
-- internal/infra: what the signals share.
pub mod Otlp
pub mod Fingerprint
