-- ===== src/Nats/Producer.antt =====
-- The nats/producer package.
mod Tests
pub mod Message
pub mod Lifecycle
