-- ===== src/Nats/Consumer.antt =====
-- The nats/consumer package.
pub mod Config
pub mod Handler
pub mod Lifecycle
