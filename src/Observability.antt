-- ===== src/Observability.antt =====
-- The observability packages: the keys and values of attributes.
pub mod Key
pub mod Convert
pub mod Logs
pub mod Metrics
pub mod Tracer
mod Tests
