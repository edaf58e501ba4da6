-- ===== src/Redis.antt =====
-- The redis package: its configuration.
pub mod Config
mod Tests
