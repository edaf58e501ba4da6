-- ===== src/Cron.antt =====
-- The cron package and its engine: jobs, the middleware chain of a run, and the engine's life.
pub mod Failure
pub mod Config
pub mod Chain
pub mod Engine
mod Tests
