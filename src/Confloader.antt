-- ===== src/Confloader.antt =====
-- confloader: the cached, polled configuration loader.
pub mod Config
pub mod Tag
pub mod Fetch
pub mod Cache
mod Tests
