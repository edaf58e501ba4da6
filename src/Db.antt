-- ===== src/Db.antt =====
-- db: named-query binding, configuration, and statements with their telemetry.
pub mod Driver
pub mod Scan
pub mod Protect
pub mod Bind
pub mod Statement
pub mod Config
pub mod Connection
pub mod Connect
mod Tests
