-- ===== src/Rest.antt =====
-- The rest packages: the client, the server, and the names that both share in their telemetry.
pub mod Semconv
pub mod Server
pub mod Redaction
pub mod Attempt
pub mod Backoff
pub mod Retry
pub mod Call
mod Tests
