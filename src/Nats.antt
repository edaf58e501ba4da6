-- ===== src/Nats.antt =====
-- The nats packages: the stream layout that producer and consumer share, and both of them.
pub mod Subject
pub mod Stream
pub mod Failure
pub mod Consumer
pub mod Producer
mod Tests
