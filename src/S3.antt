-- ===== src/S3.antt =====
-- The s3 package: its configuration.
pub mod Config
