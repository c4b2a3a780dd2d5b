-- ===== src/Transport.antt =====
-- internal/transport: the ingest endpoint of the hub and what it stands on.
pub mod Idempotency
pub mod RateLimit
pub mod Server
mod Tests
