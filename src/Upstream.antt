-- ===== src/Upstream.antt =====
-- src/platform/upstream: the calls to other services.
pub mod Breaker
pub mod Backoff
pub mod Request
pub mod Client
mod Tests
