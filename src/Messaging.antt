-- ===== src/Messaging.antt =====
-- src/platform/messaging: durable consumers.
pub mod Consumer
mod Tests
