-- ===== src/Outbox.antt =====
-- src/platform/outbox: the transactional outbox and its relay.
pub mod Rows
pub mod Relay
mod Tests
