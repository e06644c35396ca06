-- ===== src/Identity.antt =====
-- src/modules/identity: users.
pub mod Email
pub mod User
pub mod Handlers
mod Tests
