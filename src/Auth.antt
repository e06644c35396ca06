-- ===== src/Auth.antt =====
-- src/modules/auth: sessions and their refresh tokens.
pub mod Session
pub mod Handlers
mod Tests
