-- ===== src/OAuth.antt =====
-- The OAuth authorization server (apps/server/src/oauth).
pub mod Types
pub mod Store
pub mod Scopes
pub mod Platform
pub mod Uris
pub mod Service
mod Tests
