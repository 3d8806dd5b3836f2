-- ===== src/Auth.antt =====
-- Sign-in (apps/server/src/auth): the store of users, sign-in methods and sessions.
pub mod Types
pub mod Store
pub mod Methods
pub mod Accounts
mod Tests
