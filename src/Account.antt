-- ===== src/Account.antt =====
-- A user's account (apps/server/src/account/service.ts), across the stores of sign-in, of OAuth and
-- of households, and the repositories.
pub mod Service
pub mod Deletion
mod Tests
