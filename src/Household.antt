-- ===== src/Household.antt =====
-- Households, their members and what is kept of each besides the journal
-- (apps/server/src/adapters/memory.ts and apps/server/src/domain).
pub mod Types
pub mod Store
pub mod Onboarding
pub mod Authorization
pub mod Members
pub mod Exports
pub mod Mutations
mod Tests
