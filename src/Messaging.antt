-- ===== src/Messaging.antt =====
-- WhatsApp messaging (apps/server/src/messaging): the envelope store of the gateway,
-- and the service over it.
pub mod Types
pub mod Store
pub mod Queue
pub mod Claim
pub mod Delivery
pub mod Receipts
pub mod Invariant
pub mod Leases
pub mod Intake
pub mod Events
pub mod Expiry
pub mod Service
mod Tests
