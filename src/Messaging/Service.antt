-- ===== src/Messaging/Service.antt =====
-- messaging/service.ts: `MessagingService`, over the store of envelopes.
pub mod World
pub mod Sending
pub mod Devices
pub mod Linking
pub mod Inbound
pub mod Work
pub mod Health
pub mod Along
pub mod Steps
pub mod StepsOfLinking
pub mod StepsOfWork
pub mod Refinement
pub mod Requests
pub mod Termination
pub mod Waiting
pub mod Guards
pub mod Finds
pub mod Entitlement
pub mod Admission
pub mod Access
pub mod Answers
mod Tests
