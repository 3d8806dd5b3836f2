-- ===== src/Mutation.antt =====
-- The protocol by which each change of a household's journal is made
-- (apps/server/src/services/mutation-runner.ts).
pub mod World
pub mod Request
pub mod Commit
pub mod Runner
pub mod Log
pub mod Finish
pub mod Work
pub mod Answered
pub mod Replay
pub mod Settled
pub mod Rollback
mod Tests
