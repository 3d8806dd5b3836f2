-- ===== src/Repository.antt =====
-- The journal of a household as a repository of files (apps/server/src/adapters/memory.ts).
pub mod Paths
pub mod Memory
pub mod Commits
mod Tests
