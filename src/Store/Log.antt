-- ===== src/Store/Log.antt =====
-- The object log: crates/uc-db/src/store/memory.rs, log.rs and the commit bodies of action.rs.
pub mod Memory
pub mod Listing
pub mod Lines
pub mod Commit
pub mod Replay
pub mod Checkpoint
