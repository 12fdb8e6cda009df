-- ===== src/Tests.antt =====
-- The theorems at concrete inputs.
pub mod Instance
pub mod Requests
pub mod Tables
pub mod Writes
pub mod Keys
pub mod Pages
pub mod Json
pub mod Policy
pub mod Log
pub mod Replay
pub mod Checkpoint
pub mod Protocol
pub mod Delta
pub mod Locations
