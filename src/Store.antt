-- ===== src/Store.antt =====
-- crates/uc-db/src/store/
pub mod Kind
pub mod Platform
pub mod Row
pub mod NaturalKey
pub mod Action
pub mod Keys
pub mod Snapshot
pub mod Valid
pub mod Log
pub mod Dump
pub mod Protocol
pub mod Delta
