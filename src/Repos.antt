-- ===== src/Repos.antt =====
-- crates/uc-db/src/repos/: the entity repositories over a snapshot. A write is the closure that the
-- repository hands to the commit loop, and a read is a function of the snapshot.
pub mod Build
pub mod Metastore
pub mod Function
pub mod Staging
pub mod Property
pub mod Delta
pub mod Version
pub mod Catalog
pub mod Schema
pub mod Volume
pub mod User
pub mod Credential
pub mod ExternalLocation
pub mod Model
pub mod Table
pub mod Casbin
pub mod Requests
pub mod Writes
pub mod Sound
