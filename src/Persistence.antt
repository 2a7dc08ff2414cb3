-- ===== src/Persistence.antt =====
-- The persistence manager: lib-persistence-manager/persistencemgr.
pub mod Redis
pub mod Access
pub mod Connections
pub mod Records
pub mod Keys
pub mod Indexes
pub mod Contents
pub mod Updates
pub mod Reads
pub mod Steps
pub mod Puts
pub mod Writes
pub mod Overwrites
pub mod Recovery
pub mod Entries
pub mod Sample
mod Tests
pub mod Subscriptions
