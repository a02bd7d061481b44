-- ===== src/Commands.antt =====
-- shared.cc: the commands that the interpreter gets, from `makeAtomicTable` to `statSyncVar`.
pub mod Reply
pub mod Make
pub mod Tables
pub mod Lists
pub mod Regions
pub mod Channels
pub mod SyncVars
pub mod Laws
pub mod Exclusion
pub mod Invariant
pub mod Tests
pub mod Command
pub mod Triggers
pub mod Jobs
pub mod Schedule
pub mod Pools
pub mod Updates
pub mod Names
pub mod Safety
