-- ===== src/Shared.antt =====
-- shared.cc: the objects that threads share, and their registry.
pub mod Channel
pub mod SyncVar
pub mod Guard
pub mod TxTable
pub mod TxList
pub mod Registry
pub mod Tests
