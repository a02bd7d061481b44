-- ===== src/Sync.antt =====
-- thread.h and thread.cc.
pub mod Lock
pub mod Semaphore
pub mod Tests
