-- ===== src/Sched.antt =====
-- shared.cc: jobs, triggers, thread pools and their scheduler.
pub mod Job
pub mod Queue
pub mod State
pub mod Cancel
pub mod Trigger
pub mod Notify
pub mod Worker
pub mod Schedule
pub mod Waiting
pub mod Library
pub mod Safety
pub mod Twice
pub mod Tests
