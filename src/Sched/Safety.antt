-- ===== src/Sched/Safety.antt =====
-- The order that dependencies impose: no queued job waits for one that is not done.
pub mod Kept
pub mod Parts
pub mod Triggers
pub mod Entering
pub mod Adding
pub mod Making
pub mod Scheduling
pub mod Steps
pub mod Workers
pub mod Running
pub mod Respect
