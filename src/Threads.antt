-- ===== src/Threads.antt =====
-- shared.cc: the threads of the interpreter, their table, and the messages between a thread and its
-- parent.
pub mod State
pub mod Table
pub mod Worker
pub mod Commands
pub mod Protocol
pub mod Tests
