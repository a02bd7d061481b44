-- ===== src/Lib.antt =====
-- psingthreadlib: threads, shared objects, jobs and thread pools for the Singular interpreter.
--
-- Files and what they model:
--   Sync/Lock, Sync/Semaphore: `Lock` and `ConditionVariable` of thread.h, `Semaphore` of
--     thread.cc, over POSIX mutexes and condition variables. `Lock.mutex` is the thread that holds
--     the POSIX mutex. `Cond.asleep` counts the threads in `pthread_cond_wait` that no signal has
--     reached yet; a wait is split where the thread sleeps (`wait_begin`, `wait_end`).
--   Shared/Channel, Shared/SyncVar: `SingularChannel` and `SingularSyncVar` of shared.cc. They are
--     the clients of Sync/Lock: every operation takes the lock, and calls are composed as there.
--   Shared/Guard, Shared/TxTable, Shared/TxList: `Region` with its lock, `Transactional`, `TxTable`
--     and `TxList`. A `std::map` is a list of keys with values; the locks of the regions come as a
--     function of their addresses, which the table only reads.
--   Shared/Registry: `SharedObject` with its reference count, `makeSharedObject`,
--     `findSharedObject`, and `World`, all shared objects of the process by address.
--   Commands: the commands `makeAtomicTable` to `statSyncVar` of shared.cc on that world, from the
--     checks of arguments (Reply) to the errors that they report; they use the components above.
--     Commands/Updates: `updateSyncVar`, with the procedure of the interpreter as a parameter.
--   Commands/Command, Commands/Triggers: the class `Command`, and `updateTrigger`, `chainTrigger` and
--     `testTrigger` on the pool of a trigger; they use Sched.
--   Commands/Jobs, Commands/Schedule, Commands/Pools: the other commands on jobs, triggers and
--     pools, on the state of one pool; a command for another pool gives `elsewhere`. The pool and
--     the job of the thread (`currentThreadPoolRef`, `currentJobRef`) are arguments.
--     Commands/Names: `setSharedName` and `getSharedName`.
--     Commands/Pools/Create: `createThreadPool`, over the table of Threads. Commands/Invariant: the
--     commands by name, and what they keep.
--   LinTree/Buffer, LinTree/Encoding: the buffer `LinTree` of lintree.h, and `encode`, `decode`,
--     `to_string` and `from_string` of lintree.cc for numbers, strings, integer matrices and lists;
--     a buffer is the bytes with the place of the cursor, and `int` and `long` have 4 and 8 bytes.
--   Threads/State, Threads/Worker, Threads/Table, Threads/Commands: `ThreadState` with its queues and
--     its lock, `interpreter_thread`, the table of threads with `newThread` and
--     `joinInterpreterThread`, and the commands on threads. Threads/Protocol: every interleaving of a
--     thread and its parent. `pthread_join` waits until `ThreadState.ended`.
--   Value: what shared.cc reads of the interpreter's values (`leftv`).
--   Sched/Job, Sched/Queue: `Job`, `Trigger` and its subclasses, `JobCompare`, `priority_queue`.
--   Sched/State: `Scheduler` and what it does to its queues (`attachJob`, `detachJob`, `queueJob`,
--     `broadcastJob`); Sched/Cancel: `cancelJob`; Sched/Trigger: `accept`, `activate` and
--     `execute` of triggers; Sched/Notify: `notifyDeps`, `addDep`, `addNotify`; Sched/Worker:
--     `Job::run`, `execute` of the classes of jobs and the loop of `Scheduler::main`;
--     Sched/Schedule: `startJob` and the core of `scheduleJob`; Sched/Waiting: `waitJob` and
--     `shutdown`, split where the thread sleeps, as `waits` or `over`; Sched/Library: the functions
--     of libthread.h on jobs.
--   Sched/Safety: every interleaving of those on one pool, as steps from a new pool (Steps), and
--     what each operation keeps (Kept to Respect). Sched/Twice: a job on a dependency that is done.
--   Prelude: helpers. Prelude/Outcome: how a call ends, with `blocks` for a wait on a mutex,
--     `aborts` for `ThreadError` and `faults` for what C++ leaves undefined.
--
-- How state and operations correspond: an object is a record with the fields of the class, a
-- pointer to a job or a pool is a number, and the jobs of the process are a function from numbers
-- to jobs (`Sched.jobs`). What the scheduler does under its recursive lock is one step; what
-- `startJob` and `scheduleJob` do before they take it are steps of their own, but a race in which
-- `scheduleJob` enters a job that another call has started or scheduled meanwhile is left out. A
-- worker gives up the lock while it executes a job, which is the gap between the steps `begins` and
-- `ends`, and a proc trigger does while it runs its procedure, where `Interp.execute_proc` gives the
-- state that the other threads have left. The functions for one call (`start_job`, `schedule_jobs`,
-- the commands) are calls that no other thread interrupts before they have the lock; the functions of
-- `Execution` and `Interp` give what all threads have done while they have given it up.
--
-- Bounds and fuel: counters of the C++ code are natural numbers, but for `unsigned` of `Semaphore`,
-- which wraps, and priorities and reference counts, which are integers. The count of a trigger is
-- not negative. `LinTree.Encoding.decode` has the length of its string as fuel, as each value takes
-- four bytes. `cancel_job` recurses on fuel: one more than the number of jobs allocated, as each
-- call marks one more of them. `main_loop` has fuel of its caller, since triggers can keep a pool at
-- work forever; `work` of Sched/Waiting/Work counts what is left without them. The loop of
-- `notifyDeps` over triggers reads their number anew each time, and triggers may be chained to the
-- job while a proc trigger runs: its fuel is their number at first and `Interp.rounds` more, the
-- most that may be chained meanwhile, and one for the end; Sched/Notify/Rounds is about this bound.
--
-- Parameters: the interpreter and the encoding of values (`Sched.Trigger.Interp`,
-- `Commands.Reply.Codec`, `evaluate` of Threads/Worker), the result of `pthread_create`, and what jobs execute without the
-- lock, quoted commands and C functions (`Sched.Worker.Execution`), with what it makes of the pool.
-- `lSize` of the interpreter is the last index of a list.
--
-- Not modelled: in lintree.cc rings, what needs them, big numbers, commands, names and
-- `updateref`; `setJobData` and `getJobData` of libthread.h; how the interpreter copies,
-- assigns and prints shared objects; memory (`delete`, `omFree`), singthreads.h, the unused
-- bytebuf.h, syncvar.h and channel.h, and the Singular scripts.
pub mod Prelude
pub mod Sync
pub mod Value
pub mod LinTree
pub mod Shared
pub mod Sched
pub mod Commands
pub mod Threads
