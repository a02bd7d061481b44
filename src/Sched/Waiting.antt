-- ===== src/Sched/Waiting.antt =====
-- shared.cc: `Scheduler::waitJob` and `Scheduler::shutdown`.
pub mod Laws
pub mod Lost
pub mod Work
pub mod Taking
pub mod Calm
pub mod Ends
mod Tests
use psingthreadlib.Prelude.{
  ℕ, ◌+◌, ◌-◌, Bool, true, false, not, ◌||◌, ◌==◌, ltb, Option, none, some, List, [], if◌then◌else◌,
  is_empty,
}
use psingthreadlib.Prelude.Outcome.{Outcome, returns, ◌>>=◌}
use psingthreadlib.Sync.Lock.{Cond}
use psingthreadlib.Sched.State.{Sched, notify_one}
use psingthreadlib.Sched.Trigger.{Interp}
use psingthreadlib.Sched.Worker.{Execution, main_loop}
use psingthreadlib.Value.{Value}
use psingthreadlib.Prelude.{Bytes}

-- The thread sleeps in `response.wait()`, or the call is over.
pub data Waiting : Type 0 where
  waits over : Waiting

abbrev pub fall_asleep : Sched → Sched
fall_asleep s = record s {
  response = record { waiting = s.response.waiting + 1; asleep = s.response.asleep + 1 };
}

-- A thread that was woken is no longer waiting.
abbrev pub wake_up : Sched → Sched
wake_up s = record s { response = record s.response { waiting = s.response.waiting - 1 } }

-- The loop of `waitJob` from its test on; behind it the signal is forwarded.
unfoldable pub wait_loop : ℕ → Sched → Waiting × Sched
wait_loop j s =
    if (s.jobs j).done || (s.jobs j).cancelled
    then (over, record s { response = notify_one s.response })
    else (waits, fall_asleep s)

unfoldable pub wait_resume : ℕ → Sched → Waiting × Sched
unfolding wait_loop
wait_resume j s = wait_loop j (wake_up s)

-- `ConditionVariable::broadcast`
abbrev pub notify_everyone : Cond → Cond
notify_everyone c = if not (c.waiting == 0) then record c { asleep = 0 } else c

-- `while (shutdown_counter < nthreads)`
unfoldable pub leave_loop : Sched → Waiting × Sched
leave_loop s =
    if ltb s.shutdown_counter s.nthreads
    then (waits, fall_asleep (record s { cond = notify_everyone s.cond }))
    else (over, s)

unfoldable pub close_down : Sched → Waiting × Sched
unfolding leave_loop
close_down s = leave_loop (record s { shutting_down = true })

-- `while (!global_queue.empty())`
unfoldable pub drain_loop : Sched → Waiting × Sched
unfolding close_down
drain_loop s = if not (is_empty s.global_queue) then (waits, fall_asleep s) else close_down s

-- A pool with threads up to the first sleep, and from there on; behind it the threads are joined.
unfoldable pub shutdown : Bool → Sched → Waiting × Sched
unfolding drain_loop close_down
shutdown wait s = if wait then drain_loop s else close_down s

unfoldable pub shutdown_resume : Sched → Waiting × Sched
unfolding drain_loop leave_loop
shutdown_resume s = if s.shutting_down then leave_loop (wake_up s) else drain_loop (wake_up s)

module _ (interp : Interp) (outside : Execution) where
  -- `waitJob` and `shutdown` of a pool without threads: the caller works on it itself.
  unfoldable pub wait_single : ℕ → ℕ → Sched → Option (Outcome Sched)
  wait_single fuel j s = main_loop interp outside fuel (some j) 0 s

  unfoldable pub shutdown_single : ℕ → Sched → Option (Outcome Sched)
  shutdown_single fuel s = main_loop interp outside fuel none 0 s
