-- ===== src/Commands/Invariant.antt =====
-- shared.cc: the commands on jobs, triggers and pools by their names (`mod_init`), and what they keep.
pub mod Rules
pub mod Jobs
pub mod Schedule
pub mod Pools
pub mod Triggers
pub mod Tests
use psingthreadlib.Prelude.{All, ℕ, ◌≡◌, Option, List, Bytes}
use psingthreadlib.Prelude.Outcome.{Outcome, returns}
use psingthreadlib.Value.{Value}
use psingthreadlib.Sched.State.{Sched}
use psingthreadlib.Sched.Trigger.{Interp}
use psingthreadlib.Sched.Safety.Parts.{Rely}
use psingthreadlib.Sched.Worker.{Execution}
use psingthreadlib.Sched.Safety.Running.{RelyOutside}
use psingthreadlib.Sched.Safety.Adding.{IsSafe}
use psingthreadlib.Sched.Safety.Making.{IsUnused}
use psingthreadlib.Commands.Command.{Verdict}
use psingthreadlib.Commands.Jobs.{
  create_job, start_job_command, cancel_job_command, job_cancelled, current_job,
}
use psingthreadlib.Commands.Triggers.{update_trigger, chain_trigger, test_trigger}
use psingthreadlib.Commands.Safety.{update_trigger-IsSafe}
use psingthreadlib.Commands.Invariant.Triggers.{chain_trigger-IsSafe, test_trigger-IsSafe}
use psingthreadlib.Commands.Schedule.{schedule_job_command}
use psingthreadlib.Commands.Pools.{create_trigger, thread_pool_exec}
use psingthreadlib.Commands.Invariant.Jobs.{
  create_job-IsSafe, start_job_command-IsSafe, cancel_job_command-IsSafe, job_cancelled-IsSafe,
  current_job-IsSafe,
}
use psingthreadlib.Commands.Invariant.Schedule.{Spares, schedule_job_command-IsSafe}
use psingthreadlib.Commands.Invariant.Pools.{create_trigger-IsSafe, thread_pool_exec-IsSafe}

-- The names that `iiAddCproc` gives to these commands; `scheduleJobs` is a second name of one.
pub data Name : Type 0 where
  create_job_name start_job_name cancel_job_name job_cancelled_name : Name
  current_job_name schedule_job_name create_trigger_name thread_pool_exec_name : Name
  update_trigger_name chain_trigger_name test_trigger_name : Name

module _ (interp : Interp) (outside : Execution) (current running : Option ℕ) where
  -- A call by name, in a thread with this pool and this job.
  unfoldable pub call : Name → List Value → Sched → Outcome (Verdict × Sched)
  unfolding create_job start_job_command cancel_job_command job_cancelled current_job
      schedule_job_command create_trigger thread_pool_exec update_trigger chain_trigger test_trigger
  call create_job_name args s = create_job interp args s
  call start_job_name args s = start_job_command interp current args s
  call cancel_job_name args s = cancel_job_command args s
  call job_cancelled_name args s = job_cancelled running args s
  call current_job_name args s = current_job running args s
  call schedule_job_name args s = schedule_job_command interp current args s
  call create_trigger_name args s = create_trigger current args s
  call thread_pool_exec_name args s = thread_pool_exec interp current args s
  call update_trigger_name args s = update_trigger interp outside args s
  call chain_trigger_name args s = chain_trigger args s
  call test_trigger_name args s = test_trigger args s

  -- If a procedure, a quoted command or a C function that runs without the lock, and the other threads
  -- meanwhile, leave only jobs with a pool among the dependents and triggers of jobs, only such jobs
  -- without undone dependencies in the global queue, jobs that are done or have a pool as such, and
  -- the dependencies of a job that has a pool or is being scheduled as they are, if they do not
  -- schedule a job that the arguments name or the one that the call makes, if no other thread acts
  -- between the first test of the call and its lock, and nothing is in use at the address of the
  -- next job, then each of `createJob`, `startJob`, `cancelJob`, `jobCancelled`, `currentJob`,
  -- `scheduleJob`, `createTrigger`, `threadPoolExec`, `updateTrigger`, `chainTrigger` and
  -- `testTrigger` that returns keeps it that every job of the global queue has a pool and waits for
  -- no job that is not done, and that all dependents and triggers have a pool, whatever its
  -- arguments are and also where it reports an error.
  pub call-IsSafe :
      (rely : Rely interp)
      → RelyOutside outside
      → (name : Name) (args : List Value) (s : Sched) (r : Verdict × Sched)
      → All (Spares rely.Others) args
      → (rely.Others s.allocated → ⊥)
      → IsUnused (s.jobs s.allocated)
      → IsSafe s
      → call name args s ≡ returns r
      → IsSafe r.1
  unfolding call
  call-IsSafe rely around create_job_name args s r h new u v e =
      create_job-IsSafe interp s u v args r e
  call-IsSafe rely around start_job_name args s r h new u v e =
      start_job_command-IsSafe interp s u v current args r e
  call-IsSafe rely around cancel_job_name args s r h new u v e =
      cancel_job_command-IsSafe interp args s v r e
  call-IsSafe rely around job_cancelled_name args s r h new u v e =
      job_cancelled-IsSafe interp running args s v r e
  call-IsSafe rely around current_job_name args s r h new u v e =
      current_job-IsSafe interp running args s v r e
  call-IsSafe rely around schedule_job_name args s r h new u v e =
      schedule_job_command-IsSafe interp rely s u new v current args h r e
  call-IsSafe rely around create_trigger_name args s r h new u v e =
      create_trigger-IsSafe s u v current args r e
  call-IsSafe rely around thread_pool_exec_name args s r h new u v e =
      thread_pool_exec-IsSafe s u v interp current args r e
  call-IsSafe rely around update_trigger_name args s r h new u v e =
      update_trigger-IsSafe interp outside rely around args v e
  call-IsSafe rely around chain_trigger_name args s r h new u v e =
      chain_trigger-IsSafe args s v r e
  call-IsSafe rely around test_trigger_name args s r h new u v e = test_trigger-IsSafe args s v r e
