-- ===== src/Sched/Library.antt =====
-- shared.cc: the functions of libthread.h on jobs, for other code of the interpreter.
pub mod Laws
use psingthreadlib.Prelude.{
  ℕ, Bool, true, false, Option, none, some, List, [], ◌∷◌, map, Bytes, if◌then◌else◌,
}
use psingthreadlib.Prelude.Outcome.{Outcome, returns, faults, ◌>>=◌, deref}
use psingthreadlib.Value.{Value}
use psingthreadlib.Sched.Job.{kernel, raw_kernel}
use psingthreadlib.Sched.State.{Sched, at}
use psingthreadlib.Sched.Cancel.{cancel_job}
use psingthreadlib.Sched.Trigger.{Interp}
use psingthreadlib.Sched.Schedule.{make_job, push_args, has_pool, start_job, enter_jobs}

-- `createJob` of a C function of either type.
unfoldable pub create_kernel_job : Sched → ℕ × Sched
create_kernel_job s = make_job kernel [] s

unfoldable pub create_raw_job : Sched → ℕ × Sched
create_raw_job s = make_job raw_kernel [] s

-- `scheduleJob` on the job and dependencies here. Where it does not refuse the job, it ends without
-- a `return`, and its caller must not look at the result. The dependencies are not looked at.
unfoldable pub schedule_one : Interp → ℕ → List ℕ → Sched → Outcome Sched
schedule_one interp j deps s =
    if has_pool (s.jobs j).pool then returns s else enter_jobs interp (j ∷ []) deps s

-- `cancelJob`, which does nothing to a job that was not scheduled.
unfoldable pub cancel_if_scheduled : ℕ → Sched → Outcome Sched
cancel_if_scheduled j s = if has_pool (s.jobs j).pool then cancel_job j s else returns s

-- `addJobArgs`
unfoldable pub add_job_args : Interp → ℕ → List Value → Sched → Sched
add_job_args interp j arg s = at j (push_args (map interp.to_string arg)) s

-- `startJob`; a null pointer is a job that stays as it is.
unfoldable pub start_or_keep : Interp → ℕ → List Value → Sched → Sched
start_or_keep interp j arg s = elim (start_job interp j arg s) [ none ↦ s | some t ↦ t ]

-- `getJobCancelled` of a job, and of the job that runs, whose pointer is read without a test.
abbrev pub get_job_cancelled : ℕ → Sched → Bool
get_job_cancelled j s = (s.jobs j).cancelled

unfoldable pub get_own_cancelled : Option ℕ → Sched → Outcome Bool
get_own_cancelled running s = deref running >>= λ j. returns (get_job_cancelled j s)

-- `getJobResult`
abbrev pub get_job_result : Interp → ℕ → Sched → Value
get_job_result interp j s = interp.from_string (s.jobs j).result

-- `getJobName` and `setJobName` do nothing so far.
abbrev pub get_job_name : ℕ → Bytes
get_job_name j = []

-- The functions that change a pool.
pub data Function : Type 0 where
  starts : (j : ℕ) → List Value → Function
  schedules : (j : ℕ) → List ℕ → Function
  cancels : (j : ℕ) → Function
  adds_args : (j : ℕ) → List Value → Function
  creates_kernel creates_raw : Function

unfoldable pub perform : Interp → Function → Sched → Outcome Sched
unfolding create_kernel_job create_raw_job schedule_one cancel_if_scheduled add_job_args
    start_or_keep
perform interp (starts j arg) s = returns (start_or_keep interp j arg s)
perform interp (schedules j deps) s = schedule_one interp j deps s
perform interp (cancels j) s = cancel_if_scheduled j s
perform interp (adds_args j arg) s = returns (add_job_args interp j arg s)
perform interp creates_kernel s = returns (create_kernel_job s).1
perform interp creates_raw s = returns (create_raw_job s).1
