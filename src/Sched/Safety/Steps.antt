-- ===== src/Sched/Safety/Steps.antt =====
-- A pool at work: every interleaving of calls and workers.
use psingthreadlib.Prelude.{Bool, false, ℕ, ◌≡◌, true, Option, List, [], ◌∷◌, ◌++◌, Bytes}
use psingthreadlib.Prelude.Int.{ℤ}
use psingthreadlib.Prelude.Outcome.{returns}
use psingthreadlib.Value.{Value}
use psingthreadlib.Sync.Lock.{Cond}
use psingthreadlib.Sched.Notify.{notify_deps}
use psingthreadlib.Sched.Job.{ready, Job, Jobs}
use psingthreadlib.Sched.State.{Sched, at, new_sched, attach_job, broadcast_job}
use psingthreadlib.Sched.Queue.Laws.{In}
use psingthreadlib.Sched.Cancel.{cancel_job}
use psingthreadlib.Sched.Trigger.{Interp, activate}
use psingthreadlib.Sched.Worker.{Pick, runs, pick, run_begin, run_end, complete, store_result}
use psingthreadlib.Sched.Schedule.{push_args, set_prio, enter_jobs, set_pool}
use psingthreadlib.Sched.Safety.Kept.{pooled, Apart}

-- `chainTrigger`
abbrev pub chain : ℕ → Job → Job
chain trigger job = record job { triggers = job.triggers ++ trigger ∷ [] }

-- One critical section under the lock of the scheduler, or one change that a call makes before it
-- has the lock: `startJob` and `scheduleJob` test `pool`, append arguments and set priorities
-- first, so that other steps come between these and the section that attaches or enters the jobs.
-- `startJob` attaches whatever its test found; the jobs that `scheduleJob` enters are still in no
-- pool, and none of `others`, which other threads schedule while a proc trigger has released the
-- lock, so that a race of two calls that schedule or start one job is left out. A worker that has picked a job from the
-- global queue and executes it does so between `begins` and `ends`; a cancelled job is `dropped`.
pub data Step (interp : Interp) (others : ℕ → Type 0) (s : Sched) : Sched → Type 0 where
  adds_args :
      (j : ℕ) (more : List Bytes) {t : Sched} → t ≡ at j (push_args more) s → Step interp others s t
  sets_prio : (j : ℕ) (prio : ℤ) {t : Sched} → t ≡ at j (set_prio prio) s → Step interp others s t
  attaches : (j : ℕ) {t : Sched} → t ≡ attach_job j s → Step interp others s t
  enters :
      (jobs deps : List ℕ) {t : Sched}
      → ((k : ℕ) → In k jobs → pooled (s.jobs k) ≡ false)
      → Apart others (λ k. In k jobs)
      → enter_jobs interp jobs deps s ≡ returns t
      → Step interp others s t
  cancels : (j : ℕ) {t : Sched} → cancel_job j s ≡ returns t → Step interp others s t
  begins :
      (until : Option ℕ) (num j : ℕ) {t u : Sched}
      → pick until num s ≡ returns (runs j, t)
      → u ≡ (run_begin j t).1
      → Step interp others s u
  rests :
      (until : Option ℕ) (num : ℕ) {p : Pick} {t : Sched}
      → pick until num s ≡ returns (p, t)
      → Step interp others s t
  ends :
      (j : ℕ) (result : Bytes) {t : Sched}
      → (s.jobs j).running ≡ true
      → complete interp j (run_end j (at j (store_result result) s)) ≡ returns t
      → Step interp others s t
  dropped :
      (j : ℕ) {t : Sched}
      → (s.jobs j).cancelled ≡ true
      → complete interp j s ≡ returns t
      → Step interp others s t
  chains :
      (trigger j : ℕ) {t : Sched}
      → pooled (s.jobs trigger) ≡ true
      → t ≡ at j (chain trigger) s
      → Step interp others s t
  broadcasts :
      (j : ℕ) {t : Sched} → t ≡ broadcast_job j (at j (set_pool s.pool) s) → Step interp others s t
  activates :
      (j : ℕ) (arg : List Value) {t : Sched}
      → activate interp j arg s ≡ returns t
      → Step interp others s t
  -- `updateTrigger` runs a trigger that is ready, and then only notifies.
  fires :
      (j : ℕ) {t : Sched} → ready s.jobs j ≡ true → t ≡ (run_begin j s).1 → Step interp others s t
  notifies :
      (j : ℕ) (result : Bytes) {t : Sched}
      → (s.jobs j).running ≡ true
      → notify_deps interp j (run_end j (at j (store_result result) s)) ≡ returns t
      → Step interp others s t
  notifies_dropped :
      (j : ℕ) {t : Sched}
      → (s.jobs j).cancelled ≡ true
      → notify_deps interp j s ≡ returns t
      → Step interp others s t
  -- Threads fall asleep and wake up in `waitJob`, `shutdown` and the workers; a shutdown begins.
  waits :
      (c r : Cond) (down : Bool) {t : Sched}
      → t ≡ record s { cond = c; response = r; shutting_down = down }
      → Step interp others s t

-- A new pool of `n` threads, and jobs that were made before and that no pool has.
pub data Reach (interp : Interp) (others : ℕ → Type 0) : Sched → Type 0 where
  fresh :
      (pool n allocated : ℕ) (jobs : Jobs)
      → ((j : ℕ) → (jobs j).notify ≡ [])
      → ((j : ℕ) → (jobs j).triggers ≡ [])
      → Reach interp others (new_sched pool jobs allocated n)
  then_step : {s t : Sched} → Reach interp others s → Step interp others s t → Reach interp others t
