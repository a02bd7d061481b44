-- ===== src/Sched/State.antt =====
-- shared.cc: `Scheduler`, the jobs that its queues point to, and the operations on its queues.
use psingthreadlib.Prelude.{
  ℕ, zero, suc, ◌+◌, Bool, true, false, not, Option, none, some, List, [], ◌∷◌, ◌++◌, map, length,
  set, ltb, ◌==◌, if◌then◌else◌, modify,
}
use psingthreadlib.Prelude.Int.{ℤ, pos, ◌+ℤ◌}
use psingthreadlib.Prelude.Outcome.{Outcome, returns, faults}
use psingthreadlib.Sync.Lock.{Cond, new_cond, wake_one}
use psingthreadlib.Sched.Job.{Job, Jobs, ready}

-- One pool and all jobs of the process; `pool` is the address of the pool, and the addresses of
-- the jobs made so far are those below `allocated`. Each function here and
-- in the modules beside it runs under `lock`, which is recursive.
pub record Sched : Type 0 where
  pub pool : ℕ
  pub jobs : Jobs
  pub allocated : ℕ
  pub single_threaded : Bool
  pub jobid : ℕ
  pub nthreads : ℕ
  pub shutting_down : Bool
  pub shutdown_counter : ℕ
  pub global_queue : List ℕ
  pub thread_queues : List (List ℕ)
  pub pending : List ℕ
  pub cond : Cond
  pub response : Cond

-- `Scheduler(int n)`, followed by the `n` calls of `addThread` in `createThreadPool`: the
-- constructor makes one queue, and each thread adds one.
abbrev empty_queues : ℕ → List (List ℕ)
empty_queues zero = []
empty_queues (suc n) = [] ∷ empty_queues n

abbrev pub new_sched : ℕ → Jobs → ℕ → ℕ → Sched
new_sched pool jobs allocated n = record {
  pool = pool;
  jobs = jobs;
  allocated = allocated;
  single_threaded = n == 0;
  jobid = 0;
  nthreads = if n == 0 then 1 else n;
  shutting_down = false;
  shutdown_counter = 0;
  global_queue = [];
  thread_queues = empty_queues (n + 1);
  pending = [];
  cond = new_cond;
  response = new_cond;
}

-- `ConditionVariable::signal`
abbrev pub notify_one : Cond → Cond
notify_one c = if not (c.waiting == 0) then wake_one c else c

abbrev pub at : ℕ → (Job → Job) → Sched → Sched
at j f s = record s { jobs = modify f j s.jobs }

-- `acquireShared` and `incref`, whose argument `by` the code does not read; `releaseShared`.
abbrev pub incref : Job → Job
incref job = record job { refcount = job.refcount +ℤ pos 1 }

abbrev pub decref : Job → Job
decref job = record job { refcount = job.refcount +ℤ ℤ.negsuc 0 }

unfoldable pub queue_job : ℕ → Sched → Sched
queue_job j s = record s { global_queue = s.global_queue ++ j ∷ []; cond = notify_one s.cond }

abbrev pub enrol : Sched → Job → Job
enrol s job = incref (record job { pool = some s.pool; id = s.jobid })

abbrev pub add_pending : ℕ → Sched → Sched
add_pending j s = record s {
  jobs = modify (λ job. record job { pending_index = some (length s.pending) }) j s.jobs;
  pending = s.pending ++ j ∷ [];
}

abbrev pub is_none {ℓ} : {A : Type ℓ} → Option A → Bool
is_none none = true
is_none (some _) = false

unfoldable pub attach_job : ℕ → Sched → Sched
unfolding queue_job
attach_job j s =
    let s' = record (at j (enrol s) s) { jobid = s.jobid + 1 } in
    if ready s'.jobs j
    then queue_job j s'
    else (if is_none (s'.jobs j).pending_index then add_pending j s' else s')

abbrev last_of : ℕ → List ℕ → ℕ
last_of j [] = j
last_of j (k ∷ ks) = last_of k ks

abbrev drop_last : List ℕ → List ℕ
drop_last [] = []
drop_last (k ∷ []) = []
drop_last (k ∷ l ∷ ks) = k ∷ drop_last (l ∷ ks)

-- A write to `pending[i]` behind the end, and `back` of an empty vector, are faults.
abbrev move_last : ℕ → List ℕ → Sched → Outcome Sched
move_last i [] s = faults
move_last i (k ∷ ks) s =
    let rest = drop_last (k ∷ ks) in
    let job = last_of k ks in
    if ltb i (length rest)
    then returns (record s {
      jobs = modify (λ moved. record moved { pending_index = some i }) job s.jobs;
      pending = set rest i job;
    })
    else faults

unfoldable pub detach_job : ℕ → Sched → Outcome Sched
detach_job j s =
    let s' = at j (λ job. record job { pending_index = none }) s in
    elim ((s.jobs j).pending_index) [ none ↦ returns s' | some i ↦ move_last i s.pending s' ]

-- Each queue gets the job, and no condition is signalled.
abbrev pub incref_by : ℕ → Job → Job
incref_by n job = record job { refcount = job.refcount +ℤ pos n }

unfoldable pub broadcast_job : ℕ → Sched → Sched
broadcast_job j s = record s {
  jobs = modify (incref_by (length s.thread_queues)) j s.jobs;
  thread_queues = map (λ q. q ++ j ∷ []) s.thread_queues;
}
