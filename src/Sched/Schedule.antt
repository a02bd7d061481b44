-- ===== src/Sched/Schedule.antt =====
-- shared.cc: starting and scheduling of jobs (`startJob`, `scheduleJob`).
use psingthreadlib.Prelude.{
  ℕ, ◌+◌, Bool, true, false, ◌||◌, Option, none, some, List, [], ◌∷◌, ◌++◌, map, ◌==◌,
  if◌then◌else◌, Bytes,
}
use psingthreadlib.Prelude.Int.{ℤ}
use psingthreadlib.Prelude.Outcome.{Outcome, returns, ◌>>=◌, deref}
use psingthreadlib.Value.{Value}
use psingthreadlib.Sched.Job.{JobClass, Job, new_job}
use psingthreadlib.Sched.State.{Sched, at, attach_job}
use psingthreadlib.Sched.Cancel.{cancel_job}
use psingthreadlib.Sched.Trigger.{Interp}
use psingthreadlib.Sched.Notify.{add_dep, add_notify}

-- `new` of a job, which gets the next address.
unfoldable pub make_job : JobClass → Bytes → Sched → ℕ × Sched
make_job class name s = (
  s.allocated,
  record (at s.allocated (λ _. record (new_job class) { name = name }) s) {
    allocated = s.allocated + 1;
  },
)

abbrev pub push_args : List Bytes → Job → Job
push_args args job = record job { args = job.args ++ args }

abbrev pub set_prio : ℤ → Job → Job
set_prio prio job = record job { prio = prio }

abbrev pub set_pool : ℕ → Job → Job
set_pool pool job = record job { pool = some pool }

abbrev pub has_pool : Option ℕ → Bool
has_pool none = false
has_pool (some _) = true

-- `startJob(pool, job, arg)`, with no other thread between its test and the lock that `attachJob`
-- takes; `none` is the null pointer.
unfoldable pub start_job : Interp → ℕ → List Value → Sched → Option Sched
start_job interp j arg s =
    if has_pool (s.jobs j).pool
    then none
    else some (attach_job j (at j (push_args (map interp.to_string arg)) s))

-- The checks of `scheduleJob` on its jobs and dependencies.
pub data Refusal : Type 0 where
  already_scheduled : Refusal
  dep_not_scheduled : Refusal
  dep_on_other_pool : Refusal

-- A job gets the priority before the next one is looked at; the refusal of a later one keeps it.
unfoldable pub check_jobs : ℤ → List ℕ → Sched → Option Refusal × Sched
check_jobs prio [] s = (none, s)
check_jobs prio (j ∷ js) s =
    let rest = check_jobs prio js (at j (set_prio prio) s) in
    if has_pool (s.jobs j).pool then (some already_scheduled, s) else rest

-- The tests on one dependency; `pool` is null where the pool of the command is a null pointer.
abbrev pub check_dep : Option ℕ → ℕ → Sched → Option Refusal
check_dep pool d s = elim ((s.jobs d).pool) [
  | none ↦ some dep_not_scheduled
  | some p ↦ elim pool [
    | none ↦ some dep_on_other_pool
    | some q ↦ if p == q then none else some dep_on_other_pool
  ]
]

-- Pointers are read through in their order.
abbrev pub all_there : List (Option ℕ) → Outcome (List ℕ)
all_there [] = returns []
all_there (o ∷ os) = deref o >>= λ j. all_there os >>= λ js. returns (j ∷ js)

-- The loop over the dependencies, where one may be a null pointer.
unfoldable pub check_dependencies : Option ℕ → List (Option ℕ) → Sched → Outcome (Option Refusal)
check_dependencies pool [] s = returns none
check_dependencies pool (o ∷ os) s = deref o >>= λ d. elim (check_dep pool d s) [
  | some r ↦ returns (some r)
  | none ↦ check_dependencies pool os s
]

unfoldable pub add_deps : List ℕ → List ℕ → Sched → Sched
add_deps [] deps s = s
add_deps (j ∷ js) deps s = add_deps js deps (at j (add_dep deps) s)

-- The loop of `addNotify`; the flag says whether some dependency is cancelled.
unfoldable pub notify_loop : Interp → List ℕ → List ℕ → Bool → Sched → Outcome (Bool × Sched)
notify_loop interp jobs [] cancelled s = returns (cancelled, s)
notify_loop interp jobs (d ∷ ds) cancelled s = add_notify interp d jobs s >>= λ t.
    notify_loop interp jobs ds (cancelled || (t.jobs d).cancelled) t

unfoldable pub enter_one : Bool → ℕ → Sched → Outcome Sched
enter_one cancelled j s =
    if cancelled then cancel_job j (at j (set_pool s.pool) s) else returns (attach_job j s)

unfoldable pub enter_all : Bool → List ℕ → Sched → Outcome Sched
unfolding enter_one
enter_all cancelled [] s = returns s
enter_all cancelled (j ∷ js) s = enter_one cancelled j s >>= enter_all cancelled js

-- The part of `scheduleJob` under the lock.
unfoldable pub enter_jobs : Interp → List ℕ → List ℕ → Sched → Outcome Sched
unfolding add_deps notify_loop enter_all
enter_jobs interp jobs deps s =
    notify_loop interp jobs deps false (add_deps jobs deps s) >>= λ (cancelled, t).
    enter_all cancelled jobs t

-- `scheduleJob` from its first test on the pool of a job on, with no other thread before it has the
-- lock. The pool that the command is for and the dependencies may be null pointers.
unfoldable pub schedule_pointers :
    Interp
    → (pool : Option ℕ) → ℤ
    → (jobs : List ℕ) → (deps : List (Option ℕ)) → Sched
    → Outcome (Option Refusal × Sched)
unfolding check_jobs check_dependencies enter_jobs
schedule_pointers interp pool prio jobs ds s =
    let (refused, s') = check_jobs prio jobs s in
    elim refused [
      | some r ↦ returns (some r, s')
      | none ↦ check_dependencies pool ds s' >>= λ refused. elim refused [
        | some r ↦ returns (some r, s')
        | none ↦ deref pool >>= λ p.
            all_there ds >>= λ deps. enter_jobs interp jobs deps s' >>= λ t. returns (none, t)
      ]
    ]

-- On the pool here, with dependencies that are there.
unfoldable pub schedule_jobs :
    Interp → ℤ → List ℕ → List ℕ → Sched → Outcome (Option Refusal × Sched)
unfolding schedule_pointers
schedule_jobs interp prio jobs deps s =
    schedule_pointers interp (some s.pool) prio jobs (map some deps) s
