-- ===== src/Sched/Tests.antt =====
-- Runs of the scheduler on concrete pools.
use psingthreadlib.Prelude.{
  ℕ, zero, suc, ◌≡◌, refl, ◌≢◌, ◌⊎◌, true, false, some, none, List, [], ◌∷◌, arith, get_elem?,
}
use mathlib.Core.List.{Perm}
use psingthreadlib.Prelude.Int.{pos}
use psingthreadlib.Prelude.Outcome.{returns}
use psingthreadlib.Value.{nothing, int}
use psingthreadlib.Sched.Job.{
  Job, Jobs, new_job, eval, raw_kernel, acc_trigger, count_trigger, set_trigger, ready, deps_done,
  satisfied, job_less,
}
use psingthreadlib.Sched.Queue.{pop_top}
use psingthreadlib.Sched.Queue.Laws.{job_less_order, job_less_both_ways, pop_top-greatest, Tops}
use psingthreadlib.Sched.State.{Sched, new_sched, at, attach_job}
use psingthreadlib.Sched.Cancel.{cancel_job}
use psingthreadlib.Sched.Cancel.Raised.{Bounded, Spread, Closed}
use psingthreadlib.Sched.Cancel.Closed.{cancel_job-Closed}
use psingthreadlib.Sched.Trigger.{Interp, acc_activate}
use psingthreadlib.Sched.Trigger.Laws.{activate_all, count_fires, set_never_fires, acc_takes}
use psingthreadlib.Sched.Worker.{runs, pick}
use psingthreadlib.Sched.Schedule.{push_args}
use psingthreadlib.Sched.Safety.Entering.{attach_job-Kept}
use psingthreadlib.Sched.Safety.Parts.{Rely}
use psingthreadlib.Sched.Safety.Steps.{fresh, then_step, adds_args, attaches}
use psingthreadlib.Sched.Safety.Respect.{dependencies_respected}

-- An interpreter whose procedures fail and leave the state alone.
abbrev quiet : Interp
quiet = record {
  to_string = λ v. 7 ∷ [];
  from_string = λ b. nothing;
  execute_proc = λ name args s. (none, s);
  rounds = 0;
}

-- Job 0 precedes job 1; 2 is a counter, 3 a set and 4 an accumulator; 5 has run in pool 9.
abbrev job_of : List Job → ℕ → Job
job_of table k = elim (get_elem? table k) [ none ↦ new_job eval | some job ↦ job ]

abbrev table : List Job
table =
    record (new_job eval) { notify = 1 ∷ []; prio = pos 2; id = 0 }
    ∷ record (new_job eval) { prio = pos 5; id = 1 }
    ∷ new_job (count_trigger 1)
    ∷ new_job (set_trigger (false ∷ []) 0)
    ∷ new_job (acc_trigger 1)
    ∷ record (new_job raw_kernel) { done = true; pool = some 9 }
    ∷ record (new_job eval) { prio = pos 5; id = 6 }
    ∷ []

abbrev jobs : Jobs
jobs = job_of table

abbrev small : Sched
small = new_sched 9 jobs 7 1

job_less_order_example :
    (job_less (jobs 0) (jobs 0) ≡ false)
    × (job_less (jobs 0) (jobs 6) ≡ true
        → job_less (jobs 6) (jobs 1) ≡ true
        → job_less (jobs 0) (jobs 1) ≡ true)
    × ((jobs 0).id ≢ (jobs 6).id
        → (job_less (jobs 0) (jobs 6) ≡ true) ⊎ (job_less (jobs 6) (jobs 0) ≡ true))
job_less_order_example = job_less_order (jobs 0) (jobs 6) (jobs 1) refl refl

job_less_both_ways_example :
    (job_less (jobs 0) (jobs 2) ≡ true) × (job_less (jobs 2) (jobs 0) ≡ true)
job_less_both_ways_example = job_less_both_ways (jobs 0) (jobs 2) refl refl refl

pop_top-greatest_example :
    (◌≡◌ {A = List ℕ} (0 ∷ 6 ∷ 1 ∷ []) [] × (pop_top jobs (0 ∷ 6 ∷ 1 ∷ []) ≡ none))
    ⊎ ((j : ℕ) × (rest : List ℕ) × (pop_top jobs (0 ∷ 6 ∷ 1 ∷ []) ≡ some (j, rest))
        × Tops false jobs j (0 ∷ 6 ∷ 1 ∷ [])
        × Perm (j ∷ rest) (0 ∷ 6 ∷ 1 ∷ []))
pop_top-greatest_example = pop_top-greatest false jobs (0 ∷ 6 ∷ 1 ∷ []) (refl, (refl, (refl, tt)))

count_fires_example :
    (u : Sched) × (activate_all quiet 2 ([] ∷ []) small ≡ returns u) × (ready u.jobs 2 ≡ true)
count_fires_example = count_fires quiet 1 2 ([] ∷ []) small refl (unfold deps_done in refl)

set_never_fires_example :
    (u : Sched) × (activate_all quiet 3 ((int (pos 0) ∷ []) ∷ (int (pos 1) ∷ []) ∷ []) small
      ≡ returns u)
    × (ready u.jobs 3 ≡ false)
set_never_fires_example =
    set_never_fires quiet (false ∷ []) 3 ((int (pos 0) ∷ []) ∷ (int (pos 1) ∷ []) ∷ []) small
      (omega arith) refl (unfold deps_done in refl) (tt, (tt, tt))

acc_takes_example : (acc_activate quiet 4 (nothing ∷ nothing ∷ []) jobs 4).args ≡ (7 ∷ []) ∷ []
acc_takes_example =
    acc_takes quiet 1 4 (nothing ∷ nothing ∷ []) small refl (unfold deps_done in refl)

all-Bounded : Bounded 7 jobs
all-Bounded zero = (omega arith, tt)
all-Bounded (suc zero) = tt
all-Bounded (suc (suc zero)) = tt
all-Bounded (suc (suc (suc zero))) = tt
all-Bounded (suc (suc (suc (suc zero)))) = tt
all-Bounded (suc (suc (suc (suc (suc zero))))) = tt
all-Bounded (suc (suc (suc (suc (suc (suc zero)))))) = tt
all-Bounded (suc (suc (suc (suc (suc (suc (suc k))))))) = tt

cancel_job-Closed_example :
    (after : Jobs) × (cancel_job 0 small ≡ returns (record small { jobs = after }))
    × Spread jobs after
    × Closed jobs after
    × ((after 0).cancelled ≡ true)
cancel_job-Closed_example = cancel_job-Closed 0 small (omega arith) all-Bounded

-- Job 1 waits for job 0, which is done.
abbrev ordered : List Job
ordered =
    record (new_job raw_kernel) { done = true; pool = some 9 }
    ∷ record (new_job eval) { deps = 0 ∷ [] }
    ∷ []

abbrev one_pool : Sched
one_pool = new_sched 9 (job_of ordered) 2 1

-- An interpreter during whose procedures another thread starts job 1.
abbrev busy : Interp
busy = record quiet { execute_proc = λ name args s. (none, attach_job 1 s) }

busy-Rely : Rely busy
busy-Rely = record { Others = λ k. k ≡ 1; keeps = λ P name args s apart v. attach_job-Kept P 1 s v }

nobody_waits : (k : ℕ) → (job_of ordered k).notify ≡ []
nobody_waits zero = refl
nobody_waits (suc zero) = refl
nobody_waits (suc (suc k)) = refl

nothing_chained : (k : ℕ) → (job_of ordered k).triggers ≡ []
nothing_chained zero = refl
nothing_chained (suc zero) = refl
nothing_chained (suc (suc k)) = refl

abbrev started : Sched
started = attach_job 1 (at 1 (push_args []) one_pool)

free_thread : get_elem? started.thread_queues 1 ≡ some []
unfolding attach_job ready deps_done satisfied
free_thread = refl

picks_one : pick none 1 started ≡ returns (runs 1, record started { global_queue = [] })
unfolding pick attach_job ready deps_done satisfied pop_top
picks_one = refl

dependencies_respected_example : deps_done started.jobs (started.jobs 1).deps ≡ true
dependencies_respected_example =
    dependencies_respected busy busy-Rely none 1 1
      (then_step
        (then_step (fresh 9 1 2 (job_of ordered) nobody_waits nothing_chained)
          (adds_args 1 [] refl))
        (attaches 1 refl))
      free_thread picks_one
