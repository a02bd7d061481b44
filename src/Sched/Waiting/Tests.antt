-- ===== src/Sched/Waiting/Tests.antt =====
-- Runs of waiting threads on concrete pools.
use psingthreadlib.Prelude.{
  ℕ, zero, suc, ◌≡◌, ◌<◌, ◌⊎◌, All, refl, ◌↔◌, true, none, some, [], ◌∷◌, arith,
}
use psingthreadlib.Prelude.Outcome.{returns}
use psingthreadlib.Value.{nothing}
use psingthreadlib.Sched.Job.{Jobs, new_job, raw_kernel}
use psingthreadlib.Sched.State.{Sched, new_sched}
use psingthreadlib.Sched.Trigger.{Interp}
use psingthreadlib.Sched.Worker.{Execution, run_end, complete, main_loop}
use psingthreadlib.Sched.Waiting.{waits, over, wait_loop, wait_resume, shutdown_resume}
use psingthreadlib.Sched.Waiting.Lost.{IsPlain, signal_swallowed}
use psingthreadlib.Sched.Waiting.Laws.{leave_all, shutdown_ends, IsAtRest}
use psingthreadlib.Sched.Waiting.Work.{SameWork-refl, Plain, work, total, unqueued}
use psingthreadlib.Sched.Waiting.Calm.{Calm}
use psingthreadlib.Sched.Waiting.Ends.{Breaks, main_loop_ends}

abbrev quiet : Interp
quiet = record {
  to_string = λ v. [];
  from_string = λ b. nothing;
  execute_proc = λ name args s. (none, s);
  rounds = 0;
}

-- Job 0 is done, job 1 is not.
abbrev two_jobs : Jobs
two_jobs zero = record (new_job raw_kernel) { done = true; pool = some 9 }
two_jobs (suc k) = record (new_job raw_kernel) { pool = some 9 }

abbrev pool : Sched
pool = new_sched 9 two_jobs 2 2

signal_swallowed_example :
    (s1 s2 s3 t : Sched) × (wait_loop 1 pool ≡ (waits, s1))
    × (wait_loop 2 s1 ≡ (waits, s2))
    × (complete quiet 1 (run_end 1 s2) ≡ returns s3)
    × ((wait_resume 1 s3).0 ≡ over)
    × (wait_resume 2 s3 ≡ (waits, t))
    × ((t.jobs 1).done ≡ true)
    × (t.response.waiting ≡ 2)
    × (t.response.asleep ≡ 2)
signal_swallowed_example = signal_swallowed quiet 1 2 pool (omega arith) plain plain refl
  where
    plain : IsPlain (record (new_job raw_kernel) { pool = some 9 })
    plain = record { done = refl; cancelled = refl; notify = refl; triggers = refl }

abbrev closing : Sched
closing = record pool { shutting_down = true; global_queue = 1 ∷ [] }

shutdown_ends_example :
    (t : Sched) × (leave_all (0 ∷ 1 ∷ []) closing ≡ returns t)
    × (((shutdown_resume t).0 ≡ over) ↔ ◌≡◌ {A = ℕ} 2 2)
shutdown_ends_example = shutdown_ends (0 ∷ 1 ∷ []) closing refl refl (omega arith)

abbrev idle : Execution
idle = record {
  evaluate = λ code s. (nothing, s);
  call_kernel = λ j args s. ([], s);
  call_raw = λ j deps s. s;
}

abbrev queued : Sched
queued = record (new_sched 9 two_jobs 2 0) { global_queue = 1 ∷ [] }

quiet-Calm : Calm quiet idle
quiet-Calm = record {
  calm = λ name args s. SameWork-refl s;
  evaluate = λ code s. SameWork-refl s;
  call_kernel = λ j args s. SameWork-refl s;
  call_raw = λ j deps s. SameWork-refl s;
}

queued-Plain : Plain 2 queued.jobs
queued-Plain = record { triggers = no_triggers; notify = nobody_waits }
  where
    no_triggers : (k : ℕ) → (two_jobs k).triggers ≡ []
    no_triggers zero = refl
    no_triggers (suc k) = refl

    nobody_waits : (k : ℕ) → All (λ m. m < 2) (two_jobs k).notify
    nobody_waits zero = tt
    nobody_waits (suc k) = tt

one_left : work 2 queued < 5
unfolding total unqueued
one_left = omega arith

main_loop_ends_example :
    ((t : Sched) × (main_loop quiet idle 5 none 0 queued ≡ some (returns t)) × IsAtRest none 0 t)
    ⊎ Breaks quiet idle (main_loop quiet idle 5 none 0 queued)
main_loop_ends_example =
    main_loop_ends quiet idle quiet-Calm 2 5 none 0 queued queued-Plain one_left
