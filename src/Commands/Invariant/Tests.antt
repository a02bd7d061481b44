-- ===== src/Commands/Invariant/Tests.antt =====
-- Calls of commands on a pool with a job that was made, one that is done and one that was started.
use psingthreadlib.Prelude.{
  All, Option, ◌∙◌, arith, inl, inr, ℕ, zero, suc, ◌≡◌, ◌≢◌, refl, none, some, List, [], ◌∷◌,
}
use psingthreadlib.Prelude.Int.{pos}
use psingthreadlib.Prelude.Outcome.{returns}
use psingthreadlib.Value.{string, Value, nil, cons, nothing, list, int, shared, job, threadpool}
use psingthreadlib.Sched.Job.{Jobs, new_job, eval, raw_kernel}
use psingthreadlib.Sched.State.{Sched, new_sched}
use psingthreadlib.Sched.Trigger.{Interp}
use psingthreadlib.Sched.Notify.{add_notify}
use psingthreadlib.Sched.Schedule.{enter_jobs, check_jobs, schedule_pointers}
use psingthreadlib.Sched.Safety.Kept.{Nobody, Kept-refl}
use psingthreadlib.Sched.Safety.Parts.{Rely}
use psingthreadlib.Sched.Worker.{Execution}
use psingthreadlib.Sched.Safety.Running.{RelyOutside}
use psingthreadlib.Sched.Safety.Adding.{IsSafe}
use psingthreadlib.Sched.Library.{Function, perform, schedules}
use psingthreadlib.Sched.Library.Laws.{perform-IsSafe}
use psingthreadlib.Commands.Names.{Names, set_shared_name, get_shared_name}
use psingthreadlib.Commands.Names.Laws.{set_shared_name-get_shared_name}
use psingthreadlib.Commands.Command.{Verdict, done}
use psingthreadlib.Commands.Schedule.{schedule_job_command}
use psingthreadlib.Commands.Schedule.Laws.{last_entry_ignored}
use psingthreadlib.Commands.Invariant.Schedule.{Spares}
use psingthreadlib.Commands.Invariant.{schedule_job_name, call, call-IsSafe}

abbrev quiet : Interp
quiet = record {
  to_string = λ v. 7 ∷ [];
  from_string = λ b. nothing;
  execute_proc = λ name args s. (none, s);
  rounds = 0;
}

abbrev idle : Execution
idle = record {
  evaluate = λ code s. (nothing, s);
  call_kernel = λ j args s. ([], s);
  call_raw = λ j deps s. s;
}

idle-RelyOutside : RelyOutside idle
idle-RelyOutside = record {
  evaluate = λ code s v. Kept-refl Nobody s v;
  call_kernel = λ j args s v. Kept-refl Nobody s v;
  call_raw = λ j deps s v. Kept-refl Nobody s v;
}

abbrev quiet_rely : Rely quiet
quiet_rely = record { Others = λ k. k ≡ 7; keeps = λ P name args s n v. Kept-refl P s v }

-- Job 0 is in the pool, the others are new.
abbrev jobs : Jobs
jobs zero = record (new_job raw_kernel) { pool = some 9 }
jobs (suc k) = new_job eval

abbrev pool : Sched
pool = new_sched 9 jobs 2 1

abbrev arguments : List Value
arguments = int (pos 4) ∷ shared job (some 1) ∷ shared job (some 0) ∷ []

abbrev scheduled : Verdict × Sched
scheduled = elim (call quiet idle (some 9) none schedule_job_name arguments pool) [
  | returns r ↦ r
  | _ ↦ (Verdict.refused none, pool)
]

runs : call quiet idle (some 9) none schedule_job_name arguments pool ≡ returns scheduled
unfolding call check_jobs enter_jobs add_notify schedule_pointers
runs = refl

no_notify : (d : ℕ) → (jobs d).notify ≡ []
no_notify zero = refl
no_notify (suc k) = refl

no_triggers : (d : ℕ) → (jobs d).triggers ≡ []
no_triggers zero = refl
no_triggers (suc k) = refl

pool-IsSafe : IsSafe pool
pool-IsSafe = record {
  queued = tt;
  dependents = λ d. rw (no_notify d) tt;
  chained = λ d. rw (no_triggers d) tt;
}

names_others : All (Spares quiet_rely.Others) arguments
names_others = (
  (λ k e q. cc),
  (
    (λ k e q. absurd (apart 1 k (omega arith) e q)),
    ((λ k e q. absurd (apart 0 k (omega arith) e q)), tt),
  ),
)
  where
    apart : (i k : ℕ) → i ≢ 7 → ◌≡◌ {A = Option ℕ} (some i) (some k) → k ≡ 7 → ⊥
    apart i k n e q = let same : i ≡ k = cc in n (same ∙ q)

call-IsSafe_example : IsSafe scheduled.1
call-IsSafe_example =
    call-IsSafe quiet idle (some 9) none quiet_rely idle-RelyOutside schedule_job_name arguments
      pool scheduled names_others (λ e. absurd (omega arith))
      (record { deps = refl; done = refl; pool = refl }) pool-IsSafe runs

-- A pool, a priority, a list of jobs and a list of dependencies, and the same with other last entries.
abbrev with_lists : Value → Value → List Value
with_lists v w =
    shared threadpool (some 9)
    ∷ int (pos 4)
    ∷ list (cons (shared job (some 1)) (cons v nil))
    ∷ list (cons (shared job (some 0)) (cons w nil))
    ∷ []

last_entry_ignored_example :
    schedule_job_command quiet none (with_lists nothing (shared job (some 2))) pool
    ≡ schedule_job_command quiet none (with_lists (shared job (some 2)) nothing) pool
last_entry_ignored_example =
    last_entry_ignored quiet none (with_lists nothing (shared job (some 2)))
      (with_lists (shared job (some 2)) nothing) pool
      (
        inl refl,
        (
          inl refl,
          (
            inr (shared job (some 1) ∷ [], nothing, shared job (some 2), refl, refl),
            (inr (shared job (some 0) ∷ [], shared job (some 2), nothing, refl, refl), tt),
          ),
        ),
      )

abbrev after_schedule : Sched
after_schedule = elim (perform quiet (schedules 1 (0 ∷ [])) pool) [ returns t ↦ t | _ ↦ pool ]

performed : perform quiet (schedules 1 (0 ∷ [])) pool ≡ returns after_schedule
unfolding perform enter_jobs add_notify
performed = refl

scheduled_one :
    (j : ℕ) (deps : List ℕ)
    → ◌≡◌ {A = Function} (schedules 1 (0 ∷ [])) (schedules j deps)
    → j ≡ 7
    → ⊥
scheduled_one j deps e q = let same : 1 ≡ j = cc in absurd (omega arith)

perform-IsSafe_example : IsSafe after_schedule
perform-IsSafe_example =
    perform-IsSafe quiet quiet_rely (schedules 1 (0 ∷ [])) pool after_schedule
      (λ j deps e q. scheduled_one j deps e q) (record { deps = refl; done = refl; pool = refl })
      pool-IsSafe performed

set_shared_name-get_shared_name_example :
    (after : Names) × (set_shared_name (shared job (some 3) ∷ string (65 ∷ []) ∷ []) (λ k. [])
      ≡ returns (done nothing, after))
    × (get_shared_name (shared job (some 3) ∷ []) after ≡ returns (done (string (65 ∷ []))))
    × ((k : ℕ)
        → k ≢ 3
        → get_shared_name (shared job (some k) ∷ []) after
          ≡ get_shared_name (shared job (some k) ∷ []) (λ k. []))
set_shared_name-get_shared_name_example =
    set_shared_name-get_shared_name job 3 (65 ∷ []) (λ k. []) refl
