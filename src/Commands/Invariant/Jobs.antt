-- ===== src/Commands/Invariant/Jobs.antt =====
-- The commands on one job keep the invariant of the queue.
use psingthreadlib.Prelude.{ℕ, Option, none, some, List, [], ◌∷◌, map, Bytes}
use psingthreadlib.Prelude.Int.{ℤ}
use psingthreadlib.Prelude.Outcome.{returns, ◌>>=◌, deref}
use psingthreadlib.Value.{Value, Kind, string, shared, threadpool}
use psingthreadlib.Sched.Job.{eval, proc}
use psingthreadlib.Sched.State.{Sched, at}
use psingthreadlib.Sched.Cancel.{cancel_job}
use psingthreadlib.Sched.Trigger.{Interp}
use psingthreadlib.Sched.Schedule.{make_job, push_args, set_prio, has_pool}
use psingthreadlib.Sched.Safety.Kept.{Nobody}
use psingthreadlib.Sched.Safety.Adding.{IsSafe, Kept-IsSafe, set_prio-Harmless}
use psingthreadlib.Sched.Safety.Entering.{cancel_job-Kept}
use psingthreadlib.Sched.Safety.Workers.{args-Harmless}
use psingthreadlib.Sched.Safety.Making.{IsUnused, make_job-IsSafe, at-IsSafe, attach_job-IsSafe}
use psingthreadlib.Commands.Jobs.{
  create_job, job_of, job_cancelled, current_job, pointer_arg, in_its_pool, create_checks,
  start_checks, job_place, job_argument, text_of, drop, start_with, start_job_command,
  cancel_job_command, new_proc, abort, pool_of,
}
use psingthreadlib.Commands.Triggers.{truth}
use psingthreadlib.Commands.Command.{
  Command, done, when_ok, check_argc_between, new_command, check_argc, shared_arg, arg, test_arg,
  string_cmd, of_kind,
}
use psingthreadlib.Commands.Invariant.Rules.{
  SafeIf, returns-IsSafe, >>=-IsSafe, then-IsSafe, if-IsSafe, Option-IsSafe, when_ok-IsSafe,
  in_pool-IsSafe, in_its_pool-IsSafe, give_job-IsSafe,
}

module _ (interp : Interp) where
  push-IsSafe :
      (more : List Bytes) (j : ℕ) (s : Sched) → IsSafe s → IsSafe (at j (push_args more) s)
  push-IsSafe more j s v = at-IsSafe (push_args more) j s (args-Harmless more) v

  pub start_with-IsSafe :
      (prio : ℤ) (more : List Bytes) (j : ℕ) (s : Sched)
      → IsSafe s
      → SafeIf (start_with interp prio more j s)
  unfolding start_with
  start_with-IsSafe prio more j s v =
      let s' = at j (push_args more) s in
      let w = push-IsSafe more j s v in
      let u =
        attach_job-IsSafe j (at j (set_prio prio) s')
          (at-IsSafe (set_prio prio) j s' (set_prio-Harmless prio) w) in
      if-IsSafe (has_pool (s'.jobs j).pool) _ _ (returns-IsSafe _ w)
        (returns-IsSafe _ (give_job-IsSafe j _ u))

  pub cancel_job_command-IsSafe :
      (args : List Value) (s : Sched) → IsSafe s → SafeIf (cancel_job_command args s)
  unfolding cancel_job_command
  cancel_job_command-IsSafe args s v =
      >>=-IsSafe (check_argc 1 (new_command "cancelJob" args) >>= job_argument) _ (λ c e.
        when_ok-IsSafe c s _ v (
          >>=-IsSafe (shared_arg 0 c) _ (λ j ej. in_its_pool-IsSafe j s _ v (
            >>=-IsSafe (cancel_job j s) _
              (λ t et. returns-IsSafe _ (Kept-IsSafe s t (cancel_job-Kept Nobody j s v t et)))))))

  pub job_cancelled-IsSafe :
      (running : Option ℕ) (args : List Value) (s : Sched)
      → IsSafe s
      → SafeIf (job_cancelled running args s)
  unfolding job_cancelled
  job_cancelled-IsSafe running args s v =
      >>=-IsSafe (check_argc_between 0 1 (new_command "jobCancelled" args)) _
        (λ c1 e. asked c1 args)
    where
      said : (j : ℕ) → SafeIf (in_its_pool j s (returns (done (truth (s.jobs j).cancelled), s)))
      said j = in_its_pool-IsSafe j s _ v (returns-IsSafe _ v)

      own :
          (c1 : Command)
          → SafeIf (elim running [
            | none ↦ abort "no current job" s
            | some j ↦
                when_ok c1 s (in_its_pool j s (returns (done (truth (s.jobs j).cancelled), s)))
          ])
      own c1 =
          Option-IsSafe running _ _ (returns-IsSafe _ v) (λ j. when_ok-IsSafe c1 s _ v (said j))

      asked :
          (c1 : Command) (args : List Value)
          → SafeIf (elim args [
            | a ∷ [] ↦ job_argument c1 >>= λ c2. pointer_arg 0 c2 >>= λ o.
                when_ok c2 s (
                  deref o >>= λ j. in_its_pool j s (returns (done (truth (s.jobs j).cancelled), s)))
            | _ ↦ elim running [
              | none ↦ abort "no current job" s
              | some j ↦
                  when_ok c1 s (in_its_pool j s (returns (done (truth (s.jobs j).cancelled), s)))
            ]
          ])
      asked c1 [] = own c1
      asked c1 (a ∷ []) = >>=-IsSafe (job_argument c1) _ (λ c2 e2.
          >>=-IsSafe (pointer_arg 0 c2) _
            (λ o eo. when_ok-IsSafe c2 s _ v (>>=-IsSafe (deref o) _ (λ j ej. said j))))
      asked c1 (a ∷ b ∷ rest) = own c1

  pub current_job-IsSafe :
      (running : Option ℕ) (args : List Value) (s : Sched)
      → IsSafe s
      → SafeIf (current_job running args s)
  unfolding current_job
  current_job-IsSafe running args s v =
      >>=-IsSafe (check_argc 0 (new_command "currentJob" args)) _ (λ c1 e.
        Option-IsSafe running _ _ (returns-IsSafe _ v)
          (λ j. returns-IsSafe _ (give_job-IsSafe j s v)))

  module _ (s : Sched) (u : IsUnused (s.jobs s.allocated)) (v : IsSafe s) where
    pub new_proc-IsSafe : (name : Bytes) → IsSafe (new_proc interp name s).1
    new_proc-IsSafe name = make_job-IsSafe (proc name) name s u v

    pub create_job-IsSafe : (args : List Value) → SafeIf (create_job interp args s)
    unfolding create_job
    create_job-IsSafe args = >>=-IsSafe (create_checks args) _ (λ c e. when_ok-IsSafe c s _ v (
        >>=-IsSafe (arg 0 c) _ (λ a ea.
          if-IsSafe (test_arg 0 string_cmd c) _ _
            (>>=-IsSafe (text_of a) _ (λ name en.
              let (j, s') = new_proc interp name s in
              returns-IsSafe _ (
                give_job-IsSafe j _
                  (push-IsSafe (map interp.to_string (drop 1 args)) j s' (new_proc-IsSafe name)))))
            (>>=-IsSafe (check_argc 1 c) _ (λ c3 e3.
              let (j, s') = make_job eval [] s in
              returns-IsSafe _ (
                give_job-IsSafe j _
                  (push-IsSafe (interp.to_string a ∷ []) j s' (make_job-IsSafe eval [] s u v))))))))

    job_of-IsSafe : (a : Value) → SafeIf (job_of interp a s)
    job_of-IsSafe (string name) = returns-IsSafe _ (new_proc-IsSafe name)
    job_of-IsSafe (shared Kind.job o) = >>=-IsSafe (deref o) _ (λ j e. returns-IsSafe _ v)
    job_of-IsSafe _ = λ r e. cc

    pub start_job_command-IsSafe :
        (current : Option ℕ) (args : List Value) → SafeIf (start_job_command interp current args s)
    unfolding start_job_command
    start_job_command-IsSafe current args =
        let c = new_command "startJob" args in
        let with_pool = test_arg 0 (of_kind threadpool) c in
        >>=-IsSafe (start_checks args) _ (λ c5 e. when_ok-IsSafe c5 s _ v (
          >>=-IsSafe (pool_of interp with_pool current c) _ (λ pool ep.
            Option-IsSafe pool _ _ (returns-IsSafe _ v) (λ p. in_pool-IsSafe p s _ v (
              >>=-IsSafe (arg (job_place c) c) _ (λ a ea.
                then-IsSafe (job_of interp a s) _ (job_of-IsSafe a)
                  (λ x w. start_with-IsSafe _ _ x.0 x.1 w)))))))
