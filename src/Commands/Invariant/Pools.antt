-- ===== src/Commands/Invariant/Pools.antt =====
-- `createTrigger` and `threadPoolExec` keep the invariant of the queue.
use psingthreadlib.Prelude.{ℕ, ◌+◌, ◌==◌, Option, List, [], ◌∷◌, length}
use psingthreadlib.Prelude.Outcome.{◌>>=◌, deref}
use psingthreadlib.Value.{Value, threadpool}
use psingthreadlib.Sched.Job.{JobClass, exec}
use psingthreadlib.Sched.State.{Sched, at, incref, attach_job}
use psingthreadlib.Sched.Trigger.{Interp}
use psingthreadlib.Sched.Schedule.{make_job, push_args}
use psingthreadlib.Sched.Safety.Parts.{incref-Harmless}
use psingthreadlib.Sched.Safety.Adding.{IsSafe}
use psingthreadlib.Sched.Safety.Workers.{args-Harmless}
use psingthreadlib.Sched.Safety.Making.{IsUnused, make_job-IsSafe, at-IsSafe, attach_job-IsSafe}
use psingthreadlib.Sched.Safety.Respect.{broadcast_job-IsSafe}
use psingthreadlib.Commands.Command.{new_command, check_argc_min, arg, test_arg, of_kind}
use psingthreadlib.Commands.Jobs.{count}
use psingthreadlib.Commands.Pools.{
  trigger_class, pool_argument, is_missing, check_pool, check_kind, create_trigger, exec_checks,
  thread_pool_exec,
}
use psingthreadlib.Commands.Invariant.Rules.{
  SafeIf, returns-IsSafe, >>=-IsSafe, if-IsSafe, Option-IsSafe, when_ok-IsSafe, in_pool-IsSafe,
}

module _ (s : Sched) (u : IsUnused (s.jobs s.allocated)) (v : IsSafe s) where
  new_trigger-IsSafe :
      (class : JobClass)
      → let (t, s') = make_job class [] s in IsSafe (at t incref (attach_job t s'))
  new_trigger-IsSafe class =
      let (t, s') = make_job class [] s in
      at-IsSafe incref t (attach_job t s') incref-Harmless
        (attach_job-IsSafe t s' (make_job-IsSafe class [] s u v))

  pub create_trigger-IsSafe :
      (current : Option ℕ) (args : List Value) → SafeIf (create_trigger current args s)
  unfolding create_trigger
  create_trigger-IsSafe current args =
      let c = new_command "createTrigger" args in
      let with_pool = test_arg 0 (of_kind threadpool) c in
      let i = count with_pool in
      >>=-IsSafe (check_argc_min 1 c >>= check_pool with_pool) _ (λ c2 e.
        >>=-IsSafe (pool_argument with_pool current c) _ (λ pool ep.
          if-IsSafe (is_missing with_pool pool) _ _ (returns-IsSafe _ v) (
            >>=-IsSafe (check_kind i c2) _ (λ x ex. when_ok-IsSafe x.1 s _ v (
              >>=-IsSafe (arg (i + 1) c) _ (λ a ea. >>=-IsSafe (deref pool) _ (λ p ed.
                Option-IsSafe (trigger_class x.0 a).0 _ _ (returns-IsSafe _ v) (λ class.
                  in_pool-IsSafe p s _ v (returns-IsSafe _ (new_trigger-IsSafe class))))))))))

  pub thread_pool_exec-IsSafe :
      (interp : Interp) (current : Option ℕ) (args : List Value)
      → SafeIf (thread_pool_exec interp current args s)
  unfolding thread_pool_exec make_job
  thread_pool_exec-IsSafe interp current args =
      let c = new_command "threadPoolExec" args in
      let with_pool = length args == 2 in
      >>=-IsSafe (exec_checks with_pool c) _ (λ c3 e.
        >>=-IsSafe (pool_argument with_pool current c) _ (λ pool ep.
          if-IsSafe (is_missing with_pool pool) _ _ (returns-IsSafe _ v) (
            when_ok-IsSafe c3 s _ v (
              >>=-IsSafe (deref pool) _ (λ p ed. >>=-IsSafe (arg (count with_pool) c) _ (λ a ea.
                in_pool-IsSafe p s _ v (
                  let (j, s') = make_job exec [] s in
                  let more = interp.to_string a ∷ [] in
                  returns-IsSafe _ (
                    broadcast_job-IsSafe j (at j (push_args more) s') (
                      at-IsSafe (push_args more) j s' (args-Harmless more)
                        (make_job-IsSafe exec [] s u v))))))))))
