-- ===== src/Commands/Invariant/Triggers.antt =====
-- `chainTrigger` and `testTrigger` keep the invariant of the queue.
use psingthreadlib.Prelude.{ℕ, ◌≡◌, refl, not, true, Option, none, some, List}
use psingthreadlib.Prelude.Outcome.{returns, deref}
use psingthreadlib.Value.{Value, trigger, job}
use psingthreadlib.Sched.State.{Sched}
use psingthreadlib.Sched.Schedule.{has_pool}
use psingthreadlib.Sched.Safety.Adding.{IsSafe}
use psingthreadlib.Sched.Safety.Respect.{chain-IsSafe}
use psingthreadlib.Commands.Command.{
  new_command, of_kind, check_argc, check_arg, check_arg_either, check_init, shared_arg,
}
use psingthreadlib.Commands.Triggers.{same_pool, chain_trigger, test_trigger}
use psingthreadlib.Commands.Invariant.Rules.{
  SafeIf, returns-IsSafe, >>=-IsSafe, if-IsSafe, when_ok-IsSafe,
}

has_pool_there : (o : Option ℕ) (p : ℕ) → deref o ≡ returns p → has_pool o ≡ true
has_pool_there none p e = cc
has_pool_there (some q) p e = refl

pub test_trigger-IsSafe : (args : List Value) (s : Sched) → IsSafe s → SafeIf (test_trigger args s)
unfolding test_trigger
test_trigger-IsSafe args s v =
    >>=-IsSafe (check_argc 1 (new_command "testTrigger" args)) _ (λ c1 e1.
      >>=-IsSafe (check_arg 0 (of_kind trigger) "argument must be a trigger" c1) _ (λ c2 e2.
        >>=-IsSafe (check_init 0 "trigger not initialized" c2) _ (λ c3 e3. when_ok-IsSafe c3 s _ v (
          >>=-IsSafe (shared_arg 0 c3) _
            (λ t et. >>=-IsSafe (deref ((s.jobs t).pool)) _ (λ p ep. returns-IsSafe _ v))))))

pub chain_trigger-IsSafe :
    (args : List Value) (s : Sched) → IsSafe s → SafeIf (chain_trigger args s)
unfolding chain_trigger
chain_trigger-IsSafe args s v =
    >>=-IsSafe (check_argc 2 (new_command "chainTrigger" args)) _ (λ c1 e1.
      >>=-IsSafe (check_arg 0 (of_kind trigger) "first argument must be a trigger" c1) _ (λ c2 e2.
        >>=-IsSafe
          (check_arg_either 1 (of_kind trigger) (of_kind job)
            "second argument must be a trigger or job" c2)
          _
          (λ c3 e3. >>=-IsSafe (check_init 0 "trigger not initialized" c3) _ (λ c4 e4.
            >>=-IsSafe (check_init 1 "trigger/job not initialized" c4) _ (λ c5 e5.
              when_ok-IsSafe c5 s _ v (
                >>=-IsSafe (shared_arg 0 c5) _ (λ t et. >>=-IsSafe (shared_arg 1 c5) _ (λ j ej.
                  if-IsSafe (not (same_pool (s.jobs t).pool (s.jobs j).pool)) _ _
                    (returns-IsSafe _ v)
                    (>>=-IsSafe (deref ((s.jobs t).pool)) _ (λ p ep.
                      returns-IsSafe _
                        (chain-IsSafe t j s (has_pool_there (s.jobs t).pool p ep) v)))))))))))
