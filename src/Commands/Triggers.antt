-- ===== src/Commands/Triggers.antt =====
-- shared.cc: `updateTrigger`, `chainTrigger` and `testTrigger`, on the pool of the trigger.
use psingthreadlib.Prelude.{
  ℕ, Bool, true, false, not, ◌==◌, Option, none, some, List, if◌then◌else◌,
}
use psingthreadlib.Prelude.Int.{pos}
use psingthreadlib.Prelude.Outcome.{Outcome, returns, ◌>>=◌, deref}
use psingthreadlib.Value.{Value, nothing, int, trigger, job}
use psingthreadlib.Sched.Job.{ready}
use psingthreadlib.Sched.State.{Sched, at}
use psingthreadlib.Sched.Trigger.{Interp, accept, activate}
use psingthreadlib.Sched.Notify.{notify_deps}
use psingthreadlib.Sched.Worker.{Execution, run}
use psingthreadlib.Sched.Safety.Steps.{chain}
use psingthreadlib.Commands.Command.{
  Verdict, refused, done, when_ok, behind, of_kind, new_command, check_argc, check_argc_min,
  check_arg, check_arg_either, check_init, shared_arg,
}

abbrev pub same_pool : Option ℕ → Option ℕ → Bool
same_pool none none = true
same_pool (some a) (some b) = a == b
same_pool _ _ = false

module _ (interp : Interp) (outside : Execution) where
  -- What `updateTrigger` does under the lock of the scheduler; other threads that come in while `run`
  -- has released the lock do so by their own steps.
  unfoldable pub update_core : ℕ → List Value → Sched → Outcome (Bool × Sched)
  update_core t arg s = accept (s.jobs t).class arg >>= λ accepted.
      if not accepted
      then returns (false, s)
      else (activate interp t arg s >>= λ s1.
          if ready s1.jobs t
          then (run interp outside t s1 >>= λ s2.
              notify_deps interp t s2 >>= λ s3. returns (true, s3))
          else returns (true, s1))

  unfoldable pub update_trigger : List Value → Sched → Outcome (Verdict × Sched)
  update_trigger args s = check_argc_min 1 (new_command "updateTrigger" args) >>= λ c1.
      check_arg 0 (of_kind trigger) "first argument must be a trigger" c1 >>= λ c2.
      check_init 0 "trigger not initialized" c2 >>= λ c3. when_ok c3 s (
        shared_arg 0 c3 >>= λ t. deref ((s.jobs t).pool) >>= λ p.
        update_core t (behind args) s >>= λ (accepted, s'). returns (
          if accepted
              then done nothing
              else refused (some "incompatible argument type(s) for this trigger"),
          s',
        ))

-- A trigger without a pool is a fault: `pool->scheduler` is read.
unfoldable pub chain_trigger : List Value → Sched → Outcome (Verdict × Sched)
chain_trigger args s = check_argc 2 (new_command "chainTrigger" args) >>= λ c1.
    check_arg 0 (of_kind trigger) "first argument must be a trigger" c1 >>= λ c2.
    check_arg_either 1 (of_kind trigger) (of_kind job) "second argument must be a trigger or job" c2
    >>= λ c3. check_init 0 "trigger not initialized" c3 >>= λ c4.
        check_init 1 "trigger/job not initialized" c4 >>= λ c5. when_ok c5 s (
          shared_arg 0 c5 >>= λ t. shared_arg 1 c5 >>= λ j.
          if not (same_pool (s.jobs t).pool (s.jobs j).pool)
          then returns (refused (some "arguments use different threadpools"), s)
          else (deref ((s.jobs t).pool) >>= λ p. returns (done nothing, at j (chain t) s)))

abbrev pub truth : Bool → Value
truth true = int (pos 1)
truth false = int (pos 0)

unfoldable pub test_trigger : List Value → Sched → Outcome (Verdict × Sched)
test_trigger args s = check_argc 1 (new_command "testTrigger" args) >>= λ c1.
    check_arg 0 (of_kind trigger) "argument must be a trigger" c1 >>= λ c2.
    check_init 0 "trigger not initialized" c2 >>= λ c3. when_ok c3 s (
      shared_arg 0 c3 >>= λ t.
      deref ((s.jobs t).pool) >>= λ p. returns (done (truth (ready s.jobs t)), s))
