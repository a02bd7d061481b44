-- ===== src/Commands/Safety.antt =====
-- `updateTrigger` and the invariant of the queue.
use psingthreadlib.Prelude.{
  String, ℕ, ◌≡◌, Bool, true, false, not, Option, some, List, subst, if◌then◌else◌,
}
use psingthreadlib.Prelude.Outcome.{Outcome, returns, ◌>>=◌, >>=-eq-returns, deref}
use psingthreadlib.Value.{Value, nothing, trigger}
use psingthreadlib.Sched.Job.{ready}
use psingthreadlib.Sched.State.{Sched}
use psingthreadlib.Sched.Trigger.{Interp, accept, activate}
use psingthreadlib.Sched.Notify.{notify_deps}
use psingthreadlib.Sched.Worker.{Execution, run}
use psingthreadlib.Sched.Safety.Kept.{Nobody, nobody, Inv, Kept, Kept-refl, Kept-trans}
use psingthreadlib.Sched.Safety.Parts.{Rely}
use psingthreadlib.Sched.Safety.Triggers.{activate-Kept, notify_deps-Kept}
use psingthreadlib.Sched.Safety.Adding.{IsSafe, Kept-IsSafe}
use psingthreadlib.Sched.Safety.Running.{RelyOutside, run-Kept}
use psingthreadlib.Commands.Command.{
  Verdict, refused, done, when_ok, behind, Command, of_kind, new_command, ok, check_argc_min,
  check_arg, check_init, shared_arg,
}
use psingthreadlib.Commands.Triggers.{update_core, update_trigger}

module _ (interp : Interp) (outside : Execution) (rely : Rely interp)
    (around : RelyOutside outside) where
  module _ (t : ℕ) where
    ran-Kept :
        (s : Sched)
        → Inv Nobody s
        → (r : Bool × Sched)
        → (run interp outside t s >>= λ s2. notify_deps interp t s2 >>= λ s3. returns (true, s3))
          ≡ returns r
        → Kept Nobody s r.1
    ran-Kept s v r e =
        let (s2, e2, f2) = >>=-eq-returns (run interp outside t s) _ e in
        let k2 = run-Kept interp outside rely around t s v s2 e2 in
        let (s3, e3, f3) = >>=-eq-returns (notify_deps interp t s2) _ f2 in
        let k3 = notify_deps-Kept interp rely Nobody t s2 (nobody rely.Others) k2.inv s3 e3 in
        let same : s3 ≡ r.1 = cc in subst (Kept Nobody s) same (Kept-trans Nobody s s2 s3 k2 k3)

    fired-Kept :
        (b : Bool) (s : Sched)
        → Inv Nobody s
        → (r : Bool × Sched)
        → (if b
            then (run interp outside t s >>= λ s2.
                notify_deps interp t s2 >>= λ s3. returns (true, s3))
            else returns (true, s))
          ≡ returns r
        → Kept Nobody s r.1
    fired-Kept true s v r e = ran-Kept s v r e
    fired-Kept false s v r e =
        let same : s ≡ r.1 = cc in subst (Kept Nobody s) same (Kept-refl Nobody s v)

    accepted-Kept :
        (b : Bool) (arg : List Value) (s : Sched)
        → Inv Nobody s
        → (r : Bool × Sched)
        → (if not b
            then returns (false, s)
            else (activate interp t arg s >>= λ s1.
                if ready s1.jobs t
                then (run interp outside t s1 >>= λ s2.
                    notify_deps interp t s2 >>= λ s3. returns (true, s3))
                else returns (true, s1)))
          ≡ returns r
        → Kept Nobody s r.1
    accepted-Kept false arg s v r e =
        let same : s ≡ r.1 = cc in subst (Kept Nobody s) same (Kept-refl Nobody s v)
    accepted-Kept true arg s v r e =
        let (s1, e1, f1) = >>=-eq-returns (activate interp t arg s) _ e in
        let k1 = activate-Kept interp rely Nobody t arg s (nobody rely.Others) v s1 e1 in
        Kept-trans Nobody s s1 r.1 k1 (fired-Kept (ready s1.jobs t) s1 k1.inv r f1)

    core-Kept :
        (arg : List Value) (s : Sched)
        → Inv Nobody s
        → (r : Bool × Sched) → update_core interp outside t arg s ≡ returns r
        → Kept Nobody s r.1
    unfolding update_core
    core-Kept arg s v r e =
        let (b, eb, f) = >>=-eq-returns (accept (s.jobs t).class arg) _ e in
        accepted-Kept b arg s v r f

  if-IsSafe :
      (b : Bool) (s : Sched) (err : Option String) (r : Verdict × Sched)
      (k : Outcome (Verdict × Sched))
      → IsSafe s
      → (if b then k else returns (refused err, s)) ≡ returns r
      → (k ≡ returns r → IsSafe r.1)
      → IsSafe r.1
  if-IsSafe true s err r k v e f = f e
  if-IsSafe false s err r k v e f = let same : s ≡ r.1 = cc in subst IsSafe same v

  when_ok-IsSafe :
      (args : List Value) (s : Sched) (cmd : Command) (r : Verdict × Sched)
      → IsSafe s
      → when_ok cmd s (
          shared_arg 0 cmd >>= λ t. deref ((s.jobs t).pool) >>= λ p.
          update_core interp outside t (behind args) s >>= λ (accepted, s'). returns (
            if accepted
                then done nothing
                else refused (some "incompatible argument type(s) for this trigger"),
            s',
          ))
        ≡ returns r
      → IsSafe r.1
  when_ok-IsSafe args s cmd r v e = if-IsSafe (ok cmd) s cmd.error r _ v e (λ f.
      let (t, e1, f1) = >>=-eq-returns (shared_arg 0 cmd) _ f in
      let (p, e2, f2) = >>=-eq-returns (deref ((s.jobs t).pool)) _ f1 in
      let (q, e3, f3) = >>=-eq-returns (update_core interp outside t (behind args) s) _ f2 in
      let same : q.1 ≡ r.1 = cc in
      subst IsSafe same (Kept-IsSafe s q.1 (core-Kept t (behind args) s v q e3)))

  -- `updateTrigger` keeps the invariant of the queue if what runs without the lock does.
  pub update_trigger-IsSafe :
      (args : List Value) {s : Sched} {r : Verdict × Sched}
      → IsSafe s
      → update_trigger interp outside args s ≡ returns r
      → IsSafe r.1
  unfolding update_trigger
  update_trigger-IsSafe args {s} {r} v e =
      let (c1, e1, f1) = >>=-eq-returns (check_argc_min 1 (new_command "updateTrigger" args)) _ e in
      let (c2, e2, f2) =
        >>=-eq-returns (check_arg 0 (of_kind trigger) "first argument must be a trigger" c1) _ f1 in
      let (c3, e3, f3) = >>=-eq-returns (check_init 0 "trigger not initialized" c2) _ f2 in
      when_ok-IsSafe args s c3 r v f3
