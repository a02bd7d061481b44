-- ===== src/Sched/Waiting/Calm.antt =====
-- A job that runs leaves the queues alone.
use psingthreadlib.Prelude.{
  ℕ, ◌≡◌, refl, subst, inl, inr, true, false, Option, none, some, List, [], ◌∷◌, arith, Bool-cases,
  Bytes,
}
use psingthreadlib.Prelude.Outcome.{returns, faults, ◌>>=◌, >>=-eq-returns}
use psingthreadlib.Value.{Value}
use psingthreadlib.Sched.Job.{JobClass, eval, exec, proc, kernel, raw_kernel}
use psingthreadlib.Sched.State.{Sched, at}
use psingthreadlib.Sched.Trigger.{Interp, trigger_result}
use psingthreadlib.Sched.Worker.{
  Execution, run_begin, run_end, store_result, job_args, execute_class, run,
}
use psingthreadlib.Sched.Waiting.Work.{SameWork, SameWork-trans, at-SameWork}

-- Whatever runs in a job leaves the queues alone, and what the jobs wait for, and so do the other
-- threads meanwhile.
pub record Calm (interp : Interp) (outside : Execution) : Type 0 where
  pub calm :
      (name : Bytes) (args : List Value) (s : Sched)
      → SameWork s (interp.execute_proc name args s).1
  pub evaluate : (code : Bytes) (s : Sched) → SameWork s (outside.evaluate code s).1
  pub call_kernel :
      (j : ℕ) (args : List Value) (s : Sched) → SameWork s (outside.call_kernel j args s).1
  pub call_raw : (j : ℕ) (deps : List ℕ) (s : Sched) → SameWork s (outside.call_raw j deps s)

module _ (interp : Interp) (outside : Execution) where
  store-SameWork : (r : Bytes) (j : ℕ) (s : Sched) → SameWork s (at j (store_result r) s)
  store-SameWork r j s = at-SameWork (store_result r) j s (λ x. refl) (λ x. refl) (λ x. refl)

  execute_class-SameWork :
      Calm interp outside
      → (class : JobClass) (j : ℕ) (s t : Sched)
      → execute_class interp outside class j s ≡ returns t
      → SameWork s t
  unfolding execute_class
  execute_class-SameWork c eval j s t e = by_args (s.jobs j).args e
    where
      by_args :
          (args : List Bytes)
          → (elim args [
            | [] ↦ faults
            | a ∷ _ ↦ returns (
                at j
                  (store_result (interp.to_string (outside.evaluate a s).0))
                  (outside.evaluate a s).1)
          ])
            ≡ returns t
          → SameWork s t
      by_args [] h = cc
      by_args (a ∷ more) h =
          let u = (outside.evaluate a s).1 in
          let r = interp.to_string (outside.evaluate a s).0 in
          subst (SameWork s) (cc)
            (SameWork-trans s u (at j (store_result r) u) (c.evaluate a s) (store-SameWork r j u))
  execute_class-SameWork c exec j s t e = by_args (s.jobs j).args e
    where
      by_args :
          (args : List Bytes)
          → (elim args [ [] ↦ faults | a ∷ _ ↦ returns (outside.evaluate a s).1 ]) ≡ returns t
          → SameWork s t
      by_args [] h = cc
      by_args (a ∷ more) h = subst (SameWork s) (cc) (c.evaluate a s)
  execute_class-SameWork c (proc name) j s t e =
      let args = job_args interp outside s.jobs j in
      stored (interp.execute_proc name args s).0 (interp.execute_proc name args s).1
        (c.calm name args s) e
    where
      stored :
          (value : Option Value) (u : Sched)
          → SameWork s u
          → (elim value [
            | none ↦ returns u
            | some v ↦ returns (at j (store_result (interp.to_string v)) u)
          ])
            ≡ returns t
          → SameWork s t
      stored none u h k = subst (SameWork s) (cc) h
      stored (some v) u h k =
          let r = interp.to_string v in
          subst (SameWork s) (cc)
            (SameWork-trans s u (at j (store_result r) u) h (store-SameWork r j u))
  execute_class-SameWork c kernel j s t e = by_args (job_args interp outside s.jobs j) e
    where
      by_args :
          (args : List Value)
          → (elim args [
            | [] ↦ faults
            | v ∷ vs ↦ returns (
                at j
                  (store_result (outside.call_kernel j (v ∷ vs) s).0)
                  (outside.call_kernel j (v ∷ vs) s).1)
          ])
            ≡ returns t
          → SameWork s t
      by_args [] h = cc
      by_args (a ∷ more) h =
          let u = (outside.call_kernel j (a ∷ more) s).1 in
          let r = (outside.call_kernel j (a ∷ more) s).0 in
          subst (SameWork s) (cc) (
            SameWork-trans s u (at j (store_result r) u) (c.call_kernel j (a ∷ more) s)
              (store-SameWork r j u))
  execute_class-SameWork c raw_kernel j s t e =
      subst (SameWork s) (cc) (c.call_raw j (s.jobs j).deps s)
  execute_class-SameWork c class j s t e = subst (SameWork s) (cc) (
      at-SameWork (λ job. record job { result = trigger_result interp class job.args job.result }) j
        s (λ x. refl) (λ x. refl) (λ x. refl))

  pub run-SameWork :
      Calm interp outside
      → (j : ℕ) (s t : Sched) → run interp outside j s ≡ returns t
      → SameWork s t
  unfolding run run_begin run_end
  run-SameWork c j s t e = elim (Bool-cases (s.jobs j).cancelled) [
    | inl h ↦ subst (SameWork s) (dropped h) done
    | inr h ↦
        let (u, e1, e2) =
          >>=-eq-returns (execute_class interp outside (begun.jobs j).class j begun) _
            (executed h) in
        subst (SameWork s) (cc) (
          SameWork-trans s u (run_end j u)
            (SameWork-trans s begun u begins
              (execute_class-SameWork c (begun.jobs j).class j begun u e1))
            (at-SameWork (λ job. record job { running = false; done = true }) j u (λ x. refl)
              (λ x. refl) (λ x. refl)))
  ]
    where
      begun : Sched
      begun = at j (λ job. record job { running = true }) s

      begins : SameWork s begun
      begins =
          at-SameWork (λ job. record job { running = true }) j s (λ x. refl) (λ x. refl) (λ x. refl)

      done : SameWork s (at j (λ job. record job { done = true }) s)
      done = at-SameWork (λ job. record job { done = true }) j s (λ x. refl) (λ x. refl) (λ x. refl)

      dropped : (s.jobs j).cancelled ≡ true → at j (λ job. record job { done = true }) s ≡ t
      dropped h = ground arith

      executed :
          (s.jobs j).cancelled ≡ false
          → (execute_class interp outside (begun.jobs j).class j begun >>= λ u.
              returns (run_end j u))
            ≡ returns t
      executed h = ground arith
