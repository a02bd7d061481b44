-- ===== src/Sched/Safety/Running.antt =====
-- A job that runs keeps the invariant of the queue, whatever its class.
use psingthreadlib.Prelude.{
  ℕ, ◌≡◌, refl, sym, ◌∙◌, inl, inr, ◌⊎◌, true, false, none, some, List, [], ◌∷◌, Bool-cases,
  Option-cases, arith, Bytes,
}
use psingthreadlib.Prelude.Outcome.{returns, ◌>>=◌, >>=-eq-returns}
use psingthreadlib.Value.{Value}
use psingthreadlib.Sched.Job.{
  JobClass, Job, eval, exec, kernel, raw_kernel, proc, acc_trigger, count_trigger, set_trigger,
  proc_trigger,
}
use psingthreadlib.Sched.State.{Sched, at}
use psingthreadlib.Sched.Trigger.{Interp, trigger_result}
use psingthreadlib.Sched.Worker.{
  Execution, store_result, run_begin, run_end, execute_class, job_args, run,
}
use psingthreadlib.Sched.Safety.Kept.{Nobody, nobody, Inv, Kept, at-Kept, Kept-trans}
use psingthreadlib.Sched.Safety.Parts.{Rely, KeptIf, KeptIf-returns}
use psingthreadlib.Sched.Safety.Workers.{result-Harmless, run_begin-Kept, run_end-Kept}

List-cases : {A : Type 0} (l : List A) → (l ≡ []) ⊎ ((a : A) × (rest : List A) × (l ≡ a ∷ rest))
List-cases [] = inl refl
List-cases (a ∷ rest) = inr (a, rest, refl)

-- What a job runs without the lock, and the other threads meanwhile, keep the invariant of the queue
-- and the dependencies of every job that has a pool.
pub record RelyOutside (outside : Execution) : Type 0 where
  pub evaluate :
      (code : Bytes) (s : Sched) → Inv Nobody s → Kept Nobody s (outside.evaluate code s).1
  pub call_kernel :
      (j : ℕ) (args : List Value) (s : Sched)
      → Inv Nobody s
      → Kept Nobody s (outside.call_kernel j args s).1
  pub call_raw :
      (j : ℕ) (deps : List ℕ) (s : Sched) → Inv Nobody s → Kept Nobody s (outside.call_raw j deps s)

module _ (interp : Interp) (outside : Execution) (rely : Rely interp)
    (around : RelyOutside outside) where
  stored-Kept :
      (j : ℕ) (r : Bytes) (s : Sched) → Inv Nobody s → Kept Nobody s (at j (store_result r) s)
  stored-Kept j r s v = at-Kept Nobody (store_result r) j s (result-Harmless r) v

  abbrev with_result : JobClass → Job → Job
  with_result class job = record job { result = trigger_result interp class job.args job.result }

  triggered-Kept :
      (class : JobClass) (j : ℕ) (s : Sched)
      → Inv Nobody s
      → Kept Nobody s (at j (with_result class) s)
  triggered-Kept class j s v =
      at-Kept Nobody (with_result class) j s
        (record {
          deps = λ x. refl;
          done = λ x h. h;
          pool = λ x h. h;
          notify = λ x. refl;
          triggers = λ x. refl;
        })
        v

  execute-Kept :
      (class : JobClass) (j : ℕ) (s : Sched)
      → Inv Nobody s
      → KeptIf Nobody s (execute_class interp outside class j s)
  execute-Kept eval j s v u e = elim (List-cases (s.jobs j).args) [
    | inl h ↦ absurd (unfold execute_class in ground (arith, h))
    | inr (a, rest, h) ↦
        let k = around.evaluate a s v in
        let t = (outside.evaluate a s).1 in
        let r = interp.to_string (outside.evaluate a s).0 in
        KeptIf-returns Nobody s _
          (Kept-trans Nobody s t (at j (store_result r) t) k (stored-Kept j r t k.inv)) u
          (sym (evaluated a rest h) ∙ e)
  ]
    where
      evaluated :
          (a : Bytes) (rest : List Bytes)
          → (s.jobs j).args ≡ a ∷ rest
          → execute_class interp outside eval j s
            ≡ returns (
                at j
                  (store_result (interp.to_string (outside.evaluate a s).0))
                  (outside.evaluate a s).1)
      evaluated a rest h = unfold execute_class in rw (execute_class, h) refl
  execute-Kept exec j s v u e = elim (List-cases (s.jobs j).args) [
    | inl h ↦ absurd (unfold execute_class in ground (arith, h))
    | inr (a, rest, h) ↦
        KeptIf-returns Nobody s (outside.evaluate a s).1 (around.evaluate a s v) u
          (sym (ignored a rest h) ∙ e)
  ]
    where
      ignored :
          (a : Bytes) (rest : List Bytes)
          → (s.jobs j).args ≡ a ∷ rest
          → execute_class interp outside exec j s ≡ returns (outside.evaluate a s).1
      ignored a rest h = unfold execute_class in rw (execute_class, h) refl
  execute-Kept (proc name) j s v u e =
      let r = interp.execute_proc name (job_args interp outside s.jobs j) s in
      let k = rely.keeps Nobody name (job_args interp outside s.jobs j) s (nobody rely.Others) v in
      elim (Option-cases r.0) [
        | inl h ↦ KeptIf-returns Nobody s r.1 k u (sym (failed h) ∙ e)
        | inr (value, h) ↦
            KeptIf-returns Nobody s _
              (Kept-trans Nobody s r.1 _ k (stored-Kept j (interp.to_string value) r.1 k.inv)) u
              (sym (gave value h) ∙ e)
      ]
    where
      failed :
          (interp.execute_proc name (job_args interp outside s.jobs j) s).0 ≡ none
          → execute_class interp outside (proc name) j s
            ≡ returns (interp.execute_proc name (job_args interp outside s.jobs j) s).1
      failed h = unfold execute_class in rw (execute_class, h) refl

      gave :
          (value : Value)
          → (interp.execute_proc name (job_args interp outside s.jobs j) s).0 ≡ some value
          → execute_class interp outside (proc name) j s
            ≡ returns (
                at j
                  (store_result (interp.to_string value))
                  (interp.execute_proc name (job_args interp outside s.jobs j) s).1)
      gave value h = unfold execute_class in rw (execute_class, h) refl
  execute-Kept kernel j s v u e = elim (List-cases (job_args interp outside s.jobs j)) [
    | inl h ↦ absurd (unfold execute_class in ground (arith, h))
    | inr (a, rest, h) ↦
        let k = around.call_kernel j (a ∷ rest) s v in
        let t = (outside.call_kernel j (a ∷ rest) s).1 in
        let r = (outside.call_kernel j (a ∷ rest) s).0 in
        KeptIf-returns Nobody s _
          (Kept-trans Nobody s t (at j (store_result r) t) k (stored-Kept j r t k.inv)) u
          (sym (called a rest h) ∙ e)
  ]
    where
      called :
          (a : Value) (rest : List Value)
          → job_args interp outside s.jobs j ≡ a ∷ rest
          → execute_class interp outside kernel j s
            ≡ returns (
                at j
                  (store_result (outside.call_kernel j (a ∷ rest) s).0)
                  (outside.call_kernel j (a ∷ rest) s).1)
      called a rest h = unfold execute_class in rw (execute_class, h) refl
  execute-Kept raw_kernel j s v u e =
      KeptIf-returns Nobody s (outside.call_raw j (s.jobs j).deps s)
        (around.call_raw j (s.jobs j).deps s v) u (unfold execute_class in e)
  execute-Kept (acc_trigger c) j s v u e =
      KeptIf-returns Nobody s _ (triggered-Kept (acc_trigger c) j s v) u (unfold execute_class in e)
  execute-Kept (count_trigger c) j s v u e =
      KeptIf-returns Nobody s _ (triggered-Kept (count_trigger c) j s v) u
        (unfold execute_class in e)
  execute-Kept (set_trigger f c) j s v u e =
      KeptIf-returns Nobody s _ (triggered-Kept (set_trigger f c) j s v) u
        (unfold execute_class in e)
  execute-Kept (proc_trigger name b) j s v u e =
      KeptIf-returns Nobody s _ (triggered-Kept (proc_trigger name b) j s v) u
        (unfold execute_class in e)

  pub run-Kept : (j : ℕ) (s : Sched) → Inv Nobody s → KeptIf Nobody s (run interp outside j s)
  run-Kept j s v u e = elim (Bool-cases (run_begin j s).0) [
    | inl h ↦
        let b = (run_begin j s).1 in
        let kb = run_begin-Kept Nobody j s v in
        let (t, et, eu) =
          >>=-eq-returns (execute_class interp outside (b.jobs j).class j b) _
            (sym (executed h) ∙ e) in
        let kt = execute-Kept (b.jobs j).class j b kb.inv t et in
        KeptIf-returns Nobody s (run_end j t)
          (Kept-trans Nobody s b (run_end j t) kb
            (Kept-trans Nobody b t (run_end j t) kt (run_end-Kept Nobody j t kt.inv)))
          u eu
    | inr h ↦
        KeptIf-returns Nobody s (run_begin j s).1 (run_begin-Kept Nobody j s v) u
          (sym (passed h) ∙ e)
  ]
    where
      executed :
          (run_begin j s).0 ≡ true
          → run interp outside j s ≡ (
              execute_class interp outside ((run_begin j s).1.jobs j).class j (run_begin j s).1
              >>= λ t. returns (run_end j t))
      executed h = unfold run in rw h refl

      passed : (run_begin j s).0 ≡ false → run interp outside j s ≡ returns (run_begin j s).1
      passed h = unfold run in rw h refl
