-- ===== src/Sched/Safety/Making.antt =====
-- A job that is made, changed or attached keeps the invariant of a state in which all queued jobs
-- are in a pool.
use psingthreadlib.Prelude.{
  Bool-cases, ==_iff, ◌==◌, Bytes, ℕ, ◌≡◌, refl, arith, inl, inr, false, [], All, subst, sym,
}
use psingthreadlib.Sched.Job.{Job, JobClass}
use psingthreadlib.Sched.State.{Sched, at, attach_job}
use psingthreadlib.Sched.Schedule.{make_job}
use psingthreadlib.Sched.Safety.Kept.{
  pooled, Member, Nobody, Harmless, Steady, Goes, Goes-refl, Inv-Steady, at-Kept,
}
use psingthreadlib.Sched.Safety.Entering.{attach_job-Kept}
use psingthreadlib.Sched.Safety.Adding.{IsSafe, Kept-IsSafe}

pub at-IsSafe : (f : Job → Job) (j : ℕ) (s : Sched) → Harmless f → IsSafe s → IsSafe (at j f s)
at-IsSafe f j s h v = Kept-IsSafe s (at j f s) (at-Kept Nobody f j s h v)

-- So does a job that is attached, whatever it waits for.
pub attach_job-IsSafe : (j : ℕ) (s : Sched) → IsSafe s → IsSafe (attach_job j s)
attach_job-IsSafe j s v = (attach_job-Kept Nobody j s v).inv

-- The next address holds nothing that is in use.
pub record IsUnused (x : Job) : Type 0 where
  pub deps : x.deps ≡ []
  pub done : x.done ≡ false
  pub pool : pooled x ≡ false

pub make_job-IsSafe :
    (class : JobClass) (name : Bytes) (s : Sched)
    → IsUnused (s.jobs s.allocated)
    → IsSafe s
    → IsSafe (make_job class name s).1
unfolding make_job
make_job-IsSafe class name s u v =
    let t = (make_job class name s).1 in
    Kept-IsSafe s t (Inv-Steady Nobody s t v steady refl notify triggers)
  where
    unused : (C : Type 0) → Goes C (s.jobs s.allocated) ((make_job class name s).1.jobs s.allocated)
    unused C = rw ((==_iff s.allocated s.allocated).1 refl) (record {
      deps = λ c. sym u.deps;
      done = λ h. ground (arith, u.done);
      pool = λ h. ground (arith, u.pool);
    })

    made :
        (C : Type 0) (k : ℕ)
        → s.allocated ≡ k
        → Goes C (s.jobs k) ((make_job class name s).1.jobs k)
    made C k same =
        subst (λ i. Goes C (s.jobs i) ((make_job class name s).1.jobs i)) same (unused C)

    steady : Steady Nobody s.jobs (make_job class name s).1.jobs
    steady k = elim (Bool-cases (s.allocated == k)) [
      | inl e ↦ made (Member Nobody s.jobs k) k ((==_iff s.allocated k).0 e)
      | inr e ↦ rw e (Goes-refl (Member Nobody s.jobs k) (s.jobs k))
    ]

    notify : (d : ℕ) → All (Member Nobody s.jobs) ((make_job class name s).1.jobs d).notify
    notify d = elim (Bool-cases (s.allocated == d)) [
      | inl e ↦ rw e tt
      | inr e ↦ rw e (v.dependents d)
    ]

    triggers : (d : ℕ) → All (Member Nobody s.jobs) ((make_job class name s).1.jobs d).triggers
    triggers d = elim (Bool-cases (s.allocated == d)) [
      | inl e ↦ rw e tt
      | inr e ↦ rw e (v.chained d)
    ]
