-- ===== src/Sched/Library/Laws.antt =====
-- The functions of libthread.h keep the invariant of the queue.
use psingthreadlib.Prelude.{
  ℕ, ◌≡◌, refl, inl, inr, true, false, none, some, List, [], ◌∷◌, map, subst, Bool-cases,
  Option-cases, arith,
}
use psingthreadlib.Prelude.Outcome.{returns}
use psingthreadlib.Value.{Value}
use psingthreadlib.Sched.Job.{kernel, raw_kernel}
use psingthreadlib.Sched.State.{Sched}
use psingthreadlib.Sched.Cancel.{cancel_job}
use psingthreadlib.Sched.Trigger.{Interp}
use psingthreadlib.Sched.Queue.Laws.{In}
use psingthreadlib.Sched.Schedule.{push_args, has_pool, start_job, enter_jobs}
use psingthreadlib.Sched.Safety.Kept.{Nobody, Apart, pooled}
use psingthreadlib.Sched.Safety.Parts.{Rely}
use psingthreadlib.Sched.Safety.Entering.{cancel_job-Kept}
use psingthreadlib.Sched.Safety.Adding.{IsSafe, Kept-IsSafe}
use psingthreadlib.Sched.Safety.Workers.{args-Harmless}
use psingthreadlib.Sched.Safety.Making.{IsUnused, make_job-IsSafe, at-IsSafe}
use psingthreadlib.Sched.Safety.Scheduling.{enter_jobs-IsSafe}
use psingthreadlib.Sched.Safety.Respect.{start_job-IsSafe}
use psingthreadlib.Sched.Library.{
  Function, starts, schedules, cancels, adds_args, creates_kernel, creates_raw, perform,
  start_or_keep, schedule_one, cancel_if_scheduled,
}

is_result : (s t : Sched) → returns s ≡ returns t → s ≡ t
is_result s t e = cc

module _ (interp : Interp) (s : Sched) (v : IsSafe s) where
  start_or_keep-IsSafe : (j : ℕ) (arg : List Value) → IsSafe (start_or_keep interp j arg s)
  unfolding start_or_keep
  start_or_keep-IsSafe j arg = elim (Option-cases (start_job interp j arg s)) [
    | inl e ↦ subst IsSafe (kept e) v
    | inr (t, e) ↦ subst IsSafe (started t e) (start_job-IsSafe interp j arg s t v e)
  ]
    where
      kept : start_job interp j arg s ≡ none → s ≡ start_or_keep interp j arg s
      kept e = rw (start_or_keep, e) refl

      started : (t : Sched) → start_job interp j arg s ≡ some t → t ≡ start_or_keep interp j arg s
      started t e = rw (start_or_keep, e) refl

  schedule_one-IsSafe :
      (rely : Rely interp) (j : ℕ) (deps : List ℕ) (t : Sched)
      → (rely.Others j → ⊥)
      → schedule_one interp j deps s ≡ returns t
      → IsSafe t
  unfolding schedule_one
  schedule_one-IsSafe rely j deps t o e = elim (Bool-cases (has_pool (s.jobs j).pool)) [
    | inl h ↦ subst IsSafe (kept h) v
    | inr h ↦ enter_jobs-IsSafe interp rely (j ∷ []) deps s t v apart (only h) (entered h)
  ]
    where
      apart : Apart rely.Others (λ k. In k (j ∷ []))
      apart k (inl same) q = o (subst rely.Others same q)
      apart k (inr i) q = absurd i

      kept : has_pool (s.jobs j).pool ≡ true → s ≡ t
      kept h = ground arith

      entered : has_pool (s.jobs j).pool ≡ false → enter_jobs interp (j ∷ []) deps s ≡ returns t
      entered h = ground arith

      only : has_pool (s.jobs j).pool ≡ false → (k : ℕ) → In k (j ∷ []) → pooled (s.jobs k) ≡ false
      only h k (inl same) = rw same h
      only h k (inr i) = absurd i

  cancel_if_scheduled-IsSafe : (j : ℕ) (t : Sched) → cancel_if_scheduled j s ≡ returns t → IsSafe t
  unfolding cancel_if_scheduled
  cancel_if_scheduled-IsSafe j t e = elim (Bool-cases (has_pool (s.jobs j).pool)) [
    | inl h ↦ Kept-IsSafe s t (cancel_job-Kept Nobody j s v t (cancelled h))
    | inr h ↦ subst IsSafe (kept h) v
  ]
    where
      kept : has_pool (s.jobs j).pool ≡ false → s ≡ t
      kept h = ground arith

      cancelled : has_pool (s.jobs j).pool ≡ true → cancel_job j s ≡ returns t
      cancelled h = ground arith

-- If a procedure that a proc trigger runs without the lock, and the other threads meanwhile, leave
-- only jobs with a pool among the dependents and triggers of jobs, only such jobs without undone
-- dependencies in the global queue, jobs that are done or have a pool as such, and the dependencies
-- of a job that has a pool or is being scheduled as they are, if they do not schedule the job that
-- the call schedules, if no other thread acts between the first test of the call and its lock, and
-- nothing is in use at the address of the next job, then each function of libthread.h that makes,
-- changes, starts, schedules or cancels a job, if it returns, keeps it that every job of the global
-- queue has a pool and waits for no job that is not done, and that all dependents and triggers have
-- a pool.
pub perform-IsSafe :
    (interp : Interp)
    → (rely : Rely interp) → (function : Function) (s t : Sched)
    → ((j : ℕ) (deps : List ℕ) → function ≡ schedules j deps → rely.Others j → ⊥)
    → IsUnused (s.jobs s.allocated)
    → IsSafe s
    → perform interp function s ≡ returns t
    → IsSafe t
unfolding perform
perform-IsSafe interp rely (starts j arg) s t o u v e =
    subst IsSafe (is_result _ t e) (start_or_keep-IsSafe interp s v j arg)
perform-IsSafe interp rely (schedules j deps) s t o u v e =
    schedule_one-IsSafe interp s v rely j deps t (o j deps refl) e
perform-IsSafe interp rely (cancels j) s t o u v e = cancel_if_scheduled-IsSafe interp s v j t e
perform-IsSafe interp rely (adds_args j arg) s t o u v e =
    let more = map interp.to_string arg in
    subst IsSafe (is_result _ t e) (at-IsSafe (push_args more) j s (args-Harmless more) v)
perform-IsSafe interp rely creates_kernel s t o u v e =
    subst IsSafe (is_result _ t e) (make_job-IsSafe kernel [] s u v)
perform-IsSafe interp rely creates_raw s t o u v e =
    subst IsSafe (is_result _ t e) (make_job-IsSafe raw_kernel [] s u v)
