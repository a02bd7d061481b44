-- ===== src/Sched/Safety/Parts.antt =====
-- The operations on the queue, on dependents and on triggers keep the invariant.
use psingthreadlib.Prelude.{
  ℕ, ◌≡◌, refl, inl, inr, true, not, ◌&&◌, List, [], ◌∷◌, arith, All, All-append, Bool-cases, subst,
  sym, Bytes,
}
use psingthreadlib.Prelude.Outcome.{Outcome, returns, ◌>>=◌, >>=-eq-returns}
use psingthreadlib.Value.{Value}
use psingthreadlib.Sched.Job.{Jobs, ready}
use psingthreadlib.Sched.State.{Sched, at, incref, queue_job}
use psingthreadlib.Sched.Trigger.{Interp}
use psingthreadlib.Sched.Notify.{notify_one_job, notify_all}
use psingthreadlib.Sched.Safety.Kept.{
  Member, Member-mono, Members-mono, Apart, Goes, IsFree, Inv, Kept, Harmless, Goes-refl,
  IsFree-mono, ready→IsFree, Inv-Steady, Kept-refl, Kept-trans, at-Kept,
}

-- What the procedures of triggers do, and the other threads while such a procedure runs without the
-- lock: they may queue and start any job and chain triggers, and schedule the jobs of `Others`. They
-- keep the dependencies of a job that has a pool, or that a call on other jobs is scheduling, and a
-- job that is done or has a pool stays so. Calls of theirs that have begun are over at the end.
pub record Rely (interp : Interp) : Type 1 where
  pub Others : ℕ → Type 0
  pub keeps :
      (P : ℕ → Type 0) (name : Bytes) (args : List Value) (s : Sched)
      → Apart Others P
      → Inv P s
      → Kept P s (interp.execute_proc name args s).1

-- The call keeps the invariant if it returns.
abbrev pub KeptIf : (P : ℕ → Type 0) → Sched → Outcome Sched → Type 0
KeptIf P s r = (t : Sched) → r ≡ returns t → Kept P s t

pub Kept-same :
    (P : ℕ → Type 0) (s t : Sched)
    → Inv P s
    → t.jobs ≡ s.jobs
    → t.global_queue ≡ s.global_queue
    → Kept P s t
Kept-same P s t v jobs queue =
    Inv-Steady P s t v
      (λ k.
        subst (λ (a : Jobs). Goes (Member P s.jobs k) (s.jobs k) (a k)) (sym jobs)
          (Goes-refl (Member P s.jobs k) (s.jobs k)))
      queue
      (λ d. subst (λ (a : Jobs). All (Member P s.jobs) (a d).notify) (sym jobs) (v.dependents d))
      (λ d. subst (λ (a : Jobs). All (Member P s.jobs) (a d).triggers) (sym jobs) (v.chained d))

pub KeptIf-returns : (P : ℕ → Type 0) (s t : Sched) → Kept P s t → KeptIf P s (returns t)
KeptIf-returns P s t k u e = subst (Kept P s) (cc) k

pub KeptIf-bind :
    (P : ℕ → Type 0) (s : Sched) (r : Outcome Sched) (f : Sched → Outcome Sched)
    → KeptIf P s r
    → ((t : Sched) → Kept P s t → KeptIf P t (f t))
    → KeptIf P s (r >>= f)
KeptIf-bind P s r f h g u e =
    let (t, er, ef) = >>=-eq-returns r f e in let k = h t er in Kept-trans P s t u k (g t k u ef)

pub queue_job-Kept :
    (P : ℕ → Type 0) (j : ℕ) (s : Sched)
    → Inv P s
    → Member P s.jobs j
    → IsFree s.jobs j
    → Kept P s (queue_job j s)
unfolding queue_job
queue_job-Kept P j s v p free = record {
  inv = record {
    queued = All-append _ s.global_queue (j ∷ []) v.queued ((p, free), tt);
    dependents = v.dependents;
    chained = v.chained;
  };
  steady = λ k. Goes-refl (Member P s.jobs k) (s.jobs k);
}

queued-Harmless : Harmless (λ job. record job { queued = true })
queued-Harmless = record {
  deps = λ x. refl;
  done = λ x h. h;
  pool = λ x h. h;
  notify = λ x. refl;
  triggers = λ x. refl;
}

pub incref-Harmless : Harmless incref
incref-Harmless = record {
  deps = λ x. refl;
  done = λ x h. h;
  pool = λ x h. h;
  notify = λ x. refl;
  triggers = λ x. refl;
}

notify_one_job-Kept :
    (P : ℕ → Type 0) (next : ℕ) (s : Sched)
    → Inv P s
    → Member P s.jobs next
    → Kept P s (notify_one_job next s)
unfolding notify_one_job
notify_one_job-Kept P next s v p =
    elim (Bool-cases
      (not (s.jobs next).queued && ready s.jobs next && not (s.jobs next).cancelled)) [
        | inr e ↦ rw e (Kept-refl P s v)
        | inl e ↦ rw e (
            let s' = at next (λ job. record job { queued = true }) s in
            let k = at-Kept P (λ job. record job { queued = true }) next s queued-Harmless v in
            Kept-trans P s s' (queue_job next s') k (
              queue_job-Kept P next s' k.inv (Member-mono P s.jobs s'.jobs next k.steady p) (
                IsFree-mono P s.jobs s'.jobs next k.steady p
                  (ready→IsFree s.jobs next (ground arith)))))
      ]

pub notify_all-Kept :
    (P : ℕ → Type 0) (js : List ℕ) (s : Sched)
    → Inv P s
    → All (Member P s.jobs) js
    → Kept P s (notify_all js s)
unfolding notify_all
notify_all-Kept P [] s v h = Kept-refl P s v
notify_all-Kept P (next ∷ rest) s v h =
    let k = notify_one_job-Kept P next s v h.0 in
    Kept-trans P s (notify_one_job next s) (notify_all rest (notify_one_job next s)) k (
      notify_all-Kept P rest (notify_one_job next s) k.inv
        (Members-mono P s.jobs (notify_one_job next s).jobs rest k.steady h.1))
