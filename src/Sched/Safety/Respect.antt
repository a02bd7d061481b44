-- ===== src/Sched/Safety/Respect.antt =====
-- What a pool at work never does: run a job before what it waits for.
use psingthreadlib.Prelude.{
  ℕ, ◌≡◌, refl, inl, inr, true, Option, none, some, List, [], ◌∷◌, map, get_elem?, arith, ◌==◌,
  modify, All, All-append, length, Bool-cases, Option-cases, subst, sym,
}
use psingthreadlib.Prelude.Outcome.{returns}
use psingthreadlib.Value.{Value}
use psingthreadlib.Sched.Job.{Jobs, deps_done}
use psingthreadlib.Sched.Queue.{pop_top, top_of}
use psingthreadlib.Sched.Queue.Laws.{In, top_of-In}
use psingthreadlib.Sched.State.{Sched, at, attach_job, broadcast_job, incref_by}
use psingthreadlib.Sched.Trigger.{Interp}
use psingthreadlib.Sched.Worker.{
  runs, pick, pick_queue, pick_global, run_begin, run_end, store_result,
}
use psingthreadlib.Sched.Schedule.{start_job, push_args, set_prio, set_pool}
use psingthreadlib.Sched.Safety.Kept.{
  pooled, Member, Nobody, nobody, Kept, Harmless, Kept-trans, at-Kept, Inv-Steady, modify-Steady,
}
use psingthreadlib.Sched.Safety.Parts.{Rely, Kept-same}
use psingthreadlib.Sched.Safety.Triggers.{activate-Kept, notify_deps-Kept}
use psingthreadlib.Sched.Safety.Entering.{cancel_job-Kept}
use psingthreadlib.Sched.Safety.Adding.{IsSafe, Kept-IsSafe, set_prio-Harmless}
use psingthreadlib.Sched.Safety.Scheduling.{In-All, enter_jobs-IsSafe}
use psingthreadlib.Sched.Safety.Making.{at-IsSafe, attach_job-IsSafe}
use psingthreadlib.Sched.Safety.Steps.{
  chain, Step, Reach, adds_args, sets_prio, attaches, enters, cancels, begins, rests, ends, dropped,
  chains, broadcasts, activates, fires, notifies, notifies_dropped, waits, fresh, then_step,
}
use psingthreadlib.Sched.Safety.Workers.{
  result-Harmless, args-Harmless, run_begin-Kept, run_end-Kept, complete-Kept, pick-Kept,
}

start_job-eq :
    (interp : Interp) (j : ℕ) (arg : List Value) (s t : Sched)
    → start_job interp j arg s ≡ some t
    → attach_job j (at j (push_args (map interp.to_string arg)) s) ≡ t
unfolding start_job
start_job-eq interp j arg s t e = ground arith

pub start_job-IsSafe :
    (interp : Interp) (j : ℕ) (arg : List Value) (s t : Sched)
    → IsSafe s
    → start_job interp j arg s ≡ some t
    → IsSafe t
start_job-IsSafe interp j arg s t v e =
    let more = map interp.to_string arg in
    subst IsSafe (start_job-eq interp j arg s t e) (
      attach_job-IsSafe j (at j (push_args more) s)
        (at-IsSafe (push_args more) j s (args-Harmless more) v))

pub chain-IsSafe :
    (trigger j : ℕ) (s : Sched)
    → pooled (s.jobs trigger) ≡ true
    → IsSafe s
    → IsSafe (at j (chain trigger) s)
chain-IsSafe trigger j s p v = Kept-IsSafe s (at j (chain trigger) s) (
    Inv-Steady Nobody s (at j (chain trigger) s) v
      (modify-Steady Nobody (chain trigger) j s.jobs
        (λ C x. record { deps = λ c. refl; done = λ q. q; pool = λ q. q }))
      refl same more)
  where
    same : (k : ℕ) → All (Member Nobody s.jobs) (modify (chain trigger) j s.jobs k).notify
    same k = elim (Bool-cases (j == k)) [
      | inl e ↦ rw e (v.dependents k)
      | inr e ↦ rw e (v.dependents k)
    ]

    more : (k : ℕ) → All (Member Nobody s.jobs) (modify (chain trigger) j s.jobs k).triggers
    more k = elim (Bool-cases (j == k)) [
      | inl e ↦ rw e (
          All-append (Member Nobody s.jobs) (s.jobs k).triggers (trigger ∷ []) (v.chained k)
            (inl p, tt))
      | inr e ↦ rw e (v.chained k)
    ]

pub set_pool-Harmless : (p : ℕ) → Harmless (set_pool p)
set_pool-Harmless p = record {
  deps = λ x. refl;
  done = λ x h. h;
  pool = λ x h. refl;
  notify = λ x. refl;
  triggers = λ x. refl;
}

incref_by-Harmless : (n : ℕ) → Harmless (incref_by n)
incref_by-Harmless n = record {
  deps = λ x. refl;
  done = λ x h. h;
  pool = λ x h. h;
  notify = λ x. refl;
  triggers = λ x. refl;
}

pub broadcast_job-IsSafe :
    (j : ℕ) (s : Sched) → IsSafe s → IsSafe (broadcast_job j (at j (set_pool s.pool) s))
unfolding broadcast_job
broadcast_job-IsSafe j s v =
    let P = Nobody in
    let a = at j (set_pool s.pool) s in
    let f = incref_by (length s.thread_queues) in
    let b = at j f a in
    let ka = at-Kept P (set_pool s.pool) j s (set_pool-Harmless s.pool) v in
    let kb = at-Kept P f j a (incref_by-Harmless (length s.thread_queues)) ka.inv in
    Kept-IsSafe s (broadcast_job j a) (
      Kept-trans P s a (broadcast_job j a) ka (
        Kept-trans P a b (broadcast_job j a) kb
          (Kept-same P b (broadcast_job j a) kb.inv refl refl)))

-- A step keeps the invariant.
Step-IsSafe :
    (interp : Interp) (rely : Rely interp) {s t : Sched}
    → Step interp rely.Others s t
    → IsSafe s
    → IsSafe t
Step-IsSafe interp rely {s} (adds_args j more e) v =
    rw e (at-IsSafe (push_args more) j s (args-Harmless more) v)
Step-IsSafe interp rely {s} (sets_prio j prio e) v =
    rw e (at-IsSafe (set_prio prio) j s (set_prio-Harmless prio) v)
Step-IsSafe interp rely {s} (attaches j e) v = rw e (attach_job-IsSafe j s v)
Step-IsSafe interp rely {s} (enters jobs deps {t} unscheduled apart e) v =
    enter_jobs-IsSafe interp rely jobs deps s t v apart unscheduled e
Step-IsSafe interp rely {s} (chains trigger j {t} p e) v = rw e (chain-IsSafe trigger j s p v)
Step-IsSafe interp rely {s} (broadcasts j {t} e) v = rw e (broadcast_job-IsSafe j s v)
Step-IsSafe interp rely {s} (cancels j {t} e) v = Kept-IsSafe s t (cancel_job-Kept Nobody j s v t e)
Step-IsSafe interp rely {s} (begins until num j {t} {u} e e') v =
    let k = pick-Kept Nobody until num s v (runs j, t) e in
    Kept-IsSafe s u (
      subst (Kept Nobody s) (sym e')
        (Kept-trans Nobody s t (run_begin j t).1 k (run_begin-Kept Nobody j t k.inv)))
Step-IsSafe interp rely {s} (rests until num {p} {t} e) v =
    Kept-IsSafe s t (pick-Kept Nobody until num s v (p, t) e)
Step-IsSafe interp rely {s} (ends j result {t} p e) v =
    let P = Nobody in
    let a = at j (store_result result) s in
    let ka = at-Kept P (store_result result) j s (result-Harmless result) v in
    let kb = run_end-Kept P j a ka.inv in
    let kc = complete-Kept P interp rely j (run_end j a) (nobody rely.Others) kb.inv t e in
    Kept-IsSafe s t (Kept-trans P s a t ka (Kept-trans P a (run_end j a) t kb kc))
Step-IsSafe interp rely {s} (dropped j {t} p e) v =
    Kept-IsSafe s t (complete-Kept Nobody interp rely j s (nobody rely.Others) v t e)
Step-IsSafe interp rely {s} (activates j arg {t} e) v =
    Kept-IsSafe s t (activate-Kept interp rely Nobody j arg s (nobody rely.Others) v t e)
Step-IsSafe interp rely {s} (fires j {t} p e) v =
    rw e (Kept-IsSafe s (run_begin j s).1 (run_begin-Kept Nobody j s v))
Step-IsSafe interp rely {s} (notifies j result {t} p e) v =
    let P = Nobody in
    let a = at j (store_result result) s in
    let ka = at-Kept P (store_result result) j s (result-Harmless result) v in
    let kb = run_end-Kept P j a ka.inv in
    let kc = notify_deps-Kept interp rely P j (run_end j a) (nobody rely.Others) kb.inv t e in
    Kept-IsSafe s t (Kept-trans P s a t ka (Kept-trans P a (run_end j a) t kb kc))
Step-IsSafe interp rely {s} (notifies_dropped j {t} p e) v =
    Kept-IsSafe s t (notify_deps-Kept interp rely Nobody j s (nobody rely.Others) v t e)
Step-IsSafe interp rely {s} (waits c r down {t} e) v = rw e (
    Kept-IsSafe s (record s { cond = c; response = r; shutting_down = down })
      (Kept-same Nobody s (record s { cond = c; response = r; shutting_down = down }) v refl refl))

Reach-IsSafe :
    (interp : Interp) (rely : Rely interp) {s : Sched} → Reach interp rely.Others s → IsSafe s
Reach-IsSafe interp rely (fresh pool n allocated jobs no_notify no_triggers) = record {
  queued = tt;
  dependents = λ d. subst (All _) (sym (no_notify d)) tt;
  chained = λ d. subst (All _) (sym (no_triggers d)) tt;
}
Reach-IsSafe interp rely (then_step r st) = Step-IsSafe interp rely st (Reach-IsSafe interp rely r)

popped-In :
    (jobs : Jobs) (q : List ℕ) (j : ℕ) (rest : List ℕ) → pop_top jobs q ≡ some (j, rest) → In j q
unfolding pop_top
popped-In jobs [] j rest e = cc
popped-In jobs (x ∷ xs) j rest e =
    let same : top_of jobs x xs ≡ j = cc in subst (λ k. In k (x ∷ xs)) same (top_of-In jobs x xs)

popped :
    (s : Sched) (j : ℕ)
    → (pick_global s).0 ≡ runs j
    → (rest : List ℕ) × (pop_top s.jobs s.global_queue ≡ some (j, rest))
unfolding pick_global
popped s j e = elim (Option-cases (pop_top s.jobs s.global_queue)) [
  | inl none_left ↦ absurd (nothing none_left)
  | inr ((k, rest), ek) ↦ (rest, same k rest ek)
]
  where
    nothing : pop_top s.jobs s.global_queue ≡ none → ⊥
    nothing h = ground arith

    same :
        (k : ℕ) (rest : List ℕ)
        → pop_top s.jobs s.global_queue ≡ some (k, rest)
        → pop_top s.jobs s.global_queue ≡ some (j, rest)
    same k rest h = ground arith

picked :
    (s : Sched) (until : Option ℕ) (num j : ℕ) (t : Sched)
    → get_elem? s.thread_queues num ≡ some []
    → pick until num s ≡ returns (runs j, t)
    → (pick_global s).0 ≡ runs j
unfolding pick pick_queue
picked s until num j t h e = ground arith

-- If, while a proc trigger has released the lock, the procedure and the other threads leave only jobs
-- with a pool among the dependents and triggers of jobs, only such jobs without undone dependencies
-- in the global queue, jobs that are done or have a pool as such, and the dependencies of a job that
-- has a pool or is being scheduled as they are, the jobs that they schedule meanwhile set apart, then
-- in every state that a pool reaches from its creation, under every interleaving of workers and
-- calls, a job that a worker takes from the global queue has all its dependencies done. In these
-- interleavings `scheduleJob` enters jobs that are still in no pool once it has the lock, and none
-- of those that are scheduled while a proc trigger has released it.
pub dependencies_respected :
    (interp : Interp)
    → (rely : Rely interp) → {s t : Sched} (until : Option ℕ) (num j : ℕ)
    → Reach interp rely.Others s
    → get_elem? s.thread_queues num ≡ some []
    → pick until num s ≡ returns (runs j, t)
    → deps_done s.jobs (s.jobs j).deps ≡ true
dependencies_respected interp rely {s} {t} until num j r empty e =
    let (rest, popped_j) = popped s j (picked s until num j t empty e) in
    (In-All _ s.global_queue j (Reach-IsSafe interp rely r).queued
      (popped-In s.jobs s.global_queue j rest popped_j)).1
