-- ===== src/Sched/Safety/Scheduling.antt =====
-- `scheduleJob` keeps the invariant of a state in which all queued jobs are in a pool.
use psingthreadlib.Prelude.{ℕ, ◌≡◌, refl, inl, inr, Bool, false, ◌||◌, List, [], ◌∷◌, All, subst}
use psingthreadlib.Prelude.Outcome.{returns, >>=-eq-returns}
use psingthreadlib.Sched.Queue.Laws.{In}
use psingthreadlib.Sched.State.{Sched}
use psingthreadlib.Sched.Trigger.{Interp}
use psingthreadlib.Sched.Notify.{add_notify}
use psingthreadlib.Sched.Schedule.{add_deps, notify_loop, enter_jobs}
use psingthreadlib.Sched.Safety.Kept.{
  pooled, Apart, Member, Members-mono, Nobody, Inv, Kept, Kept-refl, Kept-trans,
}
use psingthreadlib.Sched.Safety.Parts.{Rely}
use psingthreadlib.Sched.Safety.Entering.{add_notify-Kept, enter_all-Kept, enter_all-pooled}
use psingthreadlib.Sched.Safety.Adding.{Pooled, IsSafe, Inv-mono, add_deps-Inv}

notify_loop-Kept :
    (P : ℕ → Type 0) (interp : Interp)
    → (rely : Rely interp) → (jobs ds : List ℕ) (c : Bool) (s : Sched) → All (Member P s.jobs) jobs
    → Apart rely.Others P
    → Inv P s
    → (r : Bool × Sched) → notify_loop interp jobs ds c s ≡ returns r
    → Kept P s r.1
unfolding notify_loop
notify_loop-Kept P interp rely jobs [] c s h all v r e =
    let same : ◌≡◌ {A = Bool × Sched} (c, s) r = cc in
    subst (λ (x : Bool × Sched). Kept P s x.1) same (Kept-refl P s v)
notify_loop-Kept P interp rely jobs (d ∷ ds) c s h all v r e =
    let (t, et, er) = >>=-eq-returns (add_notify interp d jobs s) _ e in
    let k = add_notify-Kept P interp rely d jobs s h all v t et in
    Kept-trans P s t r.1 k (
      notify_loop-Kept P interp rely jobs ds (c || (t.jobs d).cancelled) t
        (Members-mono P s.jobs t.jobs jobs k.steady h) all k.inv r er)

All-In : (P : ℕ → Type 0) (js : List ℕ) → ((k : ℕ) → In k js → P k) → All P js
All-In P [] f = tt
All-In P (j ∷ js) f = (f j (inl refl), All-In P js (λ k i. f k (inr i)))

pub In-All : (P : ℕ → Type 0) (js : List ℕ) (k : ℕ) → All P js → In k js → P k
In-All P [] k h i = absurd i
In-All P (j ∷ js) k h (inl e) = rw e h.0
In-All P (j ∷ js) k h (inr i) = In-All P js k h.1 i

pub enter_jobs-IsSafe :
    (interp : Interp)
    → (rely : Rely interp) → (jobs deps : List ℕ) (s t : Sched) → IsSafe s
    → Apart rely.Others (λ k. In k jobs)
    → ((k : ℕ) → In k jobs → pooled (s.jobs k) ≡ false)
    → enter_jobs interp jobs deps s ≡ returns t
    → IsSafe t
unfolding enter_jobs
enter_jobs-IsSafe interp rely jobs deps s t v apart fresh e =
    let P = λ (k : ℕ). In k jobs in
    let a = add_deps jobs deps s in
    let va = add_deps-Inv jobs deps s v fresh in
    let all_in = All-In (Member P a.jobs) jobs (λ k i. inr i) in
    let (r, er, et) = >>=-eq-returns (notify_loop interp jobs deps false a) _ e in
    let kr = notify_loop-Kept P interp rely jobs deps false a all_in apart va r er in
    let kt = enter_all-Kept P r.0 jobs r.1 kr.inv t et in
    let entered = enter_all-pooled P r.0 jobs r.1 t kr.inv et in
    Inv-mono P Nobody t (pool_now entered) kt.inv
  where
    pool_now :
        All (Pooled t) jobs → (k : ℕ) → Member (λ k. In k jobs) t.jobs k → Member Nobody t.jobs k
    pool_now entered k (inl h) = inl h
    pool_now entered k (inr i) = inl (In-All (Pooled t) jobs k entered i)
