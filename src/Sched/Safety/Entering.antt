-- ===== src/Sched/Safety/Entering.antt =====
-- `addNotify`, `attachJob`, `cancelJob` and the loops of `scheduleJob` keep the invariant.
use psingthreadlib.Prelude.{
  ℕ, ◌+◌, ◌≡◌, refl, inl, inr, Bool, true, false, some, List, [], ◌∷◌, arith, ◌==◌, modify, All,
  All-append, Bool-cases, subst, sym, length,
}
use psingthreadlib.Prelude.Outcome.{returns, >>=-eq-returns}
use psingthreadlib.Sched.Job.{Job, ready}
use psingthreadlib.Sched.State.{Sched, at, queue_job, attach_job, enrol, add_pending, is_none}
use psingthreadlib.Sched.Cancel.{cancel_job}
use psingthreadlib.Sched.Cancel.Raised.{Raised}
use psingthreadlib.Sched.Cancel.Spreads.{cancel_job-Spread}
use psingthreadlib.Sched.Trigger.{Interp}
use psingthreadlib.Sched.Notify.{add_notify, add_notify_list}
use psingthreadlib.Sched.Schedule.{set_pool, enter_one, enter_all}
use psingthreadlib.Sched.Safety.Kept.{
  pooled, Apart, Member, Nobody, Goes, Inv, Kept, Harmless, ready→IsFree, Inv-Steady, Kept-refl,
  Kept-trans, modify-Steady, at-Kept,
}
use psingthreadlib.Sched.Safety.Parts.{
  Rely, KeptIf, Kept-same, KeptIf-returns, KeptIf-bind, queue_job-Kept,
}
use psingthreadlib.Sched.Safety.Triggers.{notify_deps-Kept}

attached : (j : ℕ) (s : Sched) → pooled (modify (enrol s) j s.jobs j) ≡ true
attached j s = ground arith

Raised-fields :
    (x y : Job)
    → Raised x y
    → (y.deps ≡ x.deps)
      × (y.notify ≡ x.notify)
      × (y.triggers ≡ x.triggers)
      × (x.done ≡ true → y.done ≡ true)
      × (pooled x ≡ true → pooled y ≡ true)
Raised-fields x y r = ground arith

module _ (P : ℕ → Type 0) where
  add_notify_list-Kept :
      (d : ℕ) (js : List ℕ) (s : Sched)
      → All (Member P s.jobs) js
      → Inv P s
      → Kept P s (at d (add_notify_list js) s)
  add_notify_list-Kept d js s h v =
      Inv-Steady P s (at d (add_notify_list js) s) v
        (modify-Steady P (add_notify_list js) d s.jobs
          (λ C x. record { deps = λ c. refl; done = λ q. q; pool = λ q. q }))
        refl more (λ k. modify_chained k)
    where
      more : (k : ℕ) → All (Member P s.jobs) (modify (add_notify_list js) d s.jobs k).notify
      more k = elim (Bool-cases (d == k)) [
        | inl e ↦ rw e (All-append (Member P s.jobs) (s.jobs k).notify js (v.dependents k) h)
        | inr e ↦ rw e (v.dependents k)
      ]

      modify_chained :
          (k : ℕ) → All (Member P s.jobs) (modify (add_notify_list js) d s.jobs k).triggers
      modify_chained k = elim (Bool-cases (d == k)) [
        | inl e ↦ rw e (v.chained k)
        | inr e ↦ rw e (v.chained k)
      ]

  pub add_notify-Kept :
      (interp : Interp)
      → (rely : Rely interp) → (d : ℕ) (js : List ℕ) (s : Sched) → All (Member P s.jobs) js
      → Apart rely.Others P
      → Inv P s
      → KeptIf P s (add_notify interp d js s)
  unfolding add_notify
  add_notify-Kept interp rely d js s h all v =
      let s' = at d (add_notify_list js) s in
      let k = add_notify_list-Kept d js s h v in
      elim (Bool-cases ((s'.jobs d).done)) [
        | inl e ↦
            rw e (λ t q. Kept-trans P s s' t k (notify_deps-Kept interp rely P d s' all k.inv t q))
        | inr e ↦ rw e (KeptIf-returns P s s' k)
      ]

  enrol-Harmless : (s : Sched) → Harmless (enrol s)
  enrol-Harmless s = record {
    deps = λ x. refl;
    done = λ x h. h;
    pool = λ x h. refl;
    notify = λ x. refl;
    triggers = λ x. refl;
  }

  add_pending-Kept : (j : ℕ) (s : Sched) → Inv P s → Kept P s (add_pending j s)
  add_pending-Kept j s v =
      let f : Job → Job = λ job. record job { pending_index = some (length s.pending) } in
      let k =
        at-Kept P f j s
          (record {
            deps = λ x. refl;
            done = λ x h. h;
            pool = λ x h. h;
            notify = λ x. refl;
            triggers = λ x. refl;
          })
          v in
      Kept-trans P s (at j f s) (add_pending j s) k
        (Kept-same P (at j f s) (add_pending j s) k.inv refl refl)

  pub attach_job-Kept : (j : ℕ) (s : Sched) → Inv P s → Kept P s (attach_job j s)
  unfolding attach_job
  attach_job-Kept j s v =
      let a = at j (enrol s) s in
      let b = record a { jobid = s.jobid + 1 } in
      let ka = at-Kept P (enrol s) j s (enrol-Harmless s) v in
      let kb = Kept-trans P s a b ka (Kept-same P a b ka.inv refl refl) in
      elim (Bool-cases (ready b.jobs j)) [
        | inl e ↦ rw e (
            Kept-trans P s b (queue_job j b) kb
              (queue_job-Kept P j b kb.inv (inl (attached j s)) (ready→IsFree b.jobs j e)))
        | inr e ↦ elim (Bool-cases (is_none ((b.jobs j).pending_index))) [
          | inl e' ↦
              rw (e, e') (Kept-trans P s b (add_pending j b) kb (add_pending-Kept j b kb.inv))
          | inr e' ↦ rw (e, e') kb
        ]
      ]

  Raised-Goes :
      (C : Type 0) (x y : Job)
      → Raised x y
      → Goes C x y × (y.notify ≡ x.notify) × (y.triggers ≡ x.triggers)
  Raised-Goes C x y r =
      let (a, b, c, d, e) = Raised-fields x y r in
      (record { deps = λ m. a; done = d; pool = e }, b, c)

  pub cancel_job-Kept : (j : ℕ) (s : Sched) → Inv P s → KeptIf P s (cancel_job j s)
  cancel_job-Kept j s v t e =
      let (jobs, same, spread) = cancel_job-Spread j s t e in
      let u = record s { jobs = jobs } in
      let goes = λ (k : ℕ). Raised-Goes (Member P s.jobs k) (s.jobs k) (jobs k) (spread k) in
      subst (Kept P s) (sym same) (
        Inv-Steady P s u v (λ k. (goes k).0) refl
          (λ d. subst (All (Member P s.jobs)) (sym (goes d).1) (v.dependents d))
          (λ d. subst (All (Member P s.jobs)) (sym (goes d).2) (v.chained d)))

  set_pool-Harmless : (p : ℕ) → Harmless (set_pool p)
  set_pool-Harmless p = record {
    deps = λ x. refl;
    done = λ x h. h;
    pool = λ x h. refl;
    notify = λ x. refl;
    triggers = λ x. refl;
  }

  enter_one-Kept :
      (cancelled : Bool) (j : ℕ) (s : Sched) → Inv P s → KeptIf P s (enter_one cancelled j s)
  unfolding enter_one
  enter_one-Kept true j s v t e =
      let a = at j (set_pool s.pool) s in
      let k = at-Kept P (set_pool s.pool) j s (set_pool-Harmless s.pool) v in
      Kept-trans P s a t k (cancel_job-Kept j a k.inv t e)
  enter_one-Kept false j s v t e = KeptIf-returns P s (attach_job j s) (attach_job-Kept j s v) t e

  pub enter_all-Kept :
      (cancelled : Bool) (js : List ℕ) (s : Sched) → Inv P s → KeptIf P s (enter_all cancelled js s)
  unfolding enter_all
  enter_all-Kept cancelled [] s v = KeptIf-returns P s s (Kept-refl P s v)
  enter_all-Kept cancelled (j ∷ js) s v =
      KeptIf-bind P s (enter_one cancelled j s) (enter_all cancelled js)
        (enter_one-Kept cancelled j s v) (λ t w. enter_all-Kept cancelled js t w.inv)

-- Every job that enters has a pool from then on.
pub attach_job-pooled : (j : ℕ) (s : Sched) → pooled ((attach_job j s).jobs j) ≡ true
unfolding attach_job queue_job
attach_job-pooled j s = ground arith

enter_one-pooled :
    (cancelled : Bool) (j : ℕ) (s t : Sched)
    → enter_one cancelled j s ≡ returns t
    → pooled (t.jobs j) ≡ true
unfolding enter_one
enter_one-pooled false j s t e =
    subst (λ (u : Sched). pooled (u.jobs j) ≡ true) (returned e) (attach_job-pooled j s)
  where
    returned : returns (attach_job j s) ≡ returns t → attach_job j s ≡ t
    returned h = cc
enter_one-pooled true j s t e =
    let a = at j (set_pool s.pool) s in
    let (jobs, same, spread) = cancel_job-Spread j a t e in
    subst (λ (u : Sched). pooled (u.jobs j) ≡ true) (sym same)
      ((Raised-Goes Nobody Unit (a.jobs j) (jobs j) (spread j)).0.pool (ground arith))

pub enter_all-pooled :
    (P : ℕ → Type 0) (cancelled : Bool) (js : List ℕ) (s t : Sched)
    → Inv P s
    → enter_all cancelled js s ≡ returns t
    → All (λ j. pooled (t.jobs j) ≡ true) js
unfolding enter_all
enter_all-pooled P cancelled [] s t v e = tt
enter_all-pooled P cancelled (j ∷ js) s t v e =
    let (u, eu, et) = >>=-eq-returns (enter_one cancelled j s) (enter_all cancelled js) e in
    let ku = enter_one-Kept P cancelled j s v u eu in
    let kt = enter_all-Kept P cancelled js u ku.inv t et in
    (
      (kt.steady j).pool (enter_one-pooled cancelled j s u eu),
      enter_all-pooled P cancelled js u t ku.inv et,
    )
