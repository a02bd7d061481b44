-- ===== src/Sched/Safety/Adding.antt =====
-- The checks and the new dependencies of `scheduleJob` keep the invariant of the queue.
use psingthreadlib.Prelude.{
  ℕ, ◌≡◌, refl, inl, inr, true, false, none, List, [], ◌∷◌, arith, ◌==◌, modify, All, All-mono,
  Bool-cases, ==_iff, subst, sym, ◌∙◌,
}
use psingthreadlib.Prelude.Int.{ℤ}
use psingthreadlib.Sched.Job.{Job, Jobs}
use psingthreadlib.Sched.Queue.Laws.{In}
use psingthreadlib.Sched.State.{Sched, at}
use psingthreadlib.Sched.Notify.{add_dep}
use psingthreadlib.Sched.Schedule.{has_pool, set_prio, check_jobs, add_deps}
use psingthreadlib.Sched.Safety.Kept.{
  pooled, Member, Nobody, IsFree, Inv, Kept, Harmless, deps_done_mono, Kept-refl, Kept-trans,
  at-Kept,
}

-- The job is in a pool.
abbrev pub Pooled : Sched → ℕ → Type 0
Pooled s k = pooled (s.jobs k) ≡ true

-- Every queued job is in a pool and waits for no job, and all dependents and triggers are in a pool.
abbrev pub IsSafe : Sched → Type 0
IsSafe s = Inv Nobody s

pub Inv-mono :
    (P Q : ℕ → Type 0) (s : Sched)
    → ((k : ℕ) → Member P s.jobs k → Member Q s.jobs k)
    → Inv P s
    → Inv Q s
Inv-mono P Q s f v = record {
  queued = All-mono _ _ s.global_queue (λ k h. (f k h.0, h.1)) v.queued;
  dependents =
      λ d. All-mono (Member P s.jobs) (Member Q s.jobs) (s.jobs d).notify f (v.dependents d);
  chained = λ d. All-mono (Member P s.jobs) (Member Q s.jobs) (s.jobs d).triggers f (v.chained d);
}

pub Kept-IsSafe : (s t : Sched) → Kept Nobody s t → IsSafe t
Kept-IsSafe s t k = k.inv

pub set_prio-Harmless : (p : ℤ) → Harmless (set_prio p)
set_prio-Harmless p = record {
  deps = λ x. refl;
  done = λ x h. h;
  pool = λ x h. h;
  notify = λ x. refl;
  triggers = λ x. refl;
}

pub set_prio-pooled :
    (p : ℤ) (j k : ℕ) (a : Jobs) → pooled (modify (set_prio p) j a k) ≡ pooled (a k)
set_prio-pooled p j k a = elim (Bool-cases (j == k)) [ inl e ↦ rw e | inr e ↦ rw e ]

pub check_jobs-Kept :
    (P : ℕ → Type 0) (prio : ℤ) (js : List ℕ) (s : Sched)
    → Inv P s
    → Kept P s (check_jobs prio js s).1
unfolding check_jobs
check_jobs-Kept P prio [] s v = Kept-refl P s v
check_jobs-Kept P prio (j ∷ js) s v = elim (Bool-cases (has_pool (s.jobs j).pool)) [
  | inl e ↦ rw e (Kept-refl P s v)
  | inr e ↦
      let s' = at j (set_prio prio) s in
      let k = at-Kept P (set_prio prio) j s (set_prio-Harmless prio) v in
      rw e (Kept-trans P s s' (check_jobs prio js s').1 k (check_jobs-Kept P prio js s' k.inv))
]

pub check_jobs-pooled :
    (prio : ℤ) (js : List ℕ) (s : Sched) (k : ℕ)
    → pooled ((check_jobs prio js s).1.jobs k) ≡ pooled (s.jobs k)
unfolding check_jobs
check_jobs-pooled prio [] s k = refl
check_jobs-pooled prio (j ∷ js) s k = elim (Bool-cases (has_pool (s.jobs j).pool)) [
  | inl e ↦ rw e
  | inr e ↦
      rw e (check_jobs-pooled prio js (at j (set_prio prio) s) k ∙ set_prio-pooled prio j k s.jobs)
]

-- Jobs that pass the check are in no pool.
pub check_jobs-fresh :
    (prio : ℤ) (js : List ℕ) (s : Sched)
    → (check_jobs prio js s).0 ≡ none
    → (k : ℕ) → In k js
    → pooled (s.jobs k) ≡ false
unfolding check_jobs
check_jobs-fresh prio [] s e k i = absurd i
check_jobs-fresh prio (j ∷ js) s e k i = elim (Bool-cases (has_pool (s.jobs j).pool)) [
  | inl p ↦ absurd (refused p e)
  | inr p ↦ go p i (check_jobs-fresh prio js (at j (set_prio prio) s) (later p) k)
]
  where
    refused : has_pool (s.jobs j).pool ≡ true → (check_jobs prio (j ∷ js) s).0 ≡ none → ⊥
    refused p q = ground arith

    later :
        has_pool (s.jobs j).pool ≡ false → (check_jobs prio js (at j (set_prio prio) s)).0 ≡ none
    later p = ground arith

    go :
        has_pool (s.jobs j).pool ≡ false
        → In k (j ∷ js)
        → (In k js → pooled (modify (set_prio prio) j s.jobs k) ≡ false)
        → pooled (s.jobs k) ≡ false
    go p (inl same) later_fresh = rw same p
    go p (inr rest) later_fresh = sym (set_prio-pooled prio j k s.jobs) ∙ later_fresh rest

-- What `addDep` does to a job: its dependencies grow, and only if it is one of `js`.
pub record Extended (js : List ℕ) (k : ℕ) (x y : Job) : Type 0 where
  same : y ≡ record x { deps = y.deps }
  others : (In k js → ⊥) → y.deps ≡ x.deps

pub add_dep-Extended :
    (j k : ℕ) (js deps : List ℕ) (a : Jobs)
    → Extended (j ∷ js) k (a k) (modify (add_dep deps) j a k)
add_dep-Extended j k js deps a = elim (Bool-cases (j == k)) [
  | inl e ↦
      rw e (record { same = refl; others = λ out. absurd (out (inl (sym ((==_iff j k).0 e)))) })
  | inr e ↦ rw e (record { same = refl; others = λ out. refl })
]

pub Extended-trans :
    (js : List ℕ) (j k : ℕ) (x y z : Job)
    → Extended (j ∷ js) k x y
    → Extended js k y z
    → Extended (j ∷ js) k x z
Extended-trans js j k x y z h h' = record {
  same = fields x y z h.same h'.same;
  others = λ out. h'.others (λ i. out (inr i)) ∙ h.others out;
}
  where
    fields :
        (u v w : Job)
        → v ≡ record u { deps = v.deps }
        → w ≡ record v { deps = w.deps }
        → w ≡ record u { deps = w.deps }
    fields u v w p q = ground arith

pub add_deps-Extended :
    (js deps : List ℕ) (s : Sched) (k : ℕ) → Extended js k (s.jobs k) ((add_deps js deps s).jobs k)
unfolding add_deps
add_deps-Extended [] deps s k = record { same = refl; others = λ out. refl }
add_deps-Extended (j ∷ js) deps s k =
    let s' = at j (add_dep deps) s in
    Extended-trans js j k (s.jobs k) (s'.jobs k) ((add_deps js deps s').jobs k)
      (add_dep-Extended j k js deps s.jobs) (add_deps-Extended js deps s' k)

pub add_deps-queue :
    (js deps : List ℕ) (s : Sched) → (add_deps js deps s).global_queue ≡ s.global_queue
unfolding add_deps
add_deps-queue [] deps s = refl
add_deps-queue (j ∷ js) deps s = add_deps-queue js deps (at j (add_dep deps) s)

pub Extended-fields :
    (js : List ℕ) (k : ℕ) (x y : Job)
    → Extended js k x y
    → (x.done ≡ true → y.done ≡ true)
      × (pooled x ≡ true → pooled y ≡ true)
      × (y.notify ≡ x.notify)
      × (y.triggers ≡ x.triggers)
Extended-fields js k x y h = let same = h.same in ground (arith, same)

-- New dependencies of jobs that no queue holds.
pub add_deps-Inv :
    (js deps : List ℕ) (s : Sched)
    → IsSafe s
    → ((k : ℕ) → In k js → pooled (s.jobs k) ≡ false)
    → Inv (λ k. In k js) (add_deps js deps s)
add_deps-Inv js deps s v fresh =
    let t = add_deps js deps s in
    let Q = Member (λ k. In k js) t.jobs in
    let f = λ (k : ℕ). Extended-fields js k (s.jobs k) (t.jobs k) (add_deps-Extended js deps s k) in
    record {
      queued =
          subst (All (λ j. Q j × IsFree t.jobs j)) (sym (add_deps-queue js deps s)) (
            All-mono _ _ s.global_queue (λ j h. (stays j h.0, free j (in_pool j h.0) h.1))
              v.queued);
      dependents = λ d.
          subst (All Q) (sym (f d).2)
            (All-mono (Member Nobody s.jobs) Q (s.jobs d).notify stays (v.dependents d));
      chained = λ d.
          subst (All Q) (sym (f d).3)
            (All-mono (Member Nobody s.jobs) Q (s.jobs d).triggers stays (v.chained d));
    }
  where
    in_pool : (j : ℕ) → Member Nobody s.jobs j → Pooled s j
    in_pool j (inl h) = h
    in_pool j (inr h) = absurd h

    stays : (j : ℕ) → Member Nobody s.jobs j → Member (λ k. In k js) (add_deps js deps s).jobs j
    stays j h = inl (
        (Extended-fields js j (s.jobs j) ((add_deps js deps s).jobs j)
            (add_deps-Extended js deps s j)).1
          (in_pool j h))

    free : (j : ℕ) → Pooled s j → IsFree s.jobs j → IsFree (add_deps js deps s).jobs j
    free j p h =
        let x = add_deps-Extended js deps s j in
        rw (x.others (λ i. clash p (fresh j i))) (
          deps_done_mono s.jobs (add_deps js deps s).jobs (s.jobs j).deps
            (λ k.
              (Extended-fields js k (s.jobs k) ((add_deps js deps s).jobs k)
                (add_deps-Extended js deps s k)).0)
            h)
      where
        clash : pooled (s.jobs j) ≡ true → pooled (s.jobs j) ≡ false → ⊥
        clash a b = cc
