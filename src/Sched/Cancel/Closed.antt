-- ===== src/Sched/Cancel/Closed.antt =====
-- `cancelJob` ends, and what it cancels is closed under the jobs that wait for what it cancels.
use psingthreadlib.Prelude.{
  ℕ, zero, suc, ◌<◌, ◌≤◌, ◌≡◌, refl, inl, inr, true, false, not, ◌&&◌, Option, some, List, [], ◌∷◌,
  arith, ◌==◌, modify, All, Bool-cases, ==_iff, subst, sym, ap, ◌∙◌,
}
use psingthreadlib.Prelude.Outcome.{returns}
use psingthreadlib.Sched.Job.{Job, Jobs}
use psingthreadlib.Sched.State.{Sched}
use psingthreadlib.Sched.Cancel.{cancel_deps, cancel_jobs, cancel_job, mark_cancelled, mark_dropped}
use psingthreadlib.Sched.Cancel.Raised.{
  Raised, Spread, AllCancelled, Closed, Raised-refl, Raised-trans, AllCancelled-mono, live,
  live-Spread, live-dropped, Bounded, Bounded-Spread,
}

-- What a call that cancels `js` in `a` gives.
pub record Cancels (js : List ℕ) (a b : Jobs) : Type 0 where
  pub spread : Spread a b
  pub closed : Closed a b
  pub all : AllCancelled b js

abbrev pub Gives : List ℕ → Jobs → Option Jobs → Type 0
Gives js a r = (b : Jobs) × (r ≡ some b) × Cancels js a b

-- Of a job that stays live all that matters stays.
pub Raised-keeps :
    (x y : Job)
    → Raised x y
    → y.cancelled ≡ false
    → (x.notify ≡ y.notify) × (x.running ≡ y.running) × (x.done ≡ false → y.done ≡ false)
Raised-keeps x y r h = ground arith

pub Closed-trans : (a b c : Jobs) → Spread a b → Spread b c → Closed a b → Closed b c → Closed a c
Closed-trans a b c s t p q k live_a dead_c idle undone = elim (Bool-cases (b k).cancelled) [
  | inl dead_b ↦ AllCancelled-mono b c _ t (p k live_a dead_b idle undone)
  | inr live_b ↦
      let (notify, running, done) = Raised-keeps (a k) (b k) (s k) live_b in
      subst (AllCancelled c) (sym notify) (q k live_b dead_c (sym running ∙ idle) (done undone))
]

pub Cancels-nothing : (a : Jobs) → Cancels [] a a
Cancels-nothing a = record { spread = λ k. Raised-refl (a k); closed = λ k h h' p q. cc; all = tt }

pub cancel_deps-dead :
    (call : ℕ → Jobs → Option Jobs) (next : ℕ) (rest : List ℕ) (a : Jobs)
    → (a next).cancelled ≡ true
    → cancel_deps call (next ∷ rest) a ≡ cancel_deps call rest a
unfolding cancel_deps
cancel_deps-dead call next rest a h = ground arith

pub cancel_deps-live :
    (call : ℕ → Jobs → Option Jobs) (next : ℕ) (rest : List ℕ) (a b : Jobs)
    → (a next).cancelled ≡ false
    → call next a ≡ some b
    → cancel_deps call (next ∷ rest) a ≡ cancel_deps call rest b
unfolding cancel_deps
cancel_deps-live call next rest a b h e = ground arith

module _ (n fuel : ℕ) (call : ℕ → Jobs → Option Jobs)
    (spec : (m : ℕ) (x : Jobs)
      → m < n
      → Bounded n x
      → live n x < fuel
      → Gives (m ∷ []) x (call m x)) where
  pub loop-Gives :
      (js : List ℕ) (a : Jobs)
      → All (λ m. m < n) js
      → Bounded n a
      → live n a < fuel
      → Gives js a (cancel_deps call js a)
  loop-Gives [] a h bounded few = (a, unfold cancel_deps in refl, Cancels-nothing a)
  loop-Gives (next ∷ rest) a h bounded few = elim (Bool-cases (a next).cancelled) [
    | inl dead ↦
        let (b, e, c) = loop-Gives rest a h.1 bounded few in
        (
          b,
          cancel_deps-dead call next rest a dead ∙ e,
          record { spread = c.spread; closed = c.closed; all = ((c.spread next).up dead, c.all) },
        )
    | inr alive ↦
        let (b, e, c) = spec next a h.0 bounded few in
        let fewer : live n b < fuel = omega (arith, live-Spread n a b c.spread) in
        let (d, e', c') = loop-Gives rest b h.1 (Bounded-Spread n a b c.spread bounded) fewer in
        (
          d,
          cancel_deps-live call next rest a b alive e ∙ e',
          record {
            spread = λ k. Raised-trans (a k) (b k) (d k) (c.spread k) (c'.spread k);
            closed = Closed-trans a b d c.spread c'.spread c.closed c'.closed;
            all = ((c'.spread next).up c.all.0, c'.all);
          },
        )
  ]

pub dropped-Raised :
    (j k : ℕ) (a : Jobs) → (a j).cancelled ≡ false → Raised (a k) (modify mark_dropped j a k)
dropped-Raised j k a h = ground arith

pub cancelled-Raised : (j k : ℕ) (a : Jobs) → Raised (a k) (modify mark_cancelled j a k)
cancelled-Raised j k a = ground arith

pub Gives-cancelled : (j : ℕ) (a : Jobs) → (a j).cancelled ≡ true → Cancels (j ∷ []) a a
Gives-cancelled j a h = record {
  spread = λ k. Raised-refl (a k);
  closed = λ k h h' p q. cc;
  all = (h, tt);
}

-- A job that runs or is done is only marked.
pub Gives-marked :
    (j : ℕ) (a : Jobs)
    → (not (a j).running && not (a j).done) ≡ false
    → Cancels (j ∷ []) a (modify mark_cancelled j a)
Gives-marked j a busy = record {
  spread = λ k. cancelled-Raised j k a;
  closed = λ k h h' p q. absurd (marked k h h' p q);
  all = (ground arith, tt);
}
  where
    marked :
        (k : ℕ)
        → (a k).cancelled ≡ false
        → (modify mark_cancelled j a k).cancelled ≡ true
        → (a k).running ≡ false
        → (a k).done ≡ false
        → ⊥
    marked k h h' p q = ground (arith, ==_iff j k)

pub modify-ne : (j k : ℕ) (a : Jobs) → (j == k) ≡ false → modify mark_dropped j a k ≡ a k
modify-ne j k a e = rw e

pub Gives-dropped :
    (j : ℕ) (a b : Jobs)
    → (a j).cancelled ≡ false
    → Cancels (a j).notify (modify mark_dropped j a) b
    → Cancels (j ∷ []) a b
Gives-dropped j a b alive c = record {
  spread = λ k.
      Raised-trans (a k) (modify mark_dropped j a k) (b k) (dropped-Raised j k a alive)
        (c.spread k);
  closed = λ k h h' p q. elim (Bool-cases (j == k)) [
    | inl e ↦ subst (λ m. AllCancelled b (a m).notify) ((==_iff j k).0 e) c.all
    | inr e ↦
        let same = modify-ne j k a e in
        subst (λ (x : Job). AllCancelled b x.notify) same
          (c.closed k (ap (λ (x : Job). x.cancelled) same ∙ h) h'
            (ap (λ (x : Job). x.running) same ∙ p) (ap (λ (x : Job). x.done) same ∙ q))
  ];
  all = ((c.spread j).up (ground arith), tt);
}

pub cancel-Gives :
    (n fuel j : ℕ) (a : Jobs)
    → j < n
    → Bounded n a
    → live n a < fuel
    → Gives (j ∷ []) a (cancel_jobs fuel j a)
unfolding cancel_jobs
cancel-Gives n zero j a h bounded few = absurd (omega arith)
cancel-Gives n (suc fuel) j a h bounded few = elim (Bool-cases (a j).cancelled) [
  | inl dead ↦ (a, rw dead, Gives-cancelled j a dead)
  | inr alive ↦ elim (Bool-cases (not (a j).running && not (a j).done)) [
    | inr busy ↦ (modify mark_cancelled j a, rw (alive, busy), Gives-marked j a busy)
    | inl idle ↦
        let a' = modify mark_dropped j a in
        let (b, e, c) =
          loop-Gives n fuel (cancel_jobs fuel) (cancel-Gives n fuel) (a j).notify a' (bounded j)
            (Bounded-Spread n a a' (λ k. dropped-Raised j k a alive) bounded)
            (omega (arith, live-dropped n j a h alive)) in
        (b, rw (alive, idle) e, Gives-dropped j a b alive c)
  ]
]

pub live-le : (n : ℕ) (a : Jobs) → live n a ≤ n
unfolding live
live-le zero a = omega arith
live-le (suc n) a = ground (arith, live-le n a)

pub cancel_job-some :
    (j : ℕ) (s : Sched) (jobs : Jobs)
    → cancel_jobs (suc s.allocated) j s.jobs ≡ some jobs
    → cancel_job j s ≡ returns (record s { jobs = jobs })
unfolding cancel_job
cancel_job-some j s jobs e = ground arith

-- If the job and all dependents of jobs have been allocated, `cancelJob` ends. It changes nothing
-- but the flags `cancelled` and `done` of jobs, which only rise; the job is cancelled; and of each
-- job that it cancelled and that had neither begun nor finished, all dependents are cancelled.
pub cancel_job-Closed :
    (j : ℕ) (s : Sched)
    → j < s.allocated
    → Bounded s.allocated s.jobs
    → (jobs : Jobs) × (cancel_job j s ≡ returns (record s { jobs = jobs }))
      × Spread s.jobs jobs
      × Closed s.jobs jobs
      × ((jobs j).cancelled ≡ true)
cancel_job-Closed j s h bounded =
    let few : live s.allocated s.jobs < suc s.allocated =
      omega (arith, live-le s.allocated s.jobs) in
    let (jobs, e, c) = cancel-Gives s.allocated (suc s.allocated) j s.jobs h bounded few in
    (jobs, cancel_job-some j s jobs e, c.spread, c.closed, c.all.0)
