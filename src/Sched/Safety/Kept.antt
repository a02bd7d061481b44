-- ===== src/Sched/Safety/Kept.antt =====
-- What every operation of the scheduler keeps, over a set `P` of jobs that may be queued.
use psingthreadlib.Prelude.{
  ℕ, ◌≡◌, refl, ◌⊎◌, ◌∙◌, inl, inr, Bool, true, List, [], ◌∷◌, arith, ◌==◌, modify, All, All-mono,
  Bool-cases, subst, sym,
}
use psingthreadlib.Sched.Job.{Job, Jobs, deps_done, ready}
use psingthreadlib.Sched.State.{Sched, at}
use psingthreadlib.Sched.Schedule.{has_pool}

abbrev pub pooled : Job → Bool
pooled job = has_pool job.pool

-- A job that goes on: it stays done, stays in a pool, and if `C` holds it
-- waits for the same jobs.
pub record Goes (C : Type 0) (x y : Job) : Type 0 where
  pub deps : C → y.deps ≡ x.deps
  pub done : x.done ≡ true → y.done ≡ true
  pub pool : pooled x ≡ true → pooled y ≡ true

-- The jobs that may be queued: those of a pool, and those of `P`, which a call is scheduling.
abbrev pub Member : (ℕ → Type 0) → Jobs → ℕ → Type 0
Member P a k = (pooled (a k) ≡ true) ⊎ P k

-- No job is being scheduled.
abbrev pub Nobody : ℕ → Type 0
Nobody k = ⊥

abbrev pub Steady : (ℕ → Type 0) → Jobs → Jobs → Type 0
Steady P a b = (k : ℕ) → Goes (Member P a k) (a k) (b k)

-- No job is both of `P` and of `Q`.
abbrev pub Apart : (ℕ → Type 0) → (ℕ → Type 0) → Type 0
Apart Q P = (k : ℕ) → P k → Q k → ⊥

pub nobody : (Q : ℕ → Type 0) → Apart Q Nobody
nobody Q k p = absurd p

pub Member-mono : (P : ℕ → Type 0) (a b : Jobs) (k : ℕ) → Steady P a b → Member P a k → Member P b k
Member-mono P a b k s (inl h) = inl ((s k).pool h)
Member-mono P a b k s (inr h) = inr h

pub Members-mono :
    (P : ℕ → Type 0) (a b : Jobs) (js : List ℕ)
    → Steady P a b
    → All (Member P a) js
    → All (Member P b) js
Members-mono P a b js s = All-mono (Member P a) (Member P b) js (λ k. Member-mono P a b k s)

-- All dependencies of the job are done.
abbrev pub IsFree : Jobs → ℕ → Type 0
IsFree jobs j = deps_done jobs (jobs j).deps ≡ true

pub record Inv (P : ℕ → Type 0) (s : Sched) : Type 0 where
  pub queued : All (λ j. Member P s.jobs j × IsFree s.jobs j) s.global_queue
  pub dependents : (d : ℕ) → All (Member P s.jobs) (s.jobs d).notify
  pub chained : (d : ℕ) → All (Member P s.jobs) (s.jobs d).triggers

pub record Kept (P : ℕ → Type 0) (s t : Sched) : Type 0 where
  pub inv : Inv P t
  pub steady : Steady P s.jobs t.jobs

pub Goes-refl : (C : Type 0) (x : Job) → Goes C x x
Goes-refl C x = record { deps = λ c. refl; done = λ h. h; pool = λ h. h }

pub deps_done_mono :
    (a b : Jobs) (ds : List ℕ)
    → ((k : ℕ) → (a k).done ≡ true → (b k).done ≡ true)
    → deps_done a ds ≡ true
    → deps_done b ds ≡ true
unfolding deps_done
deps_done_mono a b [] s h = refl
deps_done_mono a b (d ∷ ds) s h = ground (arith, s d, deps_done_mono a b ds s)

pub IsFree-mono :
    (P : ℕ → Type 0) (a b : Jobs) (j : ℕ) → Steady P a b → Member P a j → IsFree a j → IsFree b j
IsFree-mono P a b j s m h = rw ((s j).deps m) (deps_done_mono a b (a j).deps (λ k. (s k).done) h)

pub ready→IsFree : (jobs : Jobs) (j : ℕ) → ready jobs j ≡ true → IsFree jobs j
unfolding ready
ready→IsFree jobs j h = ground arith

-- A step that leaves the queue alone, and adds no dependents or chained triggers that may not be
-- queued.
pub Inv-Steady :
    (P : ℕ → Type 0) (s : Sched) (t : Sched)
    → Inv P s
    → Steady P s.jobs t.jobs
    → t.global_queue ≡ s.global_queue
    → ((d : ℕ) → All (Member P s.jobs) (t.jobs d).notify)
    → ((d : ℕ) → All (Member P s.jobs) (t.jobs d).triggers)
    → Kept P s t
Inv-Steady P s t v steady same n c = record {
  inv = record {
    queued = subst (All (λ j. Member P t.jobs j × IsFree t.jobs j)) (sym same) (
        All-mono _ _ s.global_queue
          (λ j h. (
            Member-mono P s.jobs t.jobs j steady h.0,
            IsFree-mono P s.jobs t.jobs j steady h.0 h.1,
          ))
          v.queued);
    dependents = λ d. Members-mono P s.jobs t.jobs (t.jobs d).notify steady (n d);
    chained = λ d. Members-mono P s.jobs t.jobs (t.jobs d).triggers steady (c d);
  };
  steady = steady;
}

pub Kept-refl : (P : ℕ → Type 0) (s : Sched) → Inv P s → Kept P s s
Kept-refl P s v = record { inv = v; steady = λ k. Goes-refl (Member P s.jobs k) (s.jobs k) }

pub Kept-trans : (P : ℕ → Type 0) (s t u : Sched) → Kept P s t → Kept P t u → Kept P s u
Kept-trans P s t u h k = record {
  inv = k.inv;
  steady = λ i. record {
    deps = λ m. (k.steady i).deps (Member-mono P s.jobs t.jobs i h.steady m) ∙ (h.steady i).deps m;
    done = λ d. (k.steady i).done ((h.steady i).done d);
    pool = λ d. (k.steady i).pool ((h.steady i).pool d);
  };
}

-- A change of one job that keeps all that the invariant reads.
pub record Harmless (f : Job → Job) : Type 0 where
  pub deps : (x : Job) → (f x).deps ≡ x.deps
  pub done : (x : Job) → x.done ≡ true → (f x).done ≡ true
  pub pool : (x : Job) → pooled x ≡ true → pooled (f x) ≡ true
  pub notify : (x : Job) → (f x).notify ≡ x.notify
  pub triggers : (x : Job) → (f x).triggers ≡ x.triggers

pub modify-Steady :
    (P : ℕ → Type 0) (f : Job → Job) (j : ℕ) (a : Jobs)
    → ((C : Type 0) (x : Job) → Goes C x (f x))
    → Steady P a (modify f j a)
modify-Steady P f j a h k = elim (Bool-cases (j == k)) [
  | inl e ↦ rw e (h (Member P a k) (a k))
  | inr e ↦ rw e (Goes-refl (Member P a k) (a k))
]

Harmless-Goes : (f : Job → Job) → Harmless f → (C : Type 0) (x : Job) → Goes C x (f x)
Harmless-Goes f h C x = record { deps = λ c. h.deps x; done = h.done x; pool = h.pool x }

modify-field :
    (P : ℕ → Type 0) (g : Job → List ℕ) (f : Job → Job) (j d : ℕ) (a : Jobs)
    → ((x : Job) → g (f x) ≡ g x)
    → All P (g (a d))
    → All P (g (modify f j a d))
modify-field P g f j d a same h = elim (Bool-cases (j == d)) [
  | inl e ↦ rw e (subst (All P) (sym (same (a d))) h)
  | inr e ↦ rw e h
]

pub at-Kept :
    (P : ℕ → Type 0) (f : Job → Job) (j : ℕ) (s : Sched)
    → Harmless f
    → Inv P s
    → Kept P s (at j f s)
at-Kept P f j s h v =
    Inv-Steady P s (at j f s) v (modify-Steady P f j s.jobs (Harmless-Goes f h)) refl
      (λ d. modify-field (Member P s.jobs) (λ x. x.notify) f j d s.jobs h.notify (v.dependents d))
      (λ d. modify-field (Member P s.jobs) (λ x. x.triggers) f j d s.jobs h.triggers (v.chained d))
