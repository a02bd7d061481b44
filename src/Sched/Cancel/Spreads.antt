-- ===== src/Sched/Cancel/Spreads.antt =====
-- Every call of `cancelJob` that returns changes only flags of jobs.
use psingthreadlib.Prelude.{
  ℕ, zero, suc, ◌≡◌, refl, inl, inr, true, false, not, ◌&&◌, Option, none, some, List, [], ◌∷◌,
  arith, modify, Bool-cases, Option-cases, subst, sym, ◌∙◌,
}
use psingthreadlib.Prelude.Outcome.{returns}
use psingthreadlib.Sched.Job.{Jobs}
use psingthreadlib.Sched.State.{Sched}
use psingthreadlib.Sched.Cancel.{cancel_deps, cancel_jobs, cancel_job, mark_cancelled, mark_dropped}
use psingthreadlib.Sched.Cancel.Raised.{Raised, Spread, Raised-refl, Raised-trans}
use psingthreadlib.Sched.Cancel.Closed.{
  cancel_deps-dead, cancel_deps-live, dropped-Raised, cancelled-Raised, cancel_job-some,
}

some_inj : (a b : Jobs) → some a ≡ some b → a ≡ b
some_inj a b e = cc

Spread-eq : (a b : Jobs) → a ≡ b → Spread a b
Spread-eq a b e k = subst (λ (x : Jobs). Raised (a k) (x k)) e (Raised-refl (a k))

cancel_deps-nil : (call : ℕ → Jobs → Option Jobs) (a : Jobs) → cancel_deps call [] a ≡ some a
unfolding cancel_deps
cancel_deps-nil call a = refl

cancel_deps-out :
    (call : ℕ → Jobs → Option Jobs) (next : ℕ) (rest : List ℕ) (a : Jobs)
    → (a next).cancelled ≡ false
    → call next a ≡ none
    → cancel_deps call (next ∷ rest) a ≡ none
unfolding cancel_deps
cancel_deps-out call next rest a h e = ground arith

module _ (call : ℕ → Jobs → Option Jobs)
    (spec : (m : ℕ) (x y : Jobs) → call m x ≡ some y → Spread x y) where
  loop-Spread : (js : List ℕ) (a b : Jobs) → cancel_deps call js a ≡ some b → Spread a b
  loop-Spread [] a b e = Spread-eq a b (some_inj a b (sym (cancel_deps-nil call a) ∙ e))
  loop-Spread (next ∷ rest) a b e = elim (Bool-cases (a next).cancelled) [
    | inl dead ↦ loop-Spread rest a b (sym (cancel_deps-dead call next rest a dead) ∙ e)
    | inr alive ↦ elim (Option-cases (call next a)) [
      | inl out ↦ absurd (none_some (sym (cancel_deps-out call next rest a alive out) ∙ e))
      | inr (c, ec) ↦ λ k.
          Raised-trans (a k) (c k) (b k) (spec next a c ec k)
            (loop-Spread rest c b (sym (cancel_deps-live call next rest a c alive ec) ∙ e) k)
    ]
  ]
    where
      none_some : none ≡ some b → ⊥
      none_some h = cc

cancel_jobs-dead :
    (fuel j : ℕ) (a : Jobs) → (a j).cancelled ≡ true → cancel_jobs (suc fuel) j a ≡ some a
unfolding cancel_jobs
cancel_jobs-dead fuel j a h = rw h

cancel_jobs-busy :
    (fuel j : ℕ) (a : Jobs)
    → (a j).cancelled ≡ false
    → (not (a j).running && not (a j).done) ≡ false
    → cancel_jobs (suc fuel) j a ≡ some (modify mark_cancelled j a)
unfolding cancel_jobs
cancel_jobs-busy fuel j a h busy = rw (h, busy)

cancel_jobs-idle :
    (fuel j : ℕ) (a : Jobs)
    → (a j).cancelled ≡ false
    → (not (a j).running && not (a j).done) ≡ true
    → cancel_jobs (suc fuel) j a
      ≡ cancel_deps (cancel_jobs fuel) (a j).notify (modify mark_dropped j a)
unfolding cancel_jobs
cancel_jobs-idle fuel j a h idle = rw (h, idle)

cancel_jobs-Spread : (fuel j : ℕ) (a b : Jobs) → cancel_jobs fuel j a ≡ some b → Spread a b
cancel_jobs-Spread zero j a b e = absurd (unfold cancel_jobs in cc)
cancel_jobs-Spread (suc fuel) j a b e = elim (Bool-cases (a j).cancelled) [
  | inl dead ↦ Spread-eq a b (some_inj a b (sym (cancel_jobs-dead fuel j a dead) ∙ e))
  | inr alive ↦ elim (Bool-cases (not (a j).running && not (a j).done)) [
    | inr busy ↦ λ k.
        subst (λ (x : Jobs). Raised (a k) (x k))
          (some_inj _ b (sym (cancel_jobs-busy fuel j a alive busy) ∙ e)) (cancelled-Raised j k a)
    | inl idle ↦ λ k.
        Raised-trans (a k) (modify mark_dropped j a k) (b k) (dropped-Raised j k a alive) (
          loop-Spread (cancel_jobs fuel) (cancel_jobs-Spread fuel) (a j).notify
            (modify mark_dropped j a) b (sym (cancel_jobs-idle fuel j a alive idle) ∙ e) k)
  ]
]

-- Of any call that returns: only the flags `cancelled` and `done` of jobs have changed.
pub cancel_job-Spread :
    (j : ℕ) (s t : Sched)
    → cancel_job j s ≡ returns t
    → (jobs : Jobs) × (t ≡ record s { jobs = jobs }) × Spread s.jobs jobs
cancel_job-Spread j s t e = elim (Option-cases (cancel_jobs (suc s.allocated) j s.jobs)) [
  | inl out ↦ absurd (faulty out)
  | inr (jobs, ej) ↦
      let same : t ≡ record s { jobs = jobs } =
        returns_inj (sym (cancel_job-some j s jobs ej) ∙ e) in
      (jobs, same, cancel_jobs-Spread (suc s.allocated) j s.jobs jobs ej)
]
  where
    faulty : cancel_jobs (suc s.allocated) j s.jobs ≡ none → ⊥
    faulty out = unfold cancel_job in ground arith

    returns_inj : {u : Sched} → returns u ≡ returns t → t ≡ u
    returns_inj h = cc
