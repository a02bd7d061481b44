-- ===== src/Sched/Waiting/Taking.antt =====
-- A worker that takes a job out of a queue leaves less to do.
use psingthreadlib.Prelude.{
  ℕ, ◌+◌, ◌≡◌, refl, sym, ap, subst, ◌∙◌, inl, inr, false, not, Option, none, some, List, [], ◌∷◌,
  get_elem?, set, arith, Bool-cases, Option-cases, is_empty,
}
use psingthreadlib.Prelude.Outcome.{returns, deref, >>=-eq-returns}
use psingthreadlib.Sched.Queue.{pop_top}
use psingthreadlib.Sched.State.{Sched}
use psingthreadlib.Sched.Worker.{Pick, runs, is_done, signal_more, pick_global, pick_queue, pick}
use psingthreadlib.Sched.Safety.Workers.{pick_global-some, pick-queues}
use psingthreadlib.Sched.Waiting.Work.{
  work, Plain, SameWork, SameWork-refl, SameWork-work, SameWork-Plain, pop_top-length, total-set,
}

signal_more-SameWork : (s : Sched) → SameWork s (signal_more s)
signal_more-SameWork s = elim (Bool-cases (not (is_empty s.global_queue))) [
  | inl e ↦ rw e (record {
    queue = refl;
    queues = refl;
    triggers = λ k. refl;
    notify = λ k. refl;
    queued = λ k. refl;
  })
  | inr e ↦ rw e (SameWork-refl s)
]

-- What a worker takes out of a queue is no longer counted.
abbrev pub Taken : ℕ → Sched → Sched → Type 0
Taken n s u = (work n u + 1 ≡ work n s) × (Plain n s.jobs → Plain n u.jobs)

module _ (n : ℕ) (s u : Sched) (j : ℕ) where
  from-Taken :
      (a : Sched)
      → work n a + 1 ≡ work n s
      → (Plain n s.jobs → Plain n a.jobs)
      → signal_more a ≡ u
      → Taken n s u
  from-Taken a less plain same = subst (Taken n s) same (
      let same_work = signal_more-SameWork a in
      let counted = SameWork-work n a (signal_more a) same_work in
      (omega arith, λ p. SameWork-Plain n a (signal_more a) same_work (plain p)))

  global-Taken : ◌≡◌ {A = Pick × Sched} (pick_global s) (runs j, u) → Taken n s u
  unfolding pick_global
  global-Taken e = elim (Option-cases (pop_top s.jobs s.global_queue)) [
    | inl h ↦ absurd (idle h)
    | inr (x, h) ↦
        let less = pop_top-length s.jobs s.global_queue x.1 x.0 h in
        from-Taken (record s { global_queue = x.1 }) (omega arith) (λ p. p)
          (sym (pick_global-some s x.0 x.1 h) ∙ ap (λ r. r.1) e)
  ]
    where
      idle : pop_top s.jobs s.global_queue ≡ none → ⊥
      idle h = ground arith

  queue-Taken :
      (num : ℕ) (q : List ℕ)
      → get_elem? s.thread_queues num ≡ some q
      → ◌≡◌ {A = Pick × Sched} (pick_queue num q s) (runs j, u)
      → Taken n s u
  unfolding pick_queue
  queue-Taken num [] h e = global-Taken e
  queue-Taken num (k ∷ rest) h e =
      let less = total-set s.thread_queues num k rest h in
      from-Taken (record s { thread_queues = set s.thread_queues num rest }) (omega arith) (λ p. p)
        (ap (λ r. r.1) e)

  pub pick-Taken :
      (until : Option ℕ) (num : ℕ) → pick until num s ≡ returns (runs j, u) → Taken n s u
  unfolding pick
  pick-Taken until num e =
      let f = pick-queues until num s (runs j, u) not_done not_down e in
      let (q, e1, e2) =
        >>=-eq-returns (deref (get_elem? s.thread_queues num)) (λ q. returns (pick_queue num q s))
          f in
      queue-Taken num q (there (get_elem? s.thread_queues num) q e1) (cc)
    where
      not_done : is_done until s ≡ false
      not_done = ground arith

      not_down : s.shutting_down ≡ false
      not_down = ground arith

      there : (o : Option (List ℕ)) (q : List ℕ) → deref o ≡ returns q → o ≡ some q
      there none q h = cc
      there (some x) q h = cc
