-- ===== src/Sched/Waiting/Laws.antt =====
-- When a pool is shut down, and what a pool without threads does.
use psingthreadlib.Prelude.{
  ℕ, zero, suc, ◌+◌, ◌≤◌, ◌≡◌, refl, ◌⊎◌, inl, inr, ◌↔◌, true, false, Option, none, some, List, [],
  ◌∷◌, get_elem?, length, arith, Bool-cases, sym, ap, ◌∙◌, subst,
}
use psingthreadlib.Prelude.Outcome.{Outcome, returns, faults, ◌>>=◌, deref, >>=-eq-returns}
use psingthreadlib.Sched.Queue.{pop_top, top_of, remove}
use psingthreadlib.Sched.Safety.Workers.{pick_global-none, pick-done, pick-queues}
use psingthreadlib.Sched.State.{Sched, notify_one}
use psingthreadlib.Sched.Trigger.{Interp}
use psingthreadlib.Sched.Worker.{
  Execution, Pick, leaves, runs, sleeps, is_done, pick_global, pick_queue, pick, run, complete,
  go_on, round, main_loop,
}
use psingthreadlib.Sched.Waiting.{over, leave_loop, shutdown_resume}

-- One more round of each of these workers, which finds that the pool shuts down.
unfoldable pub leave_all : List ℕ → Sched → Outcome Sched
leave_all [] s = returns s
leave_all (num ∷ nums) s = pick none num s >>= λ (p, t). leave_all nums t

left_one : Sched → Sched
left_one s = record s {
  shutdown_counter = s.shutdown_counter + 1;
  response = notify_one s.response;
}

pick_down :
    (num : ℕ) (s : Sched) → s.shutting_down ≡ true → pick none num s ≡ returns (leaves, left_one s)
unfolding pick left_one
pick_down num s h = ground arith

leave_all_lem :
    (nums : List ℕ) (s : Sched)
    → s.shutting_down ≡ true
    → (t : Sched) × (leave_all nums s ≡ returns t)
      × (t.shutting_down ≡ true)
      × (t.shutdown_counter ≡ s.shutdown_counter + length nums)
      × (t.nthreads ≡ s.nthreads)
unfolding leave_all left_one
leave_all_lem [] s h = (s, refl, h, omega arith, refl)
leave_all_lem (num ∷ nums) s h =
    let (t, e, d, c, n) = leave_all_lem nums (left_one s) h in
    (t, rw (pick_down num s h) e, d, omega arith, n)

-- A shutdown that has begun ends when each thread of the pool has made one more round, whatever
-- the queues hold, and not before.
pub shutdown_ends :
    (nums : List ℕ) (s : Sched)
    → s.shutting_down ≡ true
    → s.shutdown_counter ≡ 0
    → length nums ≤ s.nthreads
    → (t : Sched) × (leave_all nums s ≡ returns t)
      × (((shutdown_resume t).0 ≡ over) ↔ (length nums ≡ s.nthreads))
unfolding shutdown_resume leave_loop
shutdown_ends nums s h z le = let (t, e, d, c, n) = leave_all_lem nums s h in (t, e, ground arith)

-- Where the loop of a pool without threads stands when it ends.
abbrev pub IsAtRest : Option ℕ → ℕ → Sched → Type 0
IsAtRest until num t =
    (is_done until t ≡ true)
    ⊎ (t.shutting_down ≡ true)
    ⊎ ((t.global_queue ≡ []) × (get_elem? t.thread_queues num ≡ some []))

deref_there : {A : Type 0} (o : Option A) (a : A) → deref o ≡ returns a → o ≡ some a
deref_there none a e = cc
deref_there (some b) a e = cc

global_runs :
    (s : Sched) (j : ℕ) (rest : List ℕ)
    → pop_top s.jobs s.global_queue ≡ some (j, rest)
    → (pick_global s).0 ≡ runs j
unfolding pick_global
global_runs s j rest e = rw (e, pick_global) refl

pick_shut :
    (until : Option ℕ) (num : ℕ) (p : Pick) (s t : Sched)
    → is_done until s ≡ false
    → s.shutting_down ≡ true
    → pick until num s ≡ returns (p, t)
    → t.shutting_down ≡ true
unfolding pick
pick_shut until num p s t d h e = ground arith

module _ (until : Option ℕ) (num : ℕ) (p : Pick) (s t : Sched)
    (idle : (j : ℕ) → p ≡ runs j → ⊥) where
  global_rest :
      (g : List ℕ)
      → s.global_queue ≡ g
      → ◌≡◌ {A = Pick × Sched} (pick_global s) (p, t)
      → (g ≡ []) × (t ≡ s)
  unfolding pop_top
  global_rest [] same e =
      let back = pick_global-none s (rw same refl) in (refl, sym (ap (λ r. r.1) e) ∙ back)
  global_rest (j ∷ js) same e =
      let found : pop_top s.jobs s.global_queue
          ≡ some (top_of s.jobs j js, remove (top_of s.jobs j js) (j ∷ js)) =
        rw same refl in
      absurd (idle _ (ap (λ r. r.0) (sym e) ∙ global_runs s _ _ found))

  queue_rest :
      (q : List ℕ)
      → ◌≡◌ {A = Pick × Sched} (pick_queue num q s) (p, t)
      → (q ≡ []) × (s.global_queue ≡ []) × (t ≡ s)
  unfolding pick_queue
  queue_rest [] e = let (a, b) = global_rest s.global_queue refl e in (refl, a, b)
  queue_rest (j ∷ rest) e = absurd (idle j (ap (λ r. r.0) (sym e)))

  pick_rest : pick until num s ≡ returns (p, t) → IsAtRest until num t
  pick_rest e = elim (Bool-cases (is_done until s)) [
    | inl d ↦
        let same = pick-done until num s (p, t) d e in
        inl (subst (λ u. is_done until u ≡ true) (ap (λ r. r.1) same) d)
    | inr d ↦ elim (Bool-cases s.shutting_down) [
      | inl h ↦ inr (inl (pick_shut until num p s t d h e))
      | inr h ↦
          let f = pick-queues until num s (p, t) d h e in
          let (q, e1, e2) =
            >>=-eq-returns (deref (get_elem? s.thread_queues num))
              (λ q. returns (pick_queue num q s)) f in
          let (none_left, g, same) = queue_rest q (cc) in
          let here = deref_there (get_elem? s.thread_queues num) q e1 in
          inr (
            inr (
              subst (λ u. (u.global_queue ≡ []) × (get_elem? u.thread_queues num ≡ some []))
                (sym same) (g, here ∙ ap some none_left)))
    ]
  ]

module _ (interp : Interp) (outside : Execution) where
  go_on_rest :
      (until : Option ℕ) (num : ℕ) (next : Sched → Option (Outcome Sched)) (t : Sched)
      → ((u : Sched) → next u ≡ some (returns t) → IsAtRest until num t)
      → (o : Outcome Sched) → go_on interp outside next o ≡ some (returns t)
      → IsAtRest until num t
  go_on_rest until num next t later (returns u) e = later u e
  go_on_rest until num next t later Outcome.blocks e = cc
  go_on_rest until num next t later Outcome.aborts e = cc
  go_on_rest until num next t later faults e = cc

  round_rest :
      (until : Option ℕ) (num : ℕ) (next : Sched → Option (Outcome Sched)) (s t : Sched)
      → ((u : Sched) → next u ≡ some (returns t) → IsAtRest until num t)
      → (o : Outcome (Pick × Sched)) → pick until num s ≡ o
      → round interp outside next o ≡ some (returns t)
      → IsAtRest until num t
  round_rest until num next s t later (returns (runs j, u)) c e =
      go_on_rest until num next t later (run interp outside j u >>= complete interp j) e
  round_rest until num next s t later (returns (leaves, u)) c e =
      pick_rest until num leaves s t (λ j h. cc) (cc)
  round_rest until num next s t later (returns (sleeps, u)) c e =
      pick_rest until num sleeps s t (λ j h. cc) (cc)
  round_rest until num next s t later Outcome.blocks c e = cc
  round_rest until num next s t later Outcome.aborts c e = cc
  round_rest until num next s t later faults c e = cc

  -- When the loop of a worker that nothing disturbs ends, as `waitJob` and `shutdown` run it in a
  -- pool without threads, then the job that it was to wait for is done, or the pool shuts down, or
  -- both its own queue and the global queue are empty.
  pub main_loop_rest :
      (fuel : ℕ) (until : Option ℕ) (num : ℕ) (s t : Sched)
      → main_loop interp outside fuel until num s ≡ some (returns t)
      → IsAtRest until num t
  unfolding main_loop
  main_loop_rest zero until num s t e = cc
  main_loop_rest (suc fuel) until num s t e =
      round_rest until num (main_loop interp outside fuel until num) s t
        (λ u. main_loop_rest fuel until num u t) (pick until num s) refl e
