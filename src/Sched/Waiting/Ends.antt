-- ===== src/Sched/Waiting/Ends.antt =====
-- The loop of a worker that nothing disturbs ends.
use psingthreadlib.Prelude.{
  ◌+◌, length, ℕ, zero, suc, ◌≤◌, ◌<◌, ◌≡◌, refl, sym, ap, subst, ◌⊎◌, ◌∙◌, inl, inr, Option, some,
  List, [], arith,
}
use psingthreadlib.Prelude.Outcome.{Outcome, returns, faults, ◌>>=◌, >>=-eq-returns}
use psingthreadlib.Value.{Value}
use psingthreadlib.Sched.State.{Sched, at, incref, decref, notify_one}
use psingthreadlib.Sched.Trigger.{Interp}
use psingthreadlib.Sched.Notify.{notify_all, fire_from, fire_all, trigger_arg, notify_deps}
use psingthreadlib.Sched.Worker.{
  Execution, Pick, leaves, runs, sleeps, pick, complete, run, go_on, round, main_loop,
}
use psingthreadlib.Sched.Waiting.Work.{
  work, Plain, SameWork, SameWork-work, SameWork-Plain, at-SameWork, notify_all-work,
}
use psingthreadlib.Sched.Waiting.Laws.{IsAtRest, main_loop_rest}
use psingthreadlib.Sched.Waiting.Taking.{pick-Taken}
use psingthreadlib.Sched.Waiting.Calm.{Calm, run-SameWork}

module _ (interp : Interp) (outside : Execution) where
  module _ (n : ℕ) where
    nothing_fires :
        (rounds : ℕ) (arg : List Value) (j : ℕ) (u : Sched)
        → (u.jobs j).triggers ≡ []
        → fire_from interp (suc rounds) arg j 0 u ≡ returns u
    unfolding fire_from
    nothing_fires rounds arg j u h = rw (fire_from, h) refl

    -- Without triggers, `notifyDeps` only queues dependents.
    notify_deps-plain :
        (j : ℕ) (s : Sched)
        → let u = notify_all (s.jobs j).notify (at j incref s) in
          (u.jobs j).triggers ≡ [] → notify_deps interp j s ≡ returns u
    unfolding notify_deps fire_all
    notify_deps-plain j s h =
        let u = notify_all (s.jobs j).notify (at j incref s) in
        nothing_fires (length (u.jobs j).triggers + interp.rounds) (trigger_arg interp (u.jobs j)) j
          u h

    abbrev ended : ℕ → Sched → Sched
    ended j u = record (at j decref u) { response = notify_one u.response }

    ended-SameWork : (j : ℕ) (u : Sched) → SameWork u (ended j u)
    ended-SameWork j u =
        let h = at-SameWork decref j u (λ x. refl) (λ x. refl) (λ x. refl) in
        record {
          queue = refl;
          queues = refl;
          triggers = h.triggers;
          notify = h.notify;
          queued = h.queued;
        }

    complete-work :
        (j : ℕ) (s t : Sched)
        → Plain n s.jobs
        → complete interp j s ≡ returns t
        → (work n t ≤ work n s) × Plain n t.jobs
    unfolding complete
    complete-work j s t p e =
        let a = at j incref s in
        let u = notify_all (s.jobs j).notify a in
        let ha = at-SameWork incref j s (λ x. refl) (λ x. refl) (λ x. refl) in
        let (less, plain) =
          notify_all-work n (s.jobs j).notify a (SameWork-Plain n s a ha p) (p.notify j) in
        let told =
          ap (λ (m : Outcome Sched). m >>= λ x. returns (ended j x))
            (notify_deps-plain j s (plain.triggers j)) in
        let same = returns_inj (ended j u) t (sym told ∙ e) in
        let one = SameWork-work n s a ha in
        let two = SameWork-work n u (ended j u) (ended-SameWork j u) in
        subst (λ (x : Sched). (work n x ≤ work n s) × Plain n x.jobs) same
          (omega arith, SameWork-Plain n u (ended j u) (ended-SameWork j u) plain)
      where
        returns_inj : (x y : Sched) → returns x ≡ returns y → x ≡ y
        returns_inj x y h = cc

    -- An end of the loop, however it comes about.
    abbrev Ends : Option (Outcome Sched) → Type 0
    Ends m = (o : Outcome Sched) × (m ≡ some o)

    module _ (c : Calm interp outside) (until : Option ℕ) (num : ℕ) where
      go_on-Ends :
          (next : Sched → Option (Outcome Sched)) (o : Outcome Sched)
          → ((t : Sched) → o ≡ returns t → Ends (next t))
          → Ends (go_on interp outside next o)
      go_on-Ends next (returns t) f = f t refl
      go_on-Ends next Outcome.blocks f = (Outcome.blocks, refl)
      go_on-Ends next Outcome.aborts f = (Outcome.aborts, refl)
      go_on-Ends next faults f = (faults, refl)

      ran-less :
          (j : ℕ) (s u t : Sched)
          → Plain n s.jobs
          → pick until num s ≡ returns (runs j, u)
          → (run interp outside j u >>= complete interp j) ≡ returns t
          → (work n t < work n s) × Plain n t.jobs
      ran-less j s u t p e er =
          let (less, pu) = pick-Taken n s u j until num e in
          let (x, ex, et) = >>=-eq-returns (run interp outside j u) (complete interp j) er in
          let same = run-SameWork interp outside c j u x ex in
          let equal = SameWork-work n u x same in
          let (le, pt) = complete-work j x t (SameWork-Plain n u x same (pu p)) et in
          (omega arith, pt)

      round-Ends :
          (fuel : ℕ) (s : Sched) (o : Outcome (Pick × Sched))
          → pick until num s ≡ o
          → Plain n s.jobs
          → work n s < suc fuel
          → ((t : Sched)
              → Plain n t.jobs
              → work n t < fuel
              → Ends (main_loop interp outside fuel until num t))
          → Ends (round interp outside (main_loop interp outside fuel until num) o)
      round-Ends fuel s (returns (runs j, u)) e p less f =
          go_on-Ends (main_loop interp outside fuel until num)
            (run interp outside j u >>= complete interp j)
            (λ t et. let (fewer, pt) = ran-less j s u t p e et in f t pt (omega arith))
      round-Ends fuel s (returns (leaves, u)) e p less f = (returns u, refl)
      round-Ends fuel s (returns (sleeps, u)) e p less f = (returns u, refl)
      round-Ends fuel s Outcome.blocks e p less f = (Outcome.blocks, refl)
      round-Ends fuel s Outcome.aborts e p less f = (Outcome.aborts, refl)
      round-Ends fuel s faults e p less f = (faults, refl)

      loop-Ends :
          (fuel : ℕ) (s : Sched)
          → Plain n s.jobs
          → work n s < fuel
          → Ends (main_loop interp outside fuel until num s)
      unfolding main_loop
      loop-Ends zero s p less = absurd (omega arith)
      loop-Ends (suc fuel) s p less =
          round-Ends fuel s (pick until num s) refl p less (loop-Ends fuel)

  -- The loop stops at a fault of a job, or where a thread would wait or the process end.
  abbrev pub Breaks : Option (Outcome Sched) → Type 0
  Breaks m = (m ≡ some faults) ⊎ (m ≡ some Outcome.blocks) ⊎ (m ≡ some Outcome.aborts)

  -- If what the jobs run, the procedures, quoted commands and C functions, and what other threads do
  -- meanwhile leave the queues and what the jobs wait for alone, no trigger is chained to a job,
  -- and the dependents of every job are below an address, then the loop of a worker that nothing
  -- disturbs ends, with more fuel than there are jobs in the queues and jobs below the address that
  -- have not been queued: it breaks off at a fault, a wait for a mutex or an abort, or it returns,
  -- and then the job that it was to wait for is done, or the pool shuts down, or its own queue and
  -- the global queue are empty.
  pub main_loop_ends :
      Calm interp outside
      → (n fuel : ℕ) (until : Option ℕ) (num : ℕ) (s : Sched) → Plain n s.jobs
      → work n s < fuel
      → ((t : Sched) × (main_loop interp outside fuel until num s ≡ some (returns t))
          × IsAtRest until num t)
        ⊎ Breaks (main_loop interp outside fuel until num s)
  main_loop_ends c n fuel until num s p less =
      let (o, e) = loop-Ends n c until num fuel s p less in ended_by o e
    where
      ended_by :
          (o : Outcome Sched)
          → main_loop interp outside fuel until num s ≡ some o
          → ((t : Sched) × (main_loop interp outside fuel until num s ≡ some (returns t))
              × IsAtRest until num t)
            ⊎ Breaks (main_loop interp outside fuel until num s)
      ended_by (returns t) e = inl (t, e, main_loop_rest interp outside fuel until num s t e)
      ended_by faults e = inr (inl e)
      ended_by Outcome.blocks e = inr (inr (inl e))
      ended_by Outcome.aborts e = inr (inr (inr e))
