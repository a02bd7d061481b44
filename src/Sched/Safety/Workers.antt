-- ===== src/Sched/Safety/Workers.antt =====
-- What a worker does keeps the invariant of the queue.
use psingthreadlib.Prelude.{
  ℕ, ◌+◌, ◌≡◌, refl, inl, inr, true, false, Option, none, some, List, [], ◌∷◌, set, get_elem?,
  arith, ◌==◌, All, Bool-cases, Option-cases, subst, sym, Bytes, is_empty,
}
use psingthreadlib.Prelude.Outcome.{returns, ◌>>=◌, >>=-eq-returns, deref}
use psingthreadlib.Sched.Job.{Jobs}
use psingthreadlib.Sched.Queue.{pop_top, top_of, remove}
use psingthreadlib.Sched.State.{Sched, at, decref, notify_one}
use psingthreadlib.Sched.Trigger.{Interp}
use psingthreadlib.Sched.Notify.{notify_deps}
use psingthreadlib.Sched.Worker.{
  Pick, leaves, pick, pick_queue, pick_global, run_begin, run_end, complete, store_result,
  signal_more, is_done,
}
use psingthreadlib.Sched.Schedule.{push_args}
use psingthreadlib.Sched.Safety.Kept.{
  Member, Apart, Inv, Kept, Harmless, Goes-refl, Kept-refl, Kept-trans, at-Kept,
}
use psingthreadlib.Sched.Safety.Parts.{Rely, KeptIf, KeptIf-returns, Kept-same}
use psingthreadlib.Sched.Safety.Triggers.{notify_deps-Kept}

pub result-Harmless : (r : Bytes) → Harmless (store_result r)
result-Harmless r = record {
  deps = λ x. refl;
  done = λ x h. h;
  pool = λ x h. h;
  notify = λ x. refl;
  triggers = λ x. refl;
}

pub finished-Harmless : Harmless (λ job. record job { running = false; done = true })
finished-Harmless = record {
  deps = λ x. refl;
  done = λ x h. refl;
  pool = λ x h. h;
  notify = λ x. refl;
  triggers = λ x. refl;
}

pub running-Harmless : Harmless (λ job. record job { running = true })
running-Harmless = record {
  deps = λ x. refl;
  done = λ x h. h;
  pool = λ x h. h;
  notify = λ x. refl;
  triggers = λ x. refl;
}

pub done-Harmless : Harmless (λ job. record job { done = true })
done-Harmless = record {
  deps = λ x. refl;
  done = λ x h. refl;
  pool = λ x h. h;
  notify = λ x. refl;
  triggers = λ x. refl;
}

pub args-Harmless : (a : List Bytes) → Harmless (push_args a)
args-Harmless a = record {
  deps = λ x. refl;
  done = λ x h. h;
  pool = λ x h. h;
  notify = λ x. refl;
  triggers = λ x. refl;
}

pub decref-Harmless : Harmless decref
decref-Harmless = record {
  deps = λ x. refl;
  done = λ x h. h;
  pool = λ x h. h;
  notify = λ x. refl;
  triggers = λ x. refl;
}

pub pick_global-none : (s : Sched) → pop_top s.jobs s.global_queue ≡ none → (pick_global s).1 ≡ s
unfolding pick_global
pick_global-none s e = ground arith

pub pick_global-some :
    (s : Sched) (j : ℕ) (rest : List ℕ)
    → pop_top s.jobs s.global_queue ≡ some (j, rest)
    → (pick_global s).1 ≡ signal_more (record s { global_queue = rest })
unfolding pick_global
pick_global-some s j rest e = rw (e, pick_global)

pub counted : Sched → Sched
counted s = record s { shutdown_counter = s.shutdown_counter + 1; response = notify_one s.response }

module _ (until : Option ℕ) (num : ℕ) (s : Sched) (r : Pick × Sched) where
  pub pick-done :
      is_done until s ≡ true → pick until num s ≡ returns r → ◌≡◌ {A = Pick × Sched} (leaves, s) r
  unfolding pick
  pick-done d e = ground arith

  pub pick-down :
      is_done until s ≡ false
      → s.shutting_down ≡ true
      → pick until num s ≡ returns r
      → ◌≡◌ {A = Pick × Sched} (leaves, counted s) r
  unfolding pick counted
  pick-down d x e = ground arith

  pub pick-queues :
      is_done until s ≡ false
      → s.shutting_down ≡ false
      → pick until num s ≡ returns r
      → (deref (get_elem? s.thread_queues num) >>= λ q. returns (pick_queue num q s)) ≡ returns r
  unfolding pick
  pick-queues d x e = simp (d, x) at e

module _ (P : ℕ → Type 0) where
  pub run_begin-Kept : (j : ℕ) (s : Sched) → Inv P s → Kept P s (run_begin j s).1
  unfolding run_begin
  run_begin-Kept j s v = elim (Bool-cases (s.jobs j).cancelled) [
    | inl e ↦ rw e (at-Kept P (λ job. record job { done = true }) j s done-Harmless v)
    | inr e ↦ rw e (at-Kept P (λ job. record job { running = true }) j s running-Harmless v)
  ]

  pub run_end-Kept : (j : ℕ) (s : Sched) → Inv P s → Kept P s (run_end j s)
  unfolding run_end
  run_end-Kept j s v =
      at-Kept P (λ job. record job { running = false; done = true }) j s finished-Harmless v

  pub complete-Kept :
      (interp : Interp)
      → (rely : Rely interp) → (j : ℕ) (s : Sched) → Apart rely.Others P
      → Inv P s
      → KeptIf P s (complete interp j s)
  unfolding complete
  complete-Kept interp rely j s n v u e =
      let (t, et, eu) = >>=-eq-returns (notify_deps interp j s) _ e in
      let kt = notify_deps-Kept interp rely P j s n v t et in
      let a = at j decref t in
      let b = record a { response = notify_one t.response } in
      let ka = at-Kept P decref j t decref-Harmless kt.inv in
      let kb = Kept-trans P t a b ka (Kept-same P a b ka.inv refl refl) in
      Kept-trans P s t u kt (KeptIf-returns P t b kb u eu)

  pub remove-All : (Q : ℕ → Type 0) (j : ℕ) (l : List ℕ) → All Q l → All Q (remove j l)
  unfolding remove
  remove-All Q j [] h = tt
  remove-All Q j (k ∷ ks) h = elim (Bool-cases (j == k)) [
    | inl e ↦ rw e h.1
    | inr e ↦ rw e (h.0, remove-All Q j ks h.1)
  ]

  pub signal_more-Kept : (s : Sched) → Inv P s → Kept P s (signal_more s)
  signal_more-Kept s v = elim (Bool-cases (is_empty s.global_queue)) [
    | inl e ↦ rw e (Kept-refl P s v)
    | inr e ↦ rw e (Kept-same P s (record s { cond = notify_one s.cond }) v refl refl)
  ]

  pub popped-All :
      (Q : ℕ → Type 0) (jobs : Jobs) (q : List ℕ) {j : ℕ} {rest : List ℕ}
      → All Q q
      → pop_top jobs q ≡ some (j, rest)
      → All Q rest
  unfolding pop_top
  popped-All Q jobs [] h e = cc
  popped-All Q jobs (x ∷ xs) {j} {rest} h e =
      let t = top_of jobs x xs in
      let same : remove t (x ∷ xs) ≡ rest = cc in subst (All Q) same (remove-All Q t (x ∷ xs) h)

  pub pick_global-Kept : (s : Sched) → Inv P s → Kept P s (pick_global s).1
  pick_global-Kept s v = elim (Option-cases (pop_top s.jobs s.global_queue)) [
    | inl e ↦ subst (Kept P s) (sym (pick_global-none s e)) (Kept-refl P s v)
    | inr ((j, rest), e) ↦
        let a = record s { global_queue = rest } in
        let va : Inv P a = record {
          queued = popped-All _ s.jobs s.global_queue v.queued e;
          dependents = v.dependents;
          chained = v.chained;
        } in
        let ka : Kept P s a = record {
          inv = va;
          steady = λ k. Goes-refl (Member P s.jobs k) (s.jobs k);
        } in
        subst (Kept P s) (sym (pick_global-some s j rest e))
          (Kept-trans P s a (signal_more a) ka (signal_more-Kept a va))
  ]

  pub pick_queue-Kept :
      (num : ℕ) (q : List ℕ) (s : Sched) → Inv P s → Kept P s (pick_queue num q s).1
  unfolding pick_queue
  pick_queue-Kept num [] s v = pick_global-Kept s v
  pick_queue-Kept num (j ∷ rest) s v =
      let a = record s { thread_queues = set s.thread_queues num rest } in
      let k = Kept-same P s a v refl refl in
      Kept-trans P s a (signal_more a) k (signal_more-Kept a k.inv)

  pub pick-Kept :
      (until : Option ℕ) (num : ℕ) (s : Sched)
      → Inv P s
      → (r : Pick × Sched) → pick until num s ≡ returns r
      → Kept P s r.1
  pick-Kept until num s v r e = elim (Bool-cases (is_done until s)) [
    | inl d ↦
        subst (λ (x : Pick × Sched). Kept P s x.1) (pick-done until num s r d e) (Kept-refl P s v)
    | inr d ↦ elim (Bool-cases s.shutting_down) [
      | inl x ↦
          subst (λ (x : Pick × Sched). Kept P s x.1) (pick-down until num s r d x e)
            (unfold counted in Kept-same P s (counted s) v refl refl)
      | inr x ↦
          let (q, eq, er) =
            >>=-eq-returns (deref (get_elem? s.thread_queues num)) _
              (pick-queues until num s r d x e) in
          let same : pick_queue num q s ≡ r = returned er in
          subst (λ (x : Pick × Sched). Kept P s x.1) same (pick_queue-Kept num q s v)
    ]
  ]
    where
      returned : {x : Pick × Sched} → returns x ≡ returns r → x ≡ r
      returned h = cc
