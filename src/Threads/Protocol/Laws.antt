-- ===== src/Threads/Protocol/Laws.antt =====
-- The thread answers its parent in order, and no request is left to a sleeping thread.
use psingthreadlib.Prelude.{
  ℕ, ◌-◌, ◌<◌, ◌≡◌, ◌≢◌, refl, ap, sym, ◌∙◌, subst, true, false, List, [], ◌∷◌, ◌++◌, if◌then◌else◌,
  Bytes, arith,
}
use psingthreadlib.Prelude.Outcome.{returns}
use psingthreadlib.Sync.Lock.{new_lock, Cond}
use psingthreadlib.Threads.State.{ThreadState, is_live, take_loop, take_result, take_resume}
use psingthreadlib.Threads.Worker as Worker
use psingthreadlib.Threads.Worker.{Works, serve_begin, serve_resume}
use psingthreadlib.Threads.Protocol.{
  Request, waiting, System, Step, requests, takes, falls_asleep, takes_woken, sleeps_again, joins,
  begins, goes_on, wakes_worker, wakes_parent, Reach, Reach, start, later, after, outputs, frames,
  quit_frame,
}
use psingthreadlib.Threads.Protocol.Serving.{
  held, lock-free, wait_end-free, result_of, served, serve-frames,
}
use psingthreadlib.Threads.Protocol.Kept.{Notices, Inv, waiters}
use psingthreadlib.Threads.Protocol.Asking.{request-Inv, join-Inv, got-Inv, sleeps-Inv}
use psingthreadlib.Threads.Protocol.Running.{serve-Inv}

woken : Cond → Cond
woken c = record c { waiting = c.waiting - 1 }

module _ (parent : ℕ) (ts : ThreadState) (free : ts.mutex ≡ new_lock false) where
  take_result_loop :
      is_live ts ≡ true
      → take_result parent ts ≡ take_loop parent (held parent) ts.from_cond ts.from_thread ts
  unfolding take_result
  take_result_loop live = rw (free, lock-free parent, live) refl

  take_resume_loop :
      take_resume parent 1 ts
      ≡ take_loop parent (held parent) (woken ts.from_cond) ts.from_thread ts
  unfolding take_resume woken
  take_resume_loop = rw (free, wait_end-free parent ts.from_cond) refl

module _ {I : Type 0} (evaluate : I → Bytes → Bytes × I) (self : ℕ) (i : I) (ts : ThreadState)
    (free : ts.mutex ≡ new_lock false) where
  begin_serve :
      serve_begin evaluate self i ts
      ≡ Worker.serve evaluate self ts.to_thread i (record ts { mutex = held self })
  unfolding serve_begin
  begin_serve = rw (free, lock-free self) refl

  resume_serve :
      serve_resume evaluate self 1 i ts
      ≡ Worker.serve evaluate self ts.to_thread i
          (record ts { mutex = held self; to_cond = woken ts.to_cond })
  unfolding serve_resume woken
  resume_serve = rw (free, wait_end-free self ts.to_cond) refl

module _ {I : Type 0} (evaluate : I → Bytes → Bytes × I) (init : I) (parent self : ℕ) where
  Step-Inv :
      {s t : System I} → Step evaluate parent self s t → Inv evaluate init s → Inv evaluate init t
  unfolding woken
  Step-Inv {s} (requests eval expr j r e) v = request-Inv evaluate init parent s eval expr j e v
  Step-Inv {s} (takes expr {t} j r e) (ran, left, v) =
      let n =
        subst (λ b. Notices (if b then 1 else 0) s.ts.from_thread s.ts.from_cond) r
          v.from_noticed in
      subst
        (λ b.
          Inv evaluate init (record s { ts = t; reading = b; received = s.received ++ expr ∷ [] }))
        (sym r)
        (got-Inv evaluate init parent s s.ts.from_cond expr n.0 n.1
          (sym (take_result_loop parent s.ts v.unlocked v.live) ∙ e) (ran, left, v))
  Step-Inv {s} (falls_asleep depth j r e) (ran, left, v) =
      let n =
        subst (λ b. Notices (if b then 1 else 0) s.ts.from_thread s.ts.from_cond) r
          v.from_noticed in
      sleeps-Inv evaluate init parent s s.ts.from_cond depth n.0 n.1
        (sym (take_result_loop parent s.ts v.unlocked v.live) ∙ e) (ran, left, v)
  Step-Inv {s} (takes_woken expr r a e) (ran, left, v) =
      let n =
        subst (λ b. Notices (if b then 1 else 0) s.ts.from_thread s.ts.from_cond) r
          v.from_noticed in
      got-Inv evaluate init parent s (woken s.ts.from_cond) expr (omega arith) (omega arith)
        (sym (take_resume_loop parent s.ts v.unlocked) ∙ e) (ran, left, v)
  Step-Inv {s} (sleeps_again depth {t} r a e) (ran, left, v) =
      let n =
        subst (λ b. Notices (if b then 1 else 0) s.ts.from_thread s.ts.from_cond) r
          v.from_noticed in
      subst (λ b. Inv evaluate init (record s { ts = t; reading = b })) (sym r)
        (sleeps-Inv evaluate init parent s (woken s.ts.from_cond) depth (omega arith) (omega arith)
          (sym (take_resume_loop parent s.ts v.unlocked) ∙ e) (ran, left, v))
  Step-Inv {s} (joins j r e) v = join-Inv evaluate init parent s j e v
  Step-Inv {s} (begins r i w e) (ran, left, v) =
      let n = subst (λ p. Notices (waiters p) s.ts.to_thread s.ts.to_cond) w v.to_noticed in
      serve-Inv evaluate init self s s.ts.to_cond r i n.0 n.1
        (sym (begin_serve evaluate self s.interp s.ts v.unlocked) ∙ e) (ran, left, v)
  Step-Inv {s} (goes_on r i w a e) (ran, left, v) =
      let n = subst (λ p. Notices (waiters p) s.ts.to_thread s.ts.to_cond) w v.to_noticed in
      serve-Inv evaluate init self s (woken s.ts.to_cond) r i (omega arith) (omega arith)
        (sym (resume_serve evaluate self s.interp s.ts v.unlocked) ∙ e) (ran, left, v)
  Step-Inv {s} (wakes_worker a) (ran, left, v) = (
    ran,
    left,
    record {
      split = v.split;
      framed = v.framed;
      results = v.results;
      state = v.state;
      unlocked = v.unlocked;
      live = v.live;
      to_noticed = ground arith;
      from_noticed = v.from_noticed;
    },
  )
  Step-Inv {s} (wakes_parent a) (ran, left, v) = (
    ran,
    left,
    record {
      split = v.split;
      framed = v.framed;
      results = v.results;
      state = v.state;
      unlocked = v.unlocked;
      live = v.live;
      to_noticed = v.to_noticed;
      from_noticed = ground arith;
    },
  )

  Reach-Inv :
      {index : ℕ} {s : System I} → Reach evaluate parent self index init s → Inv evaluate init s
  unfolding frames after outputs
  Reach-Inv start = (
    [],
    [],
    record {
      split = refl;
      framed = refl;
      results = refl;
      state = refl;
      unlocked = refl;
      live = refl;
      to_noticed = (refl, omega arith, λ _. refl);
      from_noticed = (refl, omega arith, λ _. refl);
    },
  )
  Reach-Inv (later r st) = Step-Inv st (Reach-Inv r)

  -- Under every interleaving of a thread and its parent, the requests sent by `threadEval` and
  -- `threadExec` are those that the thread has run, in their order, and behind them those in its
  -- queue; and the values that `threadResult` gave, with those that wait in the queue of results,
  -- are the values of the evaluations run, each in the state that the requests before it left.
  pub answers_in_order :
      {index : ℕ} {s : System I}
      → Reach evaluate parent self index init s
      → (ran : List Request) × (left : List Request) × (s.sent ≡ ran ++ left)
        × (s.ts.to_thread ≡ frames left ++ quit_frame s.joining)
        × (s.received ++ s.ts.from_thread ≡ outputs evaluate init ran)
        × (s.interp ≡ after evaluate init ran)
  answers_in_order r =
      let (ran, left, v) = Reach-Inv r in (ran, left, v.split, v.framed, v.results, v.state)

  -- Under every interleaving of a thread and its parent, a thread that sleeps while something is in
  -- its queue has been woken; and when a thread goes on, its round ends: it runs all requests that
  -- are there and puts their values behind the results, and then it quits if its parent joins it and
  -- sleeps if not.
  pub requests_served :
      {index : ℕ} {s : System I}
      → Reach evaluate parent self index init s
      → s.worker ≡ waiting
      → (s.ts.to_thread ≢ [] → s.ts.to_cond.asleep < s.ts.to_cond.waiting)
        × ((left : List Request) × (t : ThreadState) × (s.ts.to_thread
              ≡ frames left ++ quit_frame s.joining)
            × (serve_resume evaluate self 1 s.interp s.ts
                ≡ returns (result_of evaluate self s.joining, after evaluate s.interp left, t))
            × (t.from_thread ≡ s.ts.from_thread ++ outputs evaluate s.interp left)
            × (t.to_thread ≡ quit_frame s.joining))
  unfolding woken
  requests_served {s = s} r w =
      let (ran, left, v) = Reach-Inv r in
      let n = subst (λ p. Notices (waiters p) s.ts.to_thread s.ts.to_cond) w v.to_noticed in
      let ts : ThreadState = record s.ts { to_cond = woken s.ts.to_cond } in
      (
        (λ h. let e = n.2 h in omega arith),
        (
          left,
          served evaluate self left s.joining s.interp ts,
          v.framed,
          resume_serve evaluate self s.interp s.ts v.unlocked
              ∙ ap (λ q. Worker.serve evaluate self q s.interp (record ts { mutex = held self }))
                  v.framed
              ∙ serve-frames evaluate self left s.joining s.interp ts,
          refl,
          refl,
        ),
      )
