-- ===== src/Threads/Protocol/Asking.antt =====
-- What the calls of the parent keep.
use psingthreadlib.Prelude.{
  ℕ, ◌≤◌, ◌≡◌, refl, ap, sym, ◌∙◌, subst, Bool, true, false, List, [], ◌∷◌, ◌++◌, append-nil,
  append_assoc, Bytes, arith,
}
use psingthreadlib.Prelude.Outcome.{returns}
use psingthreadlib.Sync.Lock.{new_lock, Cond}
use psingthreadlib.Sched.State.{notify_one}
use psingthreadlib.Threads.State.{ThreadState, request, sleeps, got, take_loop, ask_to_quit}
use psingthreadlib.Threads.Protocol.{
  Request, command, Phase, starting, waiting, over, System, frames,
}
use psingthreadlib.Threads.Protocol.Serving.{
  held, slept, lock-free, unlock-held, signal-held, wait_begin-held,
}
use psingthreadlib.Threads.Protocol.Kept.{Notices, Inv, waiters, frames-append}

module _ {I : Type 0} (evaluate : I → Bytes → Bytes × I) (start : I) where
  notify-Notices :
      (n : ℕ) (q r : List Bytes) (c : Cond) → n ≤ 1 → Notices n q c → Notices n r (notify_one c)
  notify-Notices n q r c h v = ground arith

  module _ (parent : ℕ) (s : System I) where
    abbrev asked : List Bytes → ThreadState
    asked more = record s.ts {
      to_thread = s.ts.to_thread ++ more;
      to_cond = notify_one s.ts.to_cond;
      mutex = new_lock false;
    }

    waiters_le : (w : Phase) → waiters w ≤ 1
    waiters_le starting = omega arith
    waiters_le waiting = omega arith
    waiters_le over = omega arith

    pub request-Inv :
        (eval : Bool) (expr : Bytes) {t : ThreadState}
        → s.joining ≡ false
        → request parent (command eval) expr s.ts ≡ returns (true, t)
        → Inv evaluate start s
        → Inv evaluate start (record s { ts = t; sent = s.sent ++ (eval, expr) ∷ [] })
    unfolding request frames
    request-Inv eval expr {t} j e (ran, left, v) =
        let r : Request = (eval, expr) in
        let made : request parent (command eval) expr s.ts
            ≡ returns (true, asked (command eval ∷ expr ∷ [])) =
          rw
            (
              v.unlocked,
              lock-free parent,
              v.live,
              signal-held parent s.ts.to_cond,
              unlock-held parent,
            )
            refl in
        let same : asked (command eval ∷ expr ∷ []) ≡ t = cc in
        subst (λ t. Inv evaluate start (record s { ts = t; sent = s.sent ++ r ∷ [] })) same
          (
            ran,
            left ++ r ∷ [],
            record {
              split = rw v.split (append_assoc ran left (r ∷ []));
              framed = rw (j, v.framed, frames-append left (r ∷ [])) (simp (append-nil, j));
              results = v.results;
              state = v.state;
              unlocked = refl;
              live = v.live;
              to_noticed =
                  notify-Notices (waiters s.worker) s.ts.to_thread _ s.ts.to_cond
                    (waiters_le s.worker) v.to_noticed;
              from_noticed = v.from_noticed;
            },
          )

    pub join-Inv :
        {t : ThreadState}
        → s.joining ≡ false
        → ask_to_quit parent s.ts ≡ returns t
        → Inv evaluate start s
        → Inv evaluate start (record s { ts = t; joining = true })
    unfolding ask_to_quit
    join-Inv {t} j e (ran, left, v) =
        let made : ask_to_quit parent s.ts ≡ returns (asked ((b'q' ∷ []) ∷ [])) =
          rw (v.unlocked, lock-free parent, signal-held parent s.ts.to_cond, unlock-held parent)
            refl in
        let same : asked ((b'q' ∷ []) ∷ []) ≡ t = cc in
        subst (λ t. Inv evaluate start (record s { ts = t; joining = true })) same
          (
            ran,
            left,
            record {
              split = v.split;
              framed = rw (v.framed, j) (simp append-nil);
              results = v.results;
              state = v.state;
              unlocked = refl;
              live = v.live;
              to_noticed =
                  notify-Notices (waiters s.worker) s.ts.to_thread _ s.ts.to_cond
                    (waiters_le s.worker) v.to_noticed;
              from_noticed = v.from_noticed;
            },
          )

    abbrev taken : Cond → List Bytes → ThreadState
    taken c rest = record s.ts { mutex = new_lock false; from_cond = c; from_thread = rest }

    loop-got :
        (q : List Bytes) (c : Cond) (expr : Bytes) {t : ThreadState}
        → take_loop parent (held parent) c q s.ts ≡ returns (got expr, t)
        → (rest : List Bytes) × (q ≡ expr ∷ rest) × (taken c rest ≡ t)
    unfolding take_loop
    loop-got [] c expr e = let e' = rw (wait_begin-held parent c) at e in (cc)
    loop-got (x ∷ q) c expr e = let e' = rw (unlock-held parent) at e in (q, cc, cc)

    loop-sleeps :
        (q : List Bytes) (c : Cond) (depth : ℕ) {t : ThreadState}
        → take_loop parent (held parent) c q s.ts ≡ returns (sleeps depth, t)
        → (q ≡ []) × (record s.ts { mutex = new_lock false; from_cond = slept c } ≡ t)
    unfolding take_loop
    loop-sleeps [] c depth e = let e' = rw (wait_begin-held parent c) at e in (refl, cc)
    loop-sleeps (x ∷ q) c depth e = let e' = rw (unlock-held parent) at e in (cc)

    pub got-Inv :
        (c : Cond) (expr : Bytes) {t : ThreadState}
        → c.waiting ≡ 0
        → c.asleep ≤ 0
        → take_loop parent (held parent) c s.ts.from_thread s.ts ≡ returns (got expr, t)
        → Inv evaluate start s
        → Inv evaluate start
            (record s { ts = t; reading = false; received = s.received ++ expr ∷ [] })
    got-Inv c expr {t} w a e (ran, left, v) =
        let (rest, front, same) = loop-got s.ts.from_thread c expr e in
        subst
          (λ t.
            Inv evaluate start
              (record s { ts = t; reading = false; received = s.received ++ expr ∷ [] }))
          same
          (
            ran,
            left,
            record {
              split = v.split;
              framed = v.framed;
              results =
                  append_assoc s.received (expr ∷ []) rest
                  ∙ ap (λ l. s.received ++ l) (sym front)
                  ∙ v.results;
              state = v.state;
              unlocked = refl;
              live = v.live;
              to_noticed = v.to_noticed;
              from_noticed = (w, a, λ h. omega arith);
            },
          )

    pub sleeps-Inv :
        (c : Cond) (depth : ℕ) {t : ThreadState}
        → c.waiting ≡ 0
        → c.asleep ≤ 0
        → take_loop parent (held parent) c s.ts.from_thread s.ts ≡ returns (sleeps depth, t)
        → Inv evaluate start s
        → Inv evaluate start (record s { ts = t; reading = true })
    sleeps-Inv c depth {t} w a e (ran, left, v) =
        let (none_left, same) = loop-sleeps s.ts.from_thread c depth e in
        subst (λ t. Inv evaluate start (record s { ts = t; reading = true })) same
          (
            ran,
            left,
            record {
              split = v.split;
              framed = v.framed;
              results = v.results;
              state = v.state;
              unlocked = refl;
              live = v.live;
              to_noticed = v.to_noticed;
              from_noticed = (omega arith, omega arith, λ h. absurd (h none_left));
            },
          )
