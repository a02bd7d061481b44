-- ===== src/Shared/Channel/Laws.antt =====
-- `SingularChannel` under every interleaving of its calls: order, and wake-ups.
use psingthreadlib.Prelude.{
  ℕ, ◌-◌, ◌<◌, ◌≤◌, ◌≡◌, refl, ◌≢◌, false, List, [], ◌∷◌, ◌++◌, append-nil, append_assoc, ap, ◌∙◌,
  sym, arith, Bytes,
}
use psingthreadlib.Prelude.Outcome.{returns}
use psingthreadlib.Sync.Lock.{new_lock, lock, unlock, wait_begin, wait_end, signal}
use psingthreadlib.Shared.Channel.{
  Channel, new_channel, send, got, sleeps, receive_loop, receive, receive_resume,
}

-- One critical section of one thread, with the items that it put in and that it took out.
pub data Step (ch : Channel) : List Bytes → List Bytes → Channel → Type 0 where
  sends :
      (self : ℕ) (item : Bytes) {t : Channel}
      → send self item ch ≡ returns t
      → Step ch (item ∷ []) [] t
  receives :
      (self : ℕ) (item : Bytes) {t : Channel}
      → receive self ch ≡ returns (got item, t)
      → Step ch [] (item ∷ []) t
  falls_asleep :
      (self depth : ℕ) {t : Channel} → receive self ch ≡ returns (sleeps depth, t) → Step ch [] [] t
  receives_woken :
      (self : ℕ) (item : Bytes) {t : Channel}
      → ch.cond.asleep < ch.cond.waiting
      → receive_resume self 1 ch ≡ returns (got item, t)
      → Step ch [] (item ∷ []) t
  sleeps_again :
      (self depth : ℕ) {t : Channel}
      → ch.cond.asleep < ch.cond.waiting
      → receive_resume self 1 ch ≡ returns (sleeps depth, t)
      → Step ch [] [] t
  spurious :
      {t : Channel}
      → 0 < ch.cond.asleep
      → t ≡ record ch { cond = record { waiting = ch.cond.waiting; asleep = ch.cond.asleep - 1 } }
      → Step ch [] [] t

pub data Reach : List Bytes → List Bytes → Channel → Type 0 where
  start : Reach [] [] new_channel
  later :
      {sent received ins outs : List Bytes} {s t : Channel}
      → Reach sent received s
      → Step s ins outs t
      → Reach (sent ++ ins) (received ++ outs) t

-- Between critical sections the lock is free, the sleepers are among the threads that wait, and
-- an item that is there for a sleeper has woken a thread.
pub record IsIdle (ch : Channel) : Type 0 where
  pub unlocked : ch.mutex ≡ new_lock false
  pub among : ch.cond.asleep ≤ ch.cond.waiting
  pub noticed : ch.q ≢ [] → 0 < ch.cond.asleep → ch.cond.asleep < ch.cond.waiting

Step-IsIdle : {s t : Channel} {ins outs : List Bytes} → Step s ins outs t → IsIdle s → IsIdle t
unfolding send receive receive_resume receive_loop lock unlock wait_begin wait_end signal
Step-IsIdle (sends self item e) v = ground arith
Step-IsIdle (receives self item e) v = ground arith
Step-IsIdle (falls_asleep self depth e) v = ground arith
Step-IsIdle (receives_woken self item p e) v = ground arith
Step-IsIdle (sleeps_again self depth p e) v = ground arith
Step-IsIdle (spurious p e) v = ground arith

Step-queue : {s t : Channel} {ins outs : List Bytes} → Step s ins outs t → s.q ++ ins ≡ outs ++ t.q
unfolding send receive receive_resume receive_loop lock unlock wait_begin wait_end signal
Step-queue (sends self item e) = ground arith
Step-queue {s} (receives self item e) = ground (arith, append-nil s.q)
Step-queue {s} (falls_asleep self depth e) = ground (arith, append-nil s.q)
Step-queue {s} (receives_woken self item p e) = ground (arith, append-nil s.q)
Step-queue {s} (sleeps_again self depth p e) = ground (arith, append-nil s.q)
Step-queue {s} (spurious p e) = ground (arith, append-nil s.q)

pub Reach-IsIdle : {sent received : List Bytes} {s : Channel} → Reach sent received s → IsIdle s
Reach-IsIdle start = ground arith
Reach-IsIdle (later r st) = Step-IsIdle st (Reach-IsIdle r)

-- Under every interleaving of calls on a new channel, the items that were received, followed by
-- those still in the channel, are the items that were sent, in the order of sending.
pub fifo :
    {sent received : List Bytes} {s : Channel} → Reach sent received s → sent ≡ received ++ s.q
fifo start = refl
fifo (later {sent} {received} {ins} {outs} {s} {t} r st) = rw (fifo r) (
    append_assoc received s.q ins
    ∙ ap (λ l. received ++ l) (Step-queue st)
    ∙ sym (append_assoc received outs t.q))

-- Under every interleaving of calls on a new channel, with wake-ups that no signal made allowed,
-- a channel that holds an item while a receiver sleeps has a receiver that is awake and on its way.
pub no_lost_wakeup :
    {sent received : List Bytes} {s : Channel}
    → Reach sent received s
    → s.q ≢ []
    → 0 < s.cond.asleep
    → s.cond.asleep < s.cond.waiting
no_lost_wakeup r = (Reach-IsIdle r).noticed
