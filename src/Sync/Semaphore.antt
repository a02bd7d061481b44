-- ===== src/Sync/Semaphore.antt =====
-- thread.h and thread.cc: `Semaphore`.
pub mod Laws
use psingthreadlib.Prelude.{
  ℕ, ◌+◌, ◌-◌, ◌%◌, ◌^◌, ◌≡◌, Bool, true, false, not, ◌&&◌, ◌==◌, if◌then◌else◌,
}
use psingthreadlib.Prelude.Outcome.{Outcome, returns, ◌>>=◌}
use psingthreadlib.Sync.Lock.{
  Lock, new_lock, lock, unlock, Cond, new_cond, wait_begin, wait_end, signal,
}

pub record Semaphore : Type 0 where
  pub mutex : Lock
  pub cond : Cond
  pub count : ℕ
  pub waiting : ℕ

-- `unsigned` arithmetic
abbrev pub u32 : ℕ → ℕ
u32 n = n % 2 ^ 32

abbrev pub new_semaphore : ℕ → Semaphore
new_semaphore count0 = record {
  mutex = new_lock false;
  cond = new_cond;
  count = count0;
  waiting = 0;
}

-- Where a call of `wait` stands: it has returned, or it sleeps with this depth of its lock.
pub data Waits : Type 0 where
  done : Waits
  sleeps : (depth : ℕ) → Waits

-- The loop of `wait` from its test on; the thread holds the lock.
unfoldable pub wait_loop : ℕ → Semaphore → Outcome (Waits × Semaphore)
wait_loop self s =
    if s.count == 0
    then (do
      (depth, l, c) ← wait_begin self s.mutex s.cond
      returns (sleeps depth, record s { mutex = l; cond = c }))
    else (do
      l ← unlock self s.mutex
      returns (
        done,
        record s { mutex = l; waiting = (s.waiting + 2 ^ 32 - 1) % 2 ^ 32; count = s.count - 1 },
      ))

unfoldable pub wait : ℕ → Semaphore → Outcome (Waits × Semaphore)
wait self s = do
  l ← lock self s.mutex
  wait_loop self (record s { mutex = l; waiting = u32 (s.waiting + 1) })

-- A thread that was woken goes on in the loop.
unfoldable pub wait_resume : ℕ → ℕ → Semaphore → Outcome (Waits × Semaphore)
wait_resume self depth s = do
  (l, c) ← wait_end self depth s.mutex s.cond
  wait_loop self (record s { mutex = l; cond = c })

unfoldable pub post : ℕ → Semaphore → Outcome Semaphore
post self s = do
  l ← lock self s.mutex
  c ← (if s.count == 0 && not (s.waiting == 0) then signal self l s.cond else returns s.cond)
  l' ← unlock self l
  returns (record s { mutex = l'; cond = c; count = u32 (s.count + 1) })
