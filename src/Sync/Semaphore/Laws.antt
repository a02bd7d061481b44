-- ===== src/Sync/Semaphore/Laws.antt =====
-- `Semaphore` under every interleaving of its calls: no unit is made or lost, and which wake-ups
-- are.
use psingthreadlib.Prelude.{ℕ, ◌+◌, ◌-◌, ◌%◌, ◌^◌, ◌<◌, ◌≤◌, ◌≡◌, false, arith}
use psingthreadlib.Prelude.Outcome.{returns}
use psingthreadlib.Sync.Lock.{new_lock, lock, unlock, wait_begin, wait_end, signal}
use psingthreadlib.Sync.Semaphore.{
  Semaphore, new_semaphore, done, sleeps, wait_loop, wait, wait_resume, post,
}

-- One critical section of one thread. `taken` and `posted` count the units that went out and in.
-- The wake-up of a sleeper with no signal (`spurious`) is allowed by POSIX.
pub data Step (s : Semaphore) : ℕ → ℕ → Semaphore → Type 0 where
  take : (self : ℕ) {t : Semaphore} → wait self s ≡ returns (done, t) → Step s 1 0 t
  sleep : (self depth : ℕ) {t : Semaphore} → wait self s ≡ returns (sleeps depth, t) → Step s 0 0 t
  take_woken :
      (self : ℕ) {t : Semaphore}
      → s.cond.asleep < s.cond.waiting
      → wait_resume self 1 s ≡ returns (done, t)
      → Step s 1 0 t
  sleep_again :
      (self depth : ℕ) {t : Semaphore}
      → s.cond.asleep < s.cond.waiting
      → wait_resume self 1 s ≡ returns (sleeps depth, t)
      → Step s 0 0 t
  give : (self : ℕ) {t : Semaphore} → s.count + 1 < 2 ^ 32 → post self s ≡ returns t → Step s 0 1 t
  spurious :
      {t : Semaphore}
      → 0 < s.cond.asleep
      → t ≡ record s { cond = record { waiting = s.cond.waiting; asleep = s.cond.asleep - 1 } }
      → Step s 0 0 t

pub data Reach (count0 : ℕ) : ℕ → ℕ → Semaphore → Type 0 where
  start : Reach count0 0 0 (new_semaphore count0)
  later :
      {taken posted a b : ℕ} {s t : Semaphore}
      → Reach count0 taken posted s
      → Step s a b t
      → Reach count0 (taken + a) (posted + b) t

-- Between critical sections the lock is free, and the threads asleep are among those waiting.
pub record IsIdle (s : Semaphore) : Type 0 where
  pub unlocked : s.mutex ≡ new_lock false
  pub among : s.cond.asleep ≤ s.cond.waiting

Step-keeps :
    {s t : Semaphore} {a b : ℕ} → Step s a b t → IsIdle s → IsIdle t × (t.count + a ≡ s.count + b)
unfolding wait wait_resume wait_loop post lock unlock wait_begin wait_end signal
Step-keeps (take self e) v = ground arith
Step-keeps (sleep self depth e) v = ground arith
Step-keeps (take_woken self p e) v = ground arith
Step-keeps (sleep_again self depth p e) v = ground arith
Step-keeps (give self p e) v = ground arith
Step-keeps (spurious p e) v = ground arith

Reach-keeps :
    {count0 taken posted : ℕ} {s : Semaphore}
    → Reach count0 taken posted s
    → IsIdle s × (s.count + taken ≡ count0 + posted)
Reach-keeps start = ground arith
Reach-keeps {count0} (later r st) =
    let h = Reach-keeps r in let k = Step-keeps st h.0 in (k.0, omega (arith, h.1, k.1))

-- Under every interleaving of calls on a new semaphore, as long as the count stays below 2^32, the
-- units still there and those taken add up to the initial ones and those posted.
pub units_conserved :
    {count0 taken posted : ℕ} {s : Semaphore}
    → Reach count0 taken posted s
    → s.count + taken ≡ count0 + posted
units_conserved r = (Reach-keeps r).1

-- A semaphore between critical sections, with `n` threads in `wait` and all of them asleep.
abbrev pub all_asleep : (count n waiting : ℕ) → Semaphore
all_asleep k n w = record {
  mutex = new_lock false;
  cond = record { waiting = n; asleep = n };
  count = k;
  waiting = w;
}

-- With a count of zero and two or more threads asleep, all that wait asleep: two posts, and then
-- the wake-up of the one thread that they woke, leave a unit in the semaphore, one thread less
-- asleep, and no thread woken.
pub post_twice_loses_wakeup :
    (a b c n w : ℕ)
    → 2 ≤ n
    → 0 < w
    → (t u : Semaphore) × (post a (all_asleep 0 n w) ≡ returns t)
      × (post b t ≡ returns u)
      × (wait_resume c 1 u ≡ returns (done, all_asleep 1 (n - 1) ((w + 2 ^ 32 - 1) % 2 ^ 32)))
unfolding wait_resume wait_loop post lock unlock wait_end signal
post_twice_loses_wakeup a b c n w two some_waiting =
    let t = record (all_asleep 0 n w) {
      cond = record { waiting = n; asleep = n - 1 };
      count = 1;
    } in
    let u = record t { count = 2 } in (t, u, ground arith, ground arith, ground arith)
