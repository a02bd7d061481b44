-- ===== src/Threads/State.antt =====
-- shared.cc: `ThreadState`, and what a thread's parent does with its two queues.
use psingthreadlib.Prelude.{
  ℕ, Bool, true, false, not, ◌||◌, Option, none, List, [], ◌∷◌, ◌++◌, if◌then◌else◌, Bytes,
}
use psingthreadlib.Prelude.Outcome.{Outcome, returns, ◌>>=◌}
use psingthreadlib.Sync.Lock.{
  Lock, new_lock, lock, unlock, Cond, new_cond, wait_begin, wait_end, signal,
}

-- `index` is `none` for -1. `ended` says that the function of the thread has returned, which
-- `pthread_join` waits for.
pub record ThreadState : Type 0 where
  pub active : Bool
  pub running : Bool
  pub index : Option ℕ
  pub parent : ℕ
  pub mutex : Lock
  pub to_cond : Cond
  pub from_cond : Cond
  pub to_thread : List Bytes
  pub from_thread : List Bytes
  pub ended : Bool

-- The constructor; `parent` has no value yet.
abbrev pub new_state : ThreadState
new_state = record {
  active = false;
  running = false;
  index = none;
  parent = 0;
  mutex = new_lock false;
  to_cond = new_cond;
  from_cond = new_cond;
  to_thread = [];
  from_thread = [];
  ended = false;
}

-- `running` and `active` under the lock.
abbrev pub is_live : ThreadState → Bool
is_live ts = not (not ts.running || not ts.active)

-- The part of `threadEval` and `threadExec` under the lock; false where the thread no longer runs.
unfoldable pub request : ℕ → Bytes → Bytes → ThreadState → Outcome (Bool × ThreadState)
request self cmd expr ts = lock self ts.mutex >>= λ l.
    if not (is_live ts)
    then (unlock self l >>= λ l'. returns (false, record ts { mutex = l' }))
    else (signal self l ts.to_cond >>= λ c. unlock self l >>= λ l'.
        returns (
          true,
          record ts { to_thread = ts.to_thread ++ cmd ∷ expr ∷ []; to_cond = c; mutex = l' },
        ))

-- Where a call of `threadResult` stands: refused, asleep with this depth of the lock, or done.
pub data Takes : Type 0 where
  not_running : Takes
  sleeps : (depth : ℕ) → Takes
  got : Bytes → Takes

-- The loop from its test on; the thread holds the lock.
unfoldable pub take_loop :
    ℕ → Lock → Cond → List Bytes → ThreadState → Outcome (Takes × ThreadState)
take_loop self l c [] ts = wait_begin self l c >>= λ (depth, l', c').
    returns (sleeps depth, record ts { mutex = l'; from_cond = c' })
take_loop self l c (expr ∷ rest) ts = unlock self l >>= λ l'.
    returns (got expr, record ts { mutex = l'; from_cond = c; from_thread = rest })

-- The part of `threadResult` under the lock.
unfoldable pub take_result : ℕ → ThreadState → Outcome (Takes × ThreadState)
unfolding take_loop
take_result self ts = lock self ts.mutex >>= λ l.
    if not (is_live ts)
    then (unlock self l >>= λ l'. returns (not_running, record ts { mutex = l' }))
    else take_loop self l ts.from_cond ts.from_thread ts

-- A parent that was woken goes on in the loop.
unfoldable pub take_resume : ℕ → ℕ → ThreadState → Outcome (Takes × ThreadState)
unfolding take_loop
take_resume self depth ts =
    wait_end self depth ts.mutex ts.from_cond >>= λ (l, c). take_loop self l c ts.from_thread ts

-- `joinInterpreterThread` up to its `pthread_join`.
unfoldable pub ask_to_quit : ℕ → ThreadState → Outcome ThreadState
ask_to_quit self ts = lock self ts.mutex >>= λ l. signal self l ts.to_cond >>= λ c.
    unlock self l >>= λ l'.
    returns (record ts { to_thread = ts.to_thread ++ (b'q' ∷ []) ∷ []; to_cond = c; mutex = l' })
