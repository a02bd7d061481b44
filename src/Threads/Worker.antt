-- ===== src/Threads/Worker.antt =====
-- shared.cc: `interpreter_thread`, the loop of a thread that serves its parent.
use psingthreadlib.Prelude.{
  ℕ, Bool, true, false, ◌||◌, List, [], ◌∷◌, ◌++◌, ◌==◌, if◌then◌else◌, Bytes,
}
use psingthreadlib.Prelude.Outcome.{Outcome, returns, faults, ◌>>=◌}
use psingthreadlib.Sync.Lock.{lock, unlock, wait_begin, wait_end, signal}
use psingthreadlib.Threads.State.{ThreadState}

-- The thread sleeps with this depth of its lock, or its function has returned.
pub data Works : Type 0 where
  sleeps : (depth : ℕ) → Works
  quit : Works

-- `expr[0]` is zero for the empty string.
abbrev pub quits : Bytes → Bool
quits [] = true
quits (c ∷ _) = c == 0 || c == b'q'

-- `eval` keeps its initial value for any other command.
abbrev pub evals : Bytes → Bool
evals [] = false
evals (c ∷ _) = c == b'e'

-- `evaluate` is `LinTree::from_string`, which evaluates commands, followed by `to_string`; it
-- changes the state `I` of the interpreter.
module _ {I : Type 0} (evaluate : I → Bytes → Bytes × I) where
  abbrev leave : ℕ → List Bytes → I → ThreadState → Outcome (Works × I × ThreadState)
  leave self left i ts = unlock self ts.mutex >>= λ l.
      returns (quit, i, record ts { to_thread = left; mutex = l; ended = true })

  -- What the thread puts into `from_thread`.
  abbrev pub pushed : Bool → Bytes → List Bytes → List Bytes
  pushed eval expr from = if eval then from ++ expr ∷ [] else from

  -- The loop while the thread holds the lock: the queue is emptied until the thread sleeps or quits.
  -- A command that no expression follows makes it read the front of an empty queue.
  unfoldable pub serve : ℕ → List Bytes → I → ThreadState → Outcome (Works × I × ThreadState)
  serve self [] i ts = wait_begin self ts.mutex ts.to_cond >>= λ (depth, l, c).
      returns (sleeps depth, i, record ts { to_thread = []; mutex = l; to_cond = c })
  serve self (cmd ∷ []) i ts = if quits cmd then leave self (cmd ∷ []) i ts else faults
  serve self (cmd ∷ expr ∷ rest) i ts =
      let (value, i') = evaluate i expr in
      let next = signal self ts.mutex ts.from_cond >>= λ c.
      serve self rest i'
        (record ts { from_thread = pushed (evals cmd) value ts.from_thread; from_cond = c }) in
      if quits cmd then leave self (cmd ∷ expr ∷ rest) i ts else next

  unfoldable pub serve_begin : ℕ → I → ThreadState → Outcome (Works × I × ThreadState)
  unfolding serve
  serve_begin self i ts =
      lock self ts.mutex >>= λ l. serve self ts.to_thread i (record ts { mutex = l })

  -- A thread that was woken goes on in the loop.
  unfoldable pub serve_resume : ℕ → ℕ → I → ThreadState → Outcome (Works × I × ThreadState)
  unfolding serve
  serve_resume self depth i ts = wait_end self depth ts.mutex ts.to_cond >>= λ (l, c).
      serve self ts.to_thread i (record ts { mutex = l; to_cond = c })
