-- ===== src/Threads/Commands/Laws.antt =====
-- Who may use a thread, and what is left of one that was joined.
use psingthreadlib.Prelude.{ℕ, ◌≡◌, false, none, some, [], ◌∷◌, arith, ◌==◌}
use psingthreadlib.Prelude.Outcome.{returns, faults}
use psingthreadlib.Value.{Value, shared, thread}
use psingthreadlib.Threads.Table.{Threads, join_begin, join_end}
use psingthreadlib.Threads.Commands.{answers, thread_eval, thread_exec, thread_result, join_thread}
use psingthreadlib.Commands.Reply.{message, fails, Codec, wrong_num_args}

abbrev pub handle : ℕ → Value
handle o = shared thread (some o)

module _ (o : ℕ) where
  joined_none :
      (other i : ℕ) (before w : Threads)
      → join_end other o i before ≡ returns w
      → w.objects o ≡ none
  unfolding join_end
  joined_none other i before w e = ground arith

module _ (codec : Codec) (self o : ℕ) (v : Value) (w : Threads) where
  -- The object of a thread has been joined: its use is refused with an error, by any thread, and
  -- nothing changes, but a second `joinThread` reads through a null pointer.
  pub joined_thread :
      (other i : ℕ) (before : Threads)
      → join_end other o i before ≡ returns w
      → (thread_eval codec self (handle o ∷ v ∷ []) w
          ≡ returns (fails (message "threadEval: thread is no longer running"), w))
        × (thread_exec codec self (handle o ∷ v ∷ []) w
            ≡ returns (fails (message "threadExec: thread is no longer running"), w))
        × (thread_result codec self (handle o ∷ []) w
            ≡ returns (fails (message "threadResult: thread is no longer running"), w))
        × (join_thread self (handle o ∷ []) w ≡ faults)
  unfolding thread_eval thread_exec thread_result join_thread join_begin wrong_num_args
  joined_thread other i before e =
      let gone : w.objects o ≡ none = joined_none o other i before w e in
      (ground arith, ground arith, ground arith, ground arith)

  -- A thread that did not create the thread of an object gets an error from each of `threadEval`,
  -- `threadExec`, `threadResult` and `joinThread`, and nothing changes.
  pub foreign_thread :
      {i : ℕ}
      → w.objects o ≡ some i
      → ((w.table i).parent == self) ≡ false
      → (thread_eval codec self (handle o ∷ v ∷ []) w
          ≡ returns (fails (message "threadEval: can only be called from parent thread"), w))
        × (thread_exec codec self (handle o ∷ v ∷ []) w
            ≡ returns (fails (message "threadExec: can only be called from parent thread"), w))
        × (thread_result codec self (handle o ∷ []) w
            ≡ returns (fails (message "threadResult: can only be called from parent thread"), w))
        × (join_thread self (handle o ∷ []) w
            ≡ returns
                (answers (fails (message "joinThread: can only be called from parent thread")), w))
  unfolding thread_eval thread_exec thread_result join_thread join_begin wrong_num_args
  foreign_thread {i} h p = (ground arith, ground arith, ground arith, ground arith)
