-- ===== src/Threads/Commands.antt =====
-- shared.cc: `createThread`, `joinThread`, `threadEval`, `threadExec` and `threadResult`.
pub mod Laws
use psingthreadlib.Prelude.{
  ℕ, ◌+◌, Bool, true, false, not, Option, none, some, List, [], ◌∷◌, String, ◌==◌, if◌then◌else◌,
  modify, Bytes,
}
use psingthreadlib.Prelude.Int.{ℤ, pos}
use psingthreadlib.Prelude.Outcome.{Outcome, returns, faults, ◌>>=◌, deref}
use psingthreadlib.Value.{Kind, Value, nothing, int, shared, thread}
use psingthreadlib.Threads.State.{
  ThreadState, request, Takes, not_running, sleeps, got, take_result, take_resume,
}
use psingthreadlib.Threads.Table.{
  Threads, Created, made, failed, create_interpreter_thread, join_begin, join_end,
}
use psingthreadlib.Commands.Reply as Reply
use psingthreadlib.Commands.Reply.{
  Error, message, Reply, fails, gives, Codec, wrong_num_args, is_kind, object_of,
}

abbrev pub Answer : Type 0
Answer = Outcome (Reply × Threads)

-- A command gives its answer, or the thread waits in `pthread_join` for the thread of this index.
pub data Joins : Type 0 where
  answers : Reply → Joins
  waits_for : (object index : ℕ) → Joins

abbrev refuse : Error → Threads → Answer
refuse e w = returns (fails e, w)

abbrev tell : String → Threads → Answer
tell text w = refuse (message text) w

abbrev put_state : ℕ → ThreadState → Threads → Threads
put_state i ts w = record w { table = modify (λ _. ts) i w.table }

-- `wrong_num_args` and the type of the first argument, then its object: a null pointer is read
-- through.
abbrev with_thread_one : String → String → List Value → Threads → (ℕ → Answer) → Answer
with_thread_one name no_thread args w k = elim (wrong_num_args name args 1) [
  | some e ↦ refuse e w
  | none ↦ elim args [
    | [] ↦ faults
    | a ∷ _ ↦ if not (is_kind thread a) then tell no_thread w else (deref (object_of a) >>= k)
  ]
]

abbrev with_thread_two : String → String → List Value → Threads → (ℕ → Value → Answer) → Answer
with_thread_two name no_thread args w k = elim (wrong_num_args name args 2) [
  | some e ↦ refuse e w
  | none ↦ elim args [
    | a ∷ b ∷ _ ↦
        if not (is_kind thread a) then tell no_thread w else (deref (object_of a) >>= λ o. k o b)
    | _ ↦ faults
  ]
]

-- The tests on `ts`: a thread that was joined has none.
abbrev with_state : ℕ → ℕ → String → String → Threads → (ℕ → Answer) → Answer
with_state self o no_parent no_thread w k = elim (w.objects o) [
  | none ↦ tell no_thread w
  | some i ↦ if not ((w.table i).parent == self) then tell no_parent w else k i
]

-- `createThread`, with threads compiled in; `code` is what `pthread_create` returns.
unfoldable pub create_thread : ℕ → ℤ → List Value → Threads → Answer
create_thread self code [] w = create_interpreter_thread self code w >>= λ (created, w').
    returns
      (elim created [ made o ↦ gives (shared thread (some o)) | failed e ↦ fails (message e) ], w')
create_thread self code (_ ∷ _) w = tell "createThread: wrong number of arguments" w

module _ (codec : Codec) where
  open codec use {to_string, from_string}

  -- `threadEval` and `threadExec`, which differ in the command and in their name.
  abbrev asks : String → String → String → String → Bytes → ℕ → List Value → Threads → Answer
  asks name no_thread no_parent no_longer cmd self args w =
      with_thread_two name no_thread args w (λ o b. with_state self o no_parent no_longer w (λ i.
        request self cmd (to_string b) (w.table i) >>= λ (accepted, ts).
        let w' = put_state i ts w in
        if accepted then returns (gives nothing, w') else tell no_longer w'))

  unfoldable pub thread_eval : ℕ → List Value → Threads → Answer
  thread_eval =
      asks "threadEval" "threadEval: argument is not a thread"
        "threadEval: can only be called from parent thread"
        "threadEval: thread is no longer running" (b'e' ∷ [])

  unfoldable pub thread_exec : ℕ → List Value → Threads → Answer
  thread_exec =
      asks "threadExec" "threadExec: argument is not a thread"
        "threadExec: can only be called from parent thread"
        "threadExec: thread is no longer running" (b'x' ∷ [])

  abbrev reply_of : Takes → Reply
  reply_of (got expr) = gives (from_string expr)
  reply_of (sleeps depth) = Reply.sleeps depth
  reply_of not_running = fails (message "threadResult: thread is no longer running")

  unfoldable pub thread_result : ℕ → List Value → Threads → Answer
  thread_result self args w =
      with_thread_one "threadResult" "threadResult: argument is not a thread" args w (λ o.
        with_state self o "threadResult: can only be called from parent thread"
          "threadResult: thread is no longer running" w
          (λ i. take_result self (w.table i) >>= λ (r, ts). returns (reply_of r, put_state i ts w)))

  -- The command goes on when its thread was woken.
  unfoldable pub thread_result_resume : ℕ → (depth i : ℕ) → Threads → Answer
  thread_result_resume self depth i w =
      take_resume self depth (w.table i) >>= λ (r, ts). returns (reply_of r, put_state i ts w)

-- `joinThread` up to `pthread_join`.
unfoldable pub join_thread : ℕ → List Value → Threads → Outcome (Joins × Threads)
join_thread self args w = elim (wrong_num_args "joinThread" args 1) [
  | some e ↦ returns (answers (fails e), w)
  | none ↦ elim args [
    | [] ↦ faults
    | a ∷ _ ↦
        if not (is_kind thread a)
        then returns (answers (fails (message "joinThread: argument is not a thread")), w)
        else (deref (object_of a) >>= λ o. join_begin self o w >>= λ (index, w'). elim index [
          | none ↦
              returns
                (answers (fails (message "joinThread: can only be called from parent thread")), w')
          | some i ↦ returns (waits_for o i, w')
        ])
  ]
]

-- `joinThread` from `pthread_join` on.
unfoldable pub join_thread_end : ℕ → (o i : ℕ) → Threads → Answer
join_thread_end self o i w = join_end self o i w >>= λ w'. returns (gives nothing, w')

-- `threadID` and `mainThread`: an error, or else the value; the main thread has the number zero.
unfoldable pub thread_id : ℕ → List Value → Option Error × Value
thread_id number args = (wrong_num_args "threadID" args 0, int (pos number))

unfoldable pub main_thread : ℕ → List Value → Option Error × Value
main_thread number args =
    (wrong_num_args "mainThread" args 0, int (pos (if number == 0 then 1 else 0)))
