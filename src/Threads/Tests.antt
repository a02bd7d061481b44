-- ===== src/Threads/Tests.antt =====
-- Runs of threads with their parent, and of the table of threads.
use psingthreadlib.Prelude.{
  ℕ, ◌+◌, ◌<◌, ◌≡◌, ◌≢◌, refl, ◌⊎◌, true, false, none, some, List, [], ◌∷◌, ◌++◌, Bytes, modify,
}
use psingthreadlib.Prelude.Int.{pos}
use psingthreadlib.Prelude.Outcome.{returns, faults}
use psingthreadlib.Value.{nothing, int}
use psingthreadlib.Sync.Lock.{lock, unlock, wait_begin, signal}
use psingthreadlib.Threads.State.{ThreadState, request, take_result}
use psingthreadlib.Threads.Worker.{serve_begin, serve_resume, sleeps}
use psingthreadlib.Threads.Table.{
  Threads, no_threads, new_thread, made, failed, begin_state, join_end,
}
use psingthreadlib.Threads.Table.Bounds.{IsFirst, new_thread_bounds}
use psingthreadlib.Threads.Commands.{answers, thread_eval, thread_exec, thread_result, join_thread}
use psingthreadlib.Threads.Commands.Laws.{handle, joined_thread, foreign_thread}
use psingthreadlib.Threads.Protocol.{
  Request, System, waiting, initial, requests, begins, takes, Reach, start, later, after, outputs,
  frames, quit_frame,
}
use psingthreadlib.Threads.Protocol.Laws.{answers_in_order, requests_served}
use psingthreadlib.Commands.Reply.{message, fails, Codec}

-- An interpreter that numbers what it evaluates.
abbrev numbering : ℕ → Bytes → Bytes × ℕ
numbering n expr = (n ∷ expr, n + 1)

abbrev Run : System ℕ → Type 0
Run = Reach numbering 1 2 5 0

abbrev first : System ℕ
first = initial numbering 1 2 5 0

-- The parent asks twice, once for a value; the thread begins, and serves both; and the parent takes
-- the value and asks again.
abbrev one_asked : ThreadState
one_asked = record first.ts { to_thread = (b'e' ∷ []) ∷ (7 ∷ []) ∷ [] }

abbrev two_asked : ThreadState
two_asked = record one_asked { to_thread = (b'e' ∷ []) ∷ (7 ∷ []) ∷ (b'x' ∷ []) ∷ (8 ∷ []) ∷ [] }

abbrev both_served : ThreadState
both_served = record two_asked {
  to_thread = [];
  from_thread = (0 ∷ 7 ∷ []) ∷ [];
  to_cond = record { waiting = 1; asleep = 1 };
}

abbrev value_taken : ThreadState
value_taken = record both_served { from_thread = [] }

abbrev asked_again : ThreadState
asked_again = record value_taken {
  to_thread = (b'e' ∷ []) ∷ (9 ∷ []) ∷ [];
  to_cond = record { waiting = 1; asleep = 0 };
}

abbrev last : System ℕ
last = record first {
  ts = asked_again;
  interp = 2;
  worker = waiting;
  sent = (true, 7 ∷ []) ∷ (false, 8 ∷ []) ∷ (true, 9 ∷ []) ∷ [];
  received = (0 ∷ 7 ∷ []) ∷ [];
}

reaches : Run last
unfolding request take_result lock unlock signal wait_begin serve_begin
reaches =
    later
      (later
        (later
          (later (later start (requests true (7 ∷ []) {t = one_asked} refl refl refl))
            (requests false (8 ∷ []) {t = two_asked} refl refl refl))
          (begins (sleeps 1) 2 {t = both_served} refl refl))
        (takes (0 ∷ 7 ∷ []) {t = value_taken} refl refl refl))
      (requests true (9 ∷ []) {t = asked_again} refl refl refl)

answers_in_order_example :
    (ran : List Request) × (left : List Request) × (last.sent ≡ ran ++ left)
    × (last.ts.to_thread ≡ frames left ++ quit_frame false)
    × (last.received ++ last.ts.from_thread ≡ outputs numbering 0 ran)
    × (last.interp ≡ after numbering 0 ran)
answers_in_order_example = answers_in_order numbering 0 1 2 reaches

requests_served_example :
    (last.ts.to_thread ≢ [] → 0 < 1)
    × ((left : List Request) × (t : ThreadState) × (last.ts.to_thread
          ≡ frames left ++ quit_frame false)
        × (serve_resume numbering 2 1 2 last.ts ≡ returns (sleeps 1, after numbering 2 left, t))
        × (t.from_thread ≡ [] ++ outputs numbering 2 left)
        × (t.to_thread ≡ []))
requests_served_example = requests_served numbering 0 1 2 reaches refl

new_thread_bounds_example :
    ((i : ℕ) × (i < 128)
      × IsFirst 0 i no_threads.table
      × (new_thread 1 (pos 0) no_threads
          ≡ returns
              (made i, record no_threads { table = modify (begin_state 1 i) i no_threads.table })))
    ⊎ (((i : ℕ) → i < 128 → (no_threads.table i).active ≡ true)
        × (new_thread 1 (pos 0) no_threads
            ≡ returns (failed "createThread: too many threads", no_threads)))
new_thread_bounds_example = new_thread_bounds 1 (pos 0) no_threads refl refl

-- Thread 1 has made the thread of the entry 0, which has ended.
abbrev with_one : Threads
with_one = record no_threads {
  table = modify (λ ts. record (begin_state 1 0 ts) { ended = true }) 0 no_threads.table;
  objects = modify (λ _. some 0) 4 no_threads.objects;
  allocated = 5;
}

abbrev identity : Codec
identity = record { to_string = λ v. []; from_string = λ s. nothing }

foreign_thread_example :
    (thread_eval identity 9 (handle 4 ∷ int (pos 3) ∷ []) with_one
      ≡ returns (fails (message "threadEval: can only be called from parent thread"), with_one))
    × (thread_exec identity 9 (handle 4 ∷ int (pos 3) ∷ []) with_one
        ≡ returns (fails (message "threadExec: can only be called from parent thread"), with_one))
    × (thread_result identity 9 (handle 4 ∷ []) with_one
        ≡ returns (fails (message "threadResult: can only be called from parent thread"), with_one))
    × (join_thread 9 (handle 4 ∷ []) with_one
        ≡ returns (
          answers (fails (message "joinThread: can only be called from parent thread")),
          with_one,
        ))
foreign_thread_example = foreign_thread identity 9 4 (int (pos 3)) with_one refl refl

abbrev joined : Threads
joined = record with_one {
  table = modify (λ ts. record ts { running = false; active = false }) 0 with_one.table;
  objects = modify (λ _. none) 4 with_one.objects;
}

joins_it : join_end 1 4 0 with_one ≡ returns joined
unfolding join_end lock unlock
joins_it = refl

joined_thread_example :
    (thread_eval identity 9 (handle 4 ∷ int (pos 3) ∷ []) joined
      ≡ returns (fails (message "threadEval: thread is no longer running"), joined))
    × (thread_exec identity 9 (handle 4 ∷ int (pos 3) ∷ []) joined
        ≡ returns (fails (message "threadExec: thread is no longer running"), joined))
    × (thread_result identity 9 (handle 4 ∷ []) joined
        ≡ returns (fails (message "threadResult: thread is no longer running"), joined))
    × (join_thread 9 (handle 4 ∷ []) joined ≡ faults)
joined_thread_example = joined_thread identity 9 4 (int (pos 3)) joined 1 0 with_one joins_it
