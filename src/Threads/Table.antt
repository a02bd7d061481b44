-- ===== src/Threads/Table.antt =====
-- shared.cc: the table of threads, `newThread` and `joinInterpreterThread`.
pub mod Bounds
use psingthreadlib.Prelude.{
  ℕ, zero, suc, ◌+◌, Bool, true, false, not, ◌&&◌, Option, none, some, List, [], ◌∷◌, String, ◌==◌,
  if◌then◌else◌, modify,
}
use psingthreadlib.Prelude.Int.{ℤ, pos, ltb_ℤ}
use psingthreadlib.Prelude.Outcome.{Outcome, returns, blocks, faults, ◌>>=◌}
use psingthreadlib.Sync.Lock.{Lock, new_lock, lock, unlock}
use psingthreadlib.Threads.State.{ThreadState, new_state, ask_to_quit}

abbrev pub max_threads : ℕ
max_threads = 128

abbrev pub Table : Type 0
Table = ℕ → ThreadState

-- `thread_state` and `thread_lock`, and the objects of class `InterpreterThread`, of which `ts` is
-- what `objects` gives; those made so far are below `allocated`.
pub record Threads : Type 0 where
  pub table : Table
  pub thread_lock : Lock
  pub objects : ℕ → Option ℕ
  pub allocated : ℕ

-- As `mod_init` leaves it.
abbrev pub no_threads : Threads
no_threads = record {
  table = λ _. new_state;
  thread_lock = new_lock false;
  objects = λ _. none;
  allocated = 0;
}

-- The loop over the table, with the rounds left.
unfoldable pub find_free : ℕ → ℕ → Table → Option ℕ
find_free zero i table = none
find_free (suc rounds) i table =
    let rest = find_free rounds (suc i) table in if not (table i).active then some i else rest

abbrev pub begin_state : ℕ → ℕ → ThreadState → ThreadState
begin_state self i ts = record ts {
  index = some i;
  parent = self;
  active = true;
  running = true;
  to_thread = [];
  from_thread = [];
  ended = false;
}

pub data Created : Type 0 where
  made : ℕ → Created
  failed : String → Created

-- What `newThread` does to the table; `code` is what `pthread_create` returns.
unfoldable pub take_slot : ℕ → ℤ → Table → Created × Table
take_slot self code table = elim (find_free max_threads 0 table) [
  | none ↦ (failed "createThread: too many threads", table)
  | some i ↦ (
    if ltb_ℤ code (pos 0)
        then failed "createThread: internal error: failed to create thread"
        else made i,
    modify (begin_state self i) i table,
  )
]

unfoldable pub new_thread : ℕ → ℤ → Threads → Outcome (Created × Threads)
new_thread self code w = lock self w.thread_lock >>= λ l.
    let (created, table) = take_slot self code w.table in
    unlock self l >>= λ l'. returns (created, record w { table = table; thread_lock = l' })

-- `createInterpreterThread`; the name of the object is the index.
unfoldable pub create_interpreter_thread : ℕ → ℤ → Threads → Outcome (Created × Threads)
create_interpreter_thread self code w = new_thread self code w >>= λ (created, w'). elim created [
  | failed e ↦ returns (failed e, w')
  | made i ↦ returns (
    made w'.allocated,
    record w' {
      objects = modify (λ _. some i) w'.allocated w'.objects;
      allocated = w'.allocated + 1;
    },
  )
]

abbrev retire : ThreadState → ThreadState
retire ts = record ts { running = false; active = false }

-- `joinInterpreterThread` from `pthread_join` on, which waits for the end of the thread.
unfoldable pub join_end : ℕ → ℕ → ℕ → Threads → Outcome Threads
join_end self o i w =
    if not (w.table i).ended
    then blocks
    else (lock self w.thread_lock >>= λ l. unlock self l >>= λ l'. returns (record w {
      table = modify retire i w.table;
      objects = modify (λ _. none) o w.objects;
      thread_lock = l';
    }))

-- `joinInterpreterThread` of the object `o`, up to `pthread_join`: none for a caller that is not the
-- parent, else the index of the thread. Without a state it locks through a null pointer.
unfoldable pub join_begin : ℕ → ℕ → Threads → Outcome (Option ℕ × Threads)
join_begin self o w = elim (w.objects o) [
  | none ↦ faults
  | some i ↦
      if not ((w.table i).parent == self)
      then returns (none, w)
      else (ask_to_quit self (w.table i) >>= λ ts.
          returns (some i, record w { table = modify (λ _. ts) i w.table }))
]
