-- ===== src/Commands/Pools/Create.antt =====
-- shared.cc: the command `createThreadPool`, over the table of threads.
pub mod Laws
use psingthreadlib.Prelude.{
  ℕ, zero, suc, Bool, true, false, not, ◌&&◌, ◌==◌, leb, Option, none, some, List, [], ◌∷◌, String,
  if◌then◌else◌,
}
use psingthreadlib.Prelude.Int.{ℤ, pos, negsuc}
use psingthreadlib.Prelude.Outcome.{Outcome, returns, faults, ◌>>=◌}
use psingthreadlib.Value.{Value, int, shared, threadpool}
use psingthreadlib.Sched.Job.{Jobs}
use psingthreadlib.Sched.State.{Sched, new_sched}
use psingthreadlib.Threads.Table.{Threads, made, failed, new_thread}
use psingthreadlib.Commands.Command.{
  Command, Verdict, refused, done, report, int_cmd, new_command, ok, arg, check_argc_between,
  check_arg,
}

-- The loop over the threads of a pool: their indices in the table, or the error at which it stops.
pub data Started : Type 0 where
  all_started : List ℕ → Started
  stopped : String → Started

abbrev pub with_first : ℕ → Started → Started
with_first i (all_started is) = all_started (i ∷ is)
with_first i (stopped e) = stopped e

-- `codes` are the results of the calls of `pthread_create`, by `info->num`.
unfoldable pub start_threads : ℕ → (ℕ → ℤ) → ℕ → ℕ → Threads → Outcome (Started × Threads)
start_threads self codes zero num w = returns (all_started [], w)
start_threads self codes (suc n) num w = new_thread self (codes num) w >>= λ x. elim (x.0) [
  | failed e ↦ returns (stopped e, x.1)
  | made i ↦ start_threads self codes n (suc num) x.1 >>= λ y. returns (with_first i y.0, y.1)
]

-- The checks of the number; `have_threads` is the setting of the build.
abbrev pub check_number : Bool → ℤ → Command → Command
check_number have_threads (negsuc _) c =
    if not have_threads
    then report "in single-threaded mode, number of threads must be zero" c
    else report "number of threads must be non-negative" c
check_number have_threads (pos n) c =
    if not have_threads && not (n == 0)
    then report "in single-threaded mode, number of threads must be zero" c
    else (if leb 256 n then report "number of threads too large" c else c)

abbrev pub number_of : Value → Outcome ℤ
number_of (int n) = returns n
number_of _ = faults

abbrev pub count_of : ℤ → ℕ
count_of (pos n) = n
count_of (negsuc _) = 0

-- The state of the new pool, where there is one, and the table of threads.
abbrev pub Answer : Type 0
Answer = Outcome (Verdict × Option Sched × Threads)

-- The pool at the address `pool`, whose jobs will be `jobs`.
unfoldable pub make_pool : ℕ → (ℕ → ℤ) → ℕ → Jobs → ℕ → ℕ → Threads → Answer
unfolding start_threads
make_pool self codes pool jobs allocated n w = start_threads self codes n 0 w >>= λ x. elim (x.0) [
  | stopped e ↦ returns (refused (some e), none, x.1)
  | all_started is ↦
      returns (done (shared threadpool (some pool)), some (new_sched pool jobs allocated n), x.1)
]

unfoldable pub create_thread_pool :
    Bool → ℕ → (ℕ → ℤ) → ℕ → Jobs → ℕ → List Value → Threads → Answer
unfolding make_pool
create_thread_pool have_threads self codes pool jobs allocated args w =
    check_argc_between 1 2 (new_command "createThreadPool" args)
    >>= check_arg 0 int_cmd "first argument must be an integer"
    >>= λ c.
        if not (ok c)
        then returns (refused c.error, none, w)
        else (arg 0 c >>= number_of >>= λ n.
            let c' = check_number have_threads n c in
            if not (ok c')
            then returns (refused c'.error, none, w)
            else make_pool self codes pool jobs allocated (count_of n) w)
