-- ===== src/Commands/Pools.antt =====
-- shared.cc: the commands `waitJob`, `createTrigger`, `threadPoolExec`, `closeThreadPool`,
-- `currentThreadPool` and `setCurrentThreadPool`. The reference counts of pools are left out.
pub mod Create
pub mod Tests
use psingthreadlib.Prelude.{
  ℕ, zero, suc, ◌+◌, Bool, true, false, not, ◌&&◌, ◌==◌, Option, none, some, List, [], ◌∷◌, String,
  Bytes, if◌then◌else◌, length, eq_bytes, is_empty,
}
use psingthreadlib.Prelude.Int.{pos, negsuc}
use psingthreadlib.Prelude.Outcome.{Outcome, returns, faults, ◌>>=◌, deref}
use psingthreadlib.Value.{Value, nothing, int, string, shared, threadpool, trigger}
use psingthreadlib.Sched.Job.{JobClass, exec, acc_trigger, count_trigger, set_trigger, proc_trigger}
use psingthreadlib.Sched.State.{Sched, at, incref, attach_job, broadcast_job}
use psingthreadlib.Sched.Trigger.{Interp}
use psingthreadlib.Sched.Schedule.{make_job, push_args, set_pool}
use psingthreadlib.Sched.Waiting.{Waiting, waits, over, wait_loop, wait_resume, shutdown}
use psingthreadlib.Commands.Command.{
  Command, Verdict, refused, done, when_ok, int_cmd, string_cmd, of_kind, new_command, ok, test_arg,
  arg, check_argc, check_argc_min, check_argc_between, check_arg, check_init, shared_arg,
}
use psingthreadlib.Commands.Jobs.{abort, job_argument, pointer_arg, count, text_of, in_pool}

-- The kinds of triggers by their names.
abbrev pub acc_name : Bytes
acc_name = b'a' ∷ b'c' ∷ b'c' ∷ []

abbrev pub count_name : Bytes
count_name = b'c' ∷ b'o' ∷ b'u' ∷ b'n' ∷ b't' ∷ []

abbrev pub set_name : Bytes
set_name = b's' ∷ b'e' ∷ b't' ∷ []

abbrev pub proc_name : Bytes
proc_name = b'p' ∷ b'r' ∷ b'o' ∷ b'c' ∷ []

abbrev no_flags : ℕ → List Bool
no_flags zero = []
no_flags (suc n) = false ∷ no_flags n

-- The trigger for an argument that the checks have let pass; a pointer to a text is not negative.
unfoldable pub trigger_class : Bytes → Value → Option JobClass × String
trigger_class kind (int (negsuc _)) = (none, "trigger argument must be a non-negative integer")
trigger_class kind (int (pos n)) =
    if eq_bytes kind acc_name
    then (some (acc_trigger n), "")
    else (if eq_bytes kind count_name
        then (some (count_trigger n), "")
        else (if eq_bytes kind set_name
            then (some (set_trigger (no_flags n) 0), "")
            else (none, "unknown trigger subtype")))
trigger_class kind (string name) = (some (proc_trigger name false), "")
trigger_class kind _ = (none, "unknown trigger subtype")

-- The pool of a command whose first argument may be one; it is missing if the thread has none.
abbrev pub pool_argument : Bool → Option ℕ → Command → Outcome (Option ℕ)
pool_argument with_pool current c = if with_pool then pointer_arg 0 c else returns current

abbrev pub is_missing : Bool → Option ℕ → Bool
is_missing true pool = false
is_missing false none = true
is_missing false (some p) = false

abbrev pub check_pool : Bool → Command → Outcome Command
check_pool with_pool c =
    if with_pool then check_init 0 "threadpool not initialized" c else returns c

-- The checks of `createTrigger` behind the pool, with the kind.
abbrev pub check_kind : ℕ → Command → Outcome (Bytes × Command)
check_kind i c2 =
    check_argc (i + 2) c2 >>= check_arg i string_cmd "trigger subtype must be a string" >>= λ c4.
    arg i c4 >>= text_of >>= λ kind.
    (if eq_bytes kind proc_name
      then check_arg (i + 1) string_cmd "proc trigger argument must be a string" c4
      else check_arg (i + 1) int_cmd "trigger argument must be an integer" c4)
    >>= λ c5. returns (kind, c5)

unfoldable pub create_trigger : Option ℕ → List Value → Sched → Outcome (Verdict × Sched)
unfolding trigger_class
create_trigger current args s =
    let c = new_command "createTrigger" args in
    let with_pool = test_arg 0 (of_kind threadpool) c in
    let i = count with_pool in
    check_argc_min 1 c >>= check_pool with_pool >>= λ c2.
    pool_argument with_pool current c >>= λ pool.
    if is_missing with_pool pool
    then abort "no default threadpool" s
    else (check_kind i c2 >>= λ x. when_ok x.1 s (
        arg (i + 1) c >>= λ a. deref pool >>= λ p. elim ((trigger_class x.0 a).0) [
          | none ↦ abort (trigger_class x.0 a).1 s
          | some cl ↦ in_pool p s (
              let (t, s') = make_job cl [] s in
              returns (done (shared trigger (some t)), at t incref (attach_job t s')))
        ]))

-- The checks of `threadPoolExec`.
abbrev pub exec_checks : Bool → Command → Outcome Command
exec_checks with_pool c = check_argc_between 1 2 c >>= λ c1.
    if with_pool
    then (check_arg 0 (of_kind threadpool) "first argument must be a threadpool" c1
        >>= check_init 0 "threadpool not initialized")
    else returns c1

unfoldable pub thread_pool_exec : Interp → Option ℕ → List Value → Sched → Outcome (Verdict × Sched)
thread_pool_exec interp current args s =
    let c = new_command "threadPoolExec" args in
    let with_pool = length args == 2 in
    exec_checks with_pool c >>= λ c3. pool_argument with_pool current c >>= λ pool.
    if is_missing with_pool pool
    then abort "no current threadpool" s
    else when_ok c3 s (
        deref pool >>= λ p. arg (count with_pool) c >>= λ a. in_pool p s (
          let (j, s') = make_job exec [] s in
          returns (
            done nothing,
            broadcast_job j
                (at j (set_pool s.pool) (at j (push_args (interp.to_string a ∷ [])) s')),
          )))

-- `currentThreadPool`
unfoldable pub current_thread_pool : Option ℕ → List Value → Outcome Verdict
current_thread_pool current args = check_argc 0 (new_command "currentThreadPool" args) >>= λ c1.
    elim current [
      | none ↦ returns (refused (some "no current threadpool"))
      | some p ↦ returns (if ok c1 then done (shared threadpool (some p)) else refused c1.error)
    ]

-- `setCurrentThreadPool`, with the new `currentThreadPoolRef`. The type of the argument is not
-- tested: any shared object becomes the pool, and a value that is no pointer is read through.
abbrev pub initialised : Value → Outcome (Option ℕ)
initialised (shared _ o) = returns o
initialised (int (pos zero)) = returns none
initialised _ = faults

unfoldable pub set_current_thread_pool : Option ℕ → List Value → Outcome (Verdict × Option ℕ)
set_current_thread_pool current args =
    check_argc 1 (new_command "setCurrentThreadPool" args) >>= λ c1.
    if not (ok c1)
    then returns (refused c1.error, current)
    else (arg 0 c1 >>= λ a. initialised a >>= λ o. elim o [
      | none ↦ returns (refused (some "threadpool not initialized"), current)
      | some p ↦ returns (done nothing, some p)
    ])

-- A command that waits has its answer, or sleeps.
pub data Waited : Type 0 where
  asleep : Waited
  answers : Verdict → Waited

-- `waitJob` behind the wait.
unfoldable pub wait_answer : Interp → ℕ → Sched → Verdict
wait_answer interp j s =
    if (s.jobs j).cancelled
    then refused (some "job has been cancelled")
    else (if is_empty (s.jobs j).result
        then done nothing
        else done (interp.from_string (s.jobs j).result))

abbrev pub waited : Interp → ℕ → Waiting × Sched → Waited × Sched
waited interp j (waits, s) = (asleep, s)
waited interp j (over, s) = (answers (wait_answer interp j s), s)

abbrev told : Outcome (Verdict × Sched) → Outcome (Waited × Sched)
told m = m >>= λ (v, s). returns (answers v, s)

-- `waitJob` of a pool with threads, up to the wait.
unfoldable pub wait_job_command : Interp → List Value → Sched → Outcome (Waited × Sched)
unfolding wait_loop wait_answer
wait_job_command interp args s =
    check_argc 1 (new_command "waitJob" args) >>= job_argument >>= λ c3.
    if not (ok c3)
    then returns (answers (refused c3.error), s)
    else (shared_arg 0 c3 >>= λ j. elim ((s.jobs j).pool) [
      | none ↦ told (abort "job has not yet been started or scheduled" s)
      | some p ↦
          if p == s.pool
          then returns (waited interp j (wait_loop j s))
          else told (in_pool p s faults)
    ])

-- The command goes on when its thread was woken.
unfoldable pub wait_job_resume : Interp → ℕ → Sched → Waited × Sched
unfolding wait_resume wait_answer
wait_job_resume interp j s = waited interp j (wait_resume j s)

-- `closeThreadPool` of a pool with threads, up to the wait; the default is to wait for the queue.
abbrev waits_first : List Value → Bool
waits_first (_ ∷ int (pos zero) ∷ []) = false
waits_first _ = true

unfoldable pub close_thread_pool : List Value → Sched → Outcome (Waited × Sched)
unfolding shutdown
close_thread_pool args s =
    let c = new_command "closeThreadPool" args in
    check_argc_between 1 2 c >>= λ c1.
    check_arg 0 (of_kind threadpool) "first argument must be a threadpool" c1 >>= λ c2.
    check_init 0 "threadpool not initialized" c2 >>= λ c3.
    (if not (length args == 0) && not (length args == 1)
      then check_arg 1 int_cmd "optional argument must be an integer" c3
      else returns c3)
    >>= λ c4.
        if not (ok c4)
        then returns (answers (refused c4.error), s)
        else (shared_arg 0 c4 >>= λ p.
            if p == s.pool
            then (let (w, t) = shutdown (waits_first args) s in
                returns (elim w [ waits ↦ asleep | over ↦ answers (done nothing) ], t))
            else told (in_pool p s faults))
