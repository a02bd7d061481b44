-- ===== src/Commands/Jobs.antt =====
-- shared.cc: `createJob`, `startJob`, `cancelJob`, `jobCancelled` and `currentJob`, and the functions
-- of libthread.h on one job. `current` is `currentThreadPoolRef`, and `running` is `currentJobRef`.
use psingthreadlib.Prelude.{
  ℕ, zero, suc, ◌+◌, Bool, true, false, ◌&&◌, ◌==◌, Option, none, some, List, [], ◌∷◌, map, String,
  Bytes, if◌then◌else◌,
}
use psingthreadlib.Prelude.Int.{ℤ, pos}
use psingthreadlib.Prelude.Outcome.{Outcome, returns, faults, ◌>>=◌, deref}
use psingthreadlib.Value.{Value, nothing, int, string, shared, threadpool, job}
use psingthreadlib.Sched.Job.{proc, eval}
use psingthreadlib.Sched.State.{Sched, at, incref, attach_job}
use psingthreadlib.Sched.Cancel.{cancel_job}
use psingthreadlib.Sched.Trigger.{Interp}
use psingthreadlib.Sched.Schedule.{make_job, push_args, set_prio, has_pool}
use psingthreadlib.Commands.Command.{
  Command, Verdict, refused, done, elsewhere, when_ok, int_cmd, string_cmd, command_cmd, of_kind,
  new_command, ok, test_arg, arg, check_argc, check_argc_min, check_argc_between, check_arg,
  check_arg_either, check_init, shared_arg,
}
use psingthreadlib.Commands.Triggers.{truth}

-- `cmd.abort`
abbrev pub abort : String → Sched → Outcome (Verdict × Sched)
abort err s = returns (refused (some err), s)

-- `set_result(type_job, new_shared(job))`
abbrev pub give_job : ℕ → Sched → Verdict × Sched
give_job j s = (done (shared job (some j)), at j incref s)

-- `shared_arg`, also of a null pointer, which is not read through.
abbrev pub pointer_arg : ℕ → Command → Outcome (Option ℕ)
pointer_arg i cmd = arg i cmd >>= λ a. elim a [ shared _ o ↦ returns o | _ ↦ faults ]

abbrev pub count : Bool → ℕ
count b = if b then 1 else 0

abbrev pub drop : ℕ → List Value → List Value
drop zero args = args
drop (suc n) [] = []
drop (suc n) (_ ∷ args) = drop n args

abbrev pub text_of : Value → Outcome Bytes
text_of (string s) = returns s
text_of _ = faults

abbrev pub int_at : Bool → ℕ → Command → ℤ
int_at false i cmd = pos 0
int_at true i cmd = elim (arg i cmd) [ returns (int n) ↦ n | _ ↦ pos 0 ]

-- What a command does in a pool: here if it is this one.
abbrev pub in_pool : ℕ → Sched → Outcome (Verdict × Sched) → Outcome (Verdict × Sched)
in_pool p s k = if p == s.pool then k else returns (elsewhere p, s)

-- The pool of the job, for `waitJob`, `cancelJob` and `jobCancelled`.
abbrev pub in_its_pool : ℕ → Sched → Outcome (Verdict × Sched) → Outcome (Verdict × Sched)
in_its_pool j s k = elim ((s.jobs j).pool) [
  | none ↦ abort "job has not yet been started or scheduled" s
  | some p ↦ in_pool p s k
]

-- The checks of `createJob`.
abbrev pub create_checks : List Value → Outcome Command
create_checks args =
    check_argc_min 1 (new_command "createJob" args)
    >>= check_arg_either 0 string_cmd command_cmd "job name must be a string or quote expression"

-- The place of the job among the arguments of `startJob`: a pool and a priority may stand before it.
abbrev pub job_place : Command → ℕ
job_place c =
    let with_pool = count (test_arg 0 (of_kind threadpool) c) in
    with_pool + count (test_arg with_pool int_cmd c)

-- The checks of `startJob`.
abbrev pub start_checks : List Value → Outcome Command
start_checks args =
    let c = new_command "startJob" args in
    let with_pool = test_arg 0 (of_kind threadpool) c in
    let first = job_place c in
    check_argc_min 1 c
    >>= check_argc_min (1 + count with_pool)
    >>= (λ c2. if with_pool then check_init 0 "threadpool not initialized" c2 else returns c2)
    >>= check_arg_either first (of_kind job) string_cmd "job argument must be a job or string"
    >>= (λ c4.
        if ok c4 && test_arg first (of_kind job) c
        then check_init first "job not initialized" c4
        else returns c4)

-- The checks of `cancelJob`, `jobCancelled` and `waitJob` behind the number of arguments.
abbrev pub job_argument : Command → Outcome Command
job_argument c =
    check_arg 0 (of_kind job) "argument must be a job" c >>= check_init 0 "job not initialized"

module _ (interp : Interp) where
  open interp use {to_string}

  -- `new ProcJob(procname)` and `new EvalJob()`, with their first arguments.
  abbrev pub new_proc : Bytes → Sched → ℕ × Sched
  new_proc procname s = make_job (proc procname) procname s

  -- A job for a command with more arguments is made although the command is refused.
  unfoldable pub create_job : List Value → Sched → Outcome (Verdict × Sched)
  create_job args s = create_checks args >>= λ c2. when_ok c2 s (
      arg 0 c2 >>= λ a.
      if test_arg 0 string_cmd c2
      then (text_of a >>= λ name.
          let (j, s') = new_proc name s in
          returns (give_job j (at j (push_args (map to_string (drop 1 args))) s')))
      else (check_argc 1 c2 >>= λ c3.
          let (j, s') = make_job eval [] s in
          let (result, t) = give_job j (at j (push_args (to_string a ∷ [])) s') in
          returns (if ok c3 then result else refused c3.error, t)))

  -- The job of the argument, or a new one for a procedure.
  abbrev pub job_of : Value → Sched → Outcome (ℕ × Sched)
  job_of (shared job o) s = deref o >>= λ j. returns (j, s)
  job_of (string name) s = returns (new_proc name s)
  job_of _ s = faults

  -- `startJob` from the arguments for the job on: they are pushed before the job is looked at.
  unfoldable pub start_with : ℤ → List Bytes → ℕ → Sched → Outcome (Verdict × Sched)
  start_with prio more j s =
      let s' = at j (push_args more) s in
      if has_pool (s'.jobs j).pool
      then abort "job has already been scheduled" s'
      else returns (give_job j (attach_job j (at j (set_prio prio) s')))

  abbrev pub pool_of : Bool → Option ℕ → Command → Outcome (Option ℕ)
  pool_of true current cmd = shared_arg 0 cmd >>= λ p. returns (some p)
  pool_of false current cmd = returns current

  unfoldable pub start_job_command : Option ℕ → List Value → Sched → Outcome (Verdict × Sched)
  unfolding start_with
  start_job_command current args s =
      let c = new_command "startJob" args in
      let with_pool = test_arg 0 (of_kind threadpool) c in
      let with_prio = test_arg (count with_pool) int_cmd c in
      let first = job_place c in
      start_checks args >>= λ c5. when_ok c5 s (
        pool_of with_pool current c >>= λ pool. elim pool [
          | none ↦ abort "no current threadpool defined" s
          | some p ↦ in_pool p s (
              arg first c >>= λ a. job_of a s >>= λ x.
              start_with (int_at with_prio (count with_pool) c)
                (map to_string (drop (1 + first) args)) x.0 x.1)
        ])

-- `cancelJob`
unfoldable pub cancel_job_command : List Value → Sched → Outcome (Verdict × Sched)
cancel_job_command args s = check_argc 1 (new_command "cancelJob" args) >>= job_argument >>= λ c.
    when_ok c s
      (shared_arg 0 c >>= λ j. in_its_pool j s (cancel_job j s >>= λ t. returns (done nothing, t)))

-- `jobCancelled`, of a job or of the job that runs. A pointer is read from the argument before the
-- result of the checks is looked at.
unfoldable pub job_cancelled : Option ℕ → List Value → Sched → Outcome (Verdict × Sched)
job_cancelled running args s = check_argc_between 0 1 (new_command "jobCancelled" args) >>= λ c1.
    elim args [
      | a ∷ [] ↦ job_argument c1 >>= λ c2. pointer_arg 0 c2 >>= λ o.
          when_ok c2 s
            (deref o >>= λ j. in_its_pool j s (returns (done (truth (s.jobs j).cancelled), s)))
      | _ ↦ elim running [
        | none ↦ abort "no current job" s
        | some j ↦ when_ok c1 s (in_its_pool j s (returns (done (truth (s.jobs j).cancelled), s)))
      ]
    ]

-- `currentJob`
unfoldable pub current_job : Option ℕ → List Value → Sched → Outcome (Verdict × Sched)
current_job running args s = check_argc 0 (new_command "currentJob" args) >>= λ c1. elim running [
  | none ↦ abort "no current job" s
  | some j ↦
      let (result, t) = give_job j s in returns (if ok c1 then result else refused c1.error, t)
]
