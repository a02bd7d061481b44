-- ===== src/Sched/Worker.antt =====
-- shared.cc: `Job::run`, `execute` of the subclasses of `Job`, and the loop of `Scheduler::main`.
use psingthreadlib.Prelude.{
  ℕ, zero, suc, ◌+◌, Bool, true, false, not, Option, none, some, List, [], ◌∷◌, ◌++◌, map,
  get_elem?, set, if◌then◌else◌, Bytes, is_empty,
}
use psingthreadlib.Prelude.Outcome.{Outcome, returns, faults, ◌>>=◌, deref}
use psingthreadlib.Value.{Value}
use psingthreadlib.Sched.Job.{JobClass, Job, Jobs, eval, exec, proc, kernel, raw_kernel}
use psingthreadlib.Sched.Queue.{pop_top}
use psingthreadlib.Sched.State.{Sched, at, decref, notify_one}
use psingthreadlib.Sched.Trigger.{Interp, decode_args, trigger_result}
use psingthreadlib.Sched.Notify.{notify_deps}

-- What a worker does next: it leaves the loop, runs a job, or waits for `cond`.
pub data Pick : Type 0 where
  leaves : Pick
  runs : ℕ → Pick
  sleeps : Pick

abbrev pub is_done : Option ℕ → Sched → Bool
is_done none s = false
is_done (some j) s = (s.jobs j).done

abbrev pub signal_more : Sched → Sched
signal_more s = if not (is_empty s.global_queue) then record s { cond = notify_one s.cond } else s

-- The branch for an empty queue of the thread itself.
unfoldable pub pick_global : Sched → Pick × Sched
pick_global s = elim (pop_top s.jobs s.global_queue) [
  | none ↦ (if s.single_threaded then leaves else sleeps, s)
  | some (j, rest) ↦ (runs j, signal_more (record s { global_queue = rest }))
]

unfoldable pub pick_queue : ℕ → List ℕ → Sched → Pick × Sched
unfolding pick_global
pick_queue num [] s = pick_global s
pick_queue num (j ∷ rest) s =
    (runs j, signal_more (record s { thread_queues = set s.thread_queues num rest }))

-- One round of the loop up to the call of `run`; `until` is `info->job`.
unfoldable pub pick : Option ℕ → ℕ → Sched → Outcome (Pick × Sched)
unfolding pick_queue
pick until num s =
    if is_done until s
    then returns (leaves, s)
    else (if s.shutting_down
        then returns (
          leaves,
          record s { shutdown_counter = s.shutdown_counter + 1; response = notify_one s.response },
        )
        else deref (get_elem? s.thread_queues num) >>= λ q. returns (pick_queue num q s))

abbrev mark_running : Job → Job
mark_running job = record job { running = true }

abbrev mark_finished : Job → Job
mark_finished job = record job { running = false; done = true }

abbrev mark_done : Job → Job
mark_done job = record job { done = true }

abbrev pub store_result : Bytes → Job → Job
store_result r job = record job { result = r }

-- `run` up to `execute`: does the job execute?
unfoldable pub run_begin : ℕ → Sched → Bool × Sched
run_begin j s =
    if not (s.jobs j).cancelled then (true, at j mark_running s) else (false, at j mark_done s)

-- `run` behind `execute`.
unfoldable pub run_end : ℕ → Sched → Sched
run_end j s = at j mark_finished s

-- What `main` does behind `run`.
unfoldable pub complete : Interp → ℕ → Sched → Outcome Sched
complete interp j s = notify_deps interp j s >>= λ t.
    returns (record (at j decref t) { response = notify_one t.response })

-- What a job runs while the lock is released, and what it and the other threads make of the pool
-- meanwhile: the interpreter for a quoted command, and the C functions of kernel jobs.
pub record Execution : Type 0 where
  pub evaluate : Bytes → Sched → Value × Sched
  pub call_kernel : (job : ℕ) → List Value → Sched → Bytes × Sched
  pub call_raw : (job : ℕ) (deps : List ℕ) → Sched → Sched

module _ (interp : Interp) (outside : Execution) where
  -- `argv` of `ProcJob` and `KernelJob`: the arguments, then the results of the dependencies.
  unfoldable pub job_args : Jobs → ℕ → List Value
  job_args jobs j =
      decode_args interp (jobs j).args
      ++ decode_args interp (map (λ d. (jobs d).result) (jobs j).deps)

  -- `execute`. `args[0]` and `argv[0]` of an empty vector are faults.
  unfoldable pub execute_class : JobClass → ℕ → Sched → Outcome Sched
  unfolding job_args
  execute_class eval j s = elim ((s.jobs j).args) [
    | [] ↦ faults
    | a ∷ _ ↦
        let (value, s') = outside.evaluate a s in
        returns (at j (store_result (interp.to_string value)) s')
  ]
  execute_class exec j s = elim ((s.jobs j).args) [
    | [] ↦ faults
    | a ∷ _ ↦ returns (outside.evaluate a s).1
  ]
  execute_class (proc name) j s =
      let (value, s') = interp.execute_proc name (job_args s.jobs j) s in
      elim value [
        | none ↦ returns s'
        | some v ↦ returns (at j (store_result (interp.to_string v)) s')
      ]
  execute_class kernel j s = elim (job_args s.jobs j) [
    | [] ↦ faults
    | v ∷ vs ↦
        let (result, s') = outside.call_kernel j (v ∷ vs) s in
        returns (at j (store_result result) s')
  ]
  execute_class raw_kernel j s = returns (outside.call_raw j (s.jobs j).deps s)
  execute_class class j s =
      returns
        (at j (λ job. record job { result = trigger_result interp class job.args job.result }) s)

  -- `Job::run`.
  unfoldable pub run : ℕ → Sched → Outcome Sched
  unfolding execute_class run_begin run_end
  run j s =
      let (executes, s') = run_begin j s in
      if executes
      then (execute_class (s'.jobs j).class j s' >>= λ t. returns (run_end j t))
      else returns s'

  abbrev pub go_on : (Sched → Option (Outcome Sched)) → Outcome Sched → Option (Outcome Sched)
  go_on next (returns t) = next t
  go_on next Outcome.blocks = some Outcome.blocks
  go_on next Outcome.aborts = some Outcome.aborts
  go_on next faults = some faults

  -- What follows the choice: the job is run, or the loop ends.
  abbrev pub round :
      (Sched → Option (Outcome Sched)) → Outcome (Pick × Sched) → Option (Outcome Sched)
  round next (returns (runs j, s)) = go_on next (run j s >>= complete interp j)
  round next (returns (leaves, s)) = some (returns s)
  round next (returns (sleeps, s)) = some (returns s)
  round next Outcome.blocks = some Outcome.blocks
  round next Outcome.aborts = some Outcome.aborts
  round next faults = some faults

  -- The loop of a worker that no other thread disturbs, such as that of a single-threaded pool:
  -- it ends when it leaves or sleeps. `none` means that the fuel ran out.
  unfoldable pub main_loop : ℕ → Option ℕ → ℕ → Sched → Option (Outcome Sched)
  main_loop zero until num s = none
  main_loop (suc fuel) until num s = round (main_loop fuel until num) (pick until num s)
