-- ===== src/Sched/Job.antt =====
-- shared.cc: `Job`, `Trigger` with its subclasses, and `JobCompare`.
use psingthreadlib.Prelude.{
  ℕ, Bool, true, false, not, ◌&&◌, Option, none, List, [], ◌∷◌, length, ltb, leb, ◌==◌,
  if◌then◌else◌, Bytes,
}
use psingthreadlib.Prelude.Int.{ℤ, pos, ltb_ℤ, eq_ℤ}

-- The class of an object, with the fields that the class adds. `eval` to `raw_kernel` are the
-- subclasses of `Job` alone, the others those of `Trigger`. In `set` the flags come before `count`.
pub data JobClass : Type 0 where
  eval exec kernel raw_kernel : JobClass
  proc : (procname : Bytes) → JobClass
  acc_trigger count_trigger : (count : ℕ) → JobClass
  set_trigger : (set : List Bool) → (count : ℕ) → JobClass
  proc_trigger : (procname : Bytes) → (success : Bool) → JobClass

-- A pointer to a job or a pool is a number. `pending_index` is `none` for -1.
pub record Job : Type 0 where
  pub class : JobClass
  pub refcount : ℤ
  pub name : Bytes
  pub pool : Option ℕ
  pub prio : ℤ
  pub id : ℕ
  pub pending_index : Option ℕ
  pub deps : List ℕ
  pub notify : List ℕ
  pub triggers : List ℕ
  pub args : List Bytes
  pub result : Bytes
  pub fast : Bool
  pub done : Bool
  pub queued : Bool
  pub running : Bool
  pub cancelled : Bool

abbrev pub Jobs : Type 0
Jobs = ℕ → Job

abbrev is_trigger : JobClass → Bool
is_trigger (acc_trigger _) = true
is_trigger (count_trigger _) = true
is_trigger (set_trigger _ _) = true
is_trigger (proc_trigger _ _) = true
is_trigger _ = false

-- The constructors `Job()` and `Trigger()`; a trigger is fast.
abbrev pub new_job : JobClass → Job
new_job class = record {
  class = class;
  refcount = pos 0;
  name = [];
  pool = none;
  prio = pos 0;
  id = 0;
  pending_index = none;
  deps = [];
  notify = [];
  triggers = [];
  args = [];
  result = [];
  fast = is_trigger class;
  done = false;
  queued = false;
  running = false;
  cancelled = false;
}

-- `Job::ready`
unfoldable pub deps_done : Jobs → List ℕ → Bool
deps_done jobs [] = true
deps_done jobs (d ∷ ds) = (jobs d).done && deps_done jobs ds

-- What the overrides of `ready` ask for beside the dependencies.
unfoldable pub satisfied : JobClass → List Bytes → Bool
satisfied (acc_trigger count) args = leb count (length args)
satisfied (count_trigger count) args = count == 0
satisfied (set_trigger set count) args = count == length set
satisfied (proc_trigger _ success) args = success
satisfied _ args = true

-- The virtual `ready`.
unfoldable pub ready : Jobs → ℕ → Bool
ready jobs j = deps_done jobs (jobs j).deps && satisfied (jobs j).class (jobs j).args

-- `JobCompare`: is the left job below the right one?
unfoldable pub job_less : Job → Job → Bool
job_less lhs rhs =
    if not lhs.fast && rhs.fast
    then true
    else (if ltb_ℤ lhs.prio rhs.prio
        then true
        else (if eq_ℤ lhs.prio rhs.prio then ltb rhs.id lhs.id else false))
