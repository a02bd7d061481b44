-- ===== src/Sched/Trigger.antt =====
-- shared.cc: `accept`, `activate` and `execute` of the subclasses of `Trigger`.
pub mod Laws
use psingthreadlib.Prelude.{
  ℕ, zero, suc, ◌+◌, ◌-◌, Bool, true, false, not, ◌||◌, Option, none, some, List, [], ◌∷◌, ◌++◌,
  length, set, ltb, leb, ◌==◌, if◌then◌else◌, modify, Bytes, is_empty,
}
use psingthreadlib.Prelude.Int.{ℤ, pos, negsuc}
use psingthreadlib.Prelude.Outcome.{Outcome, returns, faults, ◌>>=◌}
use psingthreadlib.Value.{Value, nothing, int, list, Values, nil, cons, is_int}
use psingthreadlib.Sched.Job.{
  JobClass, Job, Jobs, acc_trigger, count_trigger, set_trigger, proc_trigger, ready,
}
use psingthreadlib.Sched.State.{Sched, at}

-- What the scheduler calls of lintree.cc and of the interpreter: the encoding of values, and
-- `executeProc`, which gives the procedure's value, or `none` for an error. It runs without the
-- lock, so it also gives the state that the other threads have left.
pub record Interp : Type 0 where
  pub to_string : Value → Bytes
  pub from_string : Bytes → Value
  pub execute_proc : Bytes → List Value → Sched → Option Value × Sched
  -- The triggers that are at most chained to a job while its triggers fire.
  pub rounds : ℕ

-- A null `arg` is the empty list; `SetTrigger` reads the type of its first value.
unfoldable pub accept : JobClass → List Value → Outcome Bool
accept (acc_trigger _) arg = returns true
accept (count_trigger _) arg = returns (is_empty arg)
accept (set_trigger _ _) [] = faults
accept (set_trigger _ _) (v ∷ _) = returns (is_int v)
accept (proc_trigger _ _) arg = returns true
accept _ arg = faults

abbrev pub push_arg : Bytes → Job → Job
push_arg s job = record job { args = job.args ++ s ∷ [] }

abbrev pub set_class : JobClass → Job → Job
set_class c job = record job { class = c }

-- `value < 0 || value >= count` returns; so does a flag that is set.
abbrev get_flag : List Bool → ℕ → Bool
get_flag [] i = false
get_flag (b ∷ bs) zero = b
get_flag (b ∷ bs) (suc i) = get_flag bs i

unfoldable pub set_activate : List Bool → ℕ → ℤ → JobClass
set_activate flags count (negsuc _) = set_trigger flags count
set_activate flags count (pos value) =
    if leb count value || get_flag flags value
    then set_trigger flags count
    else set_trigger (set flags value true) (count + 1)

abbrev pub int_of : Value → ℤ
int_of (int n) = n
int_of _ = pos 0

-- The value of a procedure that counts as success: none, or an integer that is not zero.
abbrev pub is_success : Option Value → Bool
is_success (some nothing) = true
is_success (some (int (pos zero))) = false
is_success (some (int _)) = true
is_success _ = false

module _ (interp : Interp) where
  open interp use {to_string, from_string, execute_proc}

  -- The loop of `AccTrigger::activate`.
  unfoldable pub acc_activate : ℕ → List Value → Jobs → Jobs
  acc_activate t [] jobs = jobs
  acc_activate t (v ∷ vs) jobs =
      let jobs' = modify (push_arg (to_string v)) t jobs in
      let rest = acc_activate t vs jobs' in
      if ready jobs t then jobs else (if ready jobs' t then jobs' else rest)

  -- `appendArg` of an encoded value: an empty string and NONE are left out.
  unfoldable pub decode_args : List Bytes → List Value
  decode_args [] = []
  decode_args (s ∷ ss) =
      let rest = decode_args ss in
      if is_empty s then rest else elim (from_string s) [ nothing ↦ rest | v ↦ v ∷ rest ]

  unfoldable pub proc_activate : Bytes → Bool → ℕ → List Value → Sched → Sched
  proc_activate name success t arg s =
      let (value, s') = execute_proc name (decode_args (s.jobs t).args ++ arg) s in
      if is_success value then at t (set_class (proc_trigger name true)) s' else s'

  -- `activate` by the class of the trigger `t`, which is not ready but for `AccTrigger`.
  unfoldable pub activate_class : JobClass → ℕ → List Value → Sched → Outcome Sched
  unfolding proc_activate
  activate_class (count_trigger count) t arg s =
      returns (at t (set_class (count_trigger (count - 1))) s)
  activate_class (set_trigger flags count) t [] s = faults
  activate_class (set_trigger flags count) t (v ∷ _) s =
      returns (at t (set_class (set_activate flags count (int_of v))) s)
  activate_class (proc_trigger name success) t arg s = returns (proc_activate name success t arg s)
  activate_class (acc_trigger count) t arg s =
      returns (record s { jobs = acc_activate t arg s.jobs })
  activate_class _ t arg s = faults

  unfoldable pub activate : ℕ → List Value → Sched → Outcome Sched
  activate t arg s = if ready s.jobs t then returns s else activate_class (s.jobs t).class t arg s

  abbrev to_values : List Value → Values
  to_values [] = nil
  to_values (v ∷ vs) = cons v (to_values vs)

  abbrev decode_all : List Bytes → List Value
  decode_all [] = []
  decode_all (s ∷ ss) = from_string s ∷ decode_all ss

  -- `execute` of a trigger: an accumulator's result is the list of its values.
  unfoldable pub trigger_result : JobClass → List Bytes → Bytes → Bytes
  trigger_result (acc_trigger _) args old = to_string (list (to_values (decode_all args)))
  trigger_result _ args old = old
