-- ===== src/Commands/Schedule.antt =====
-- shared.cc: the command `scheduleJob`, around the core in Sched/Schedule.
pub mod Laws
use psingthreadlib.Prelude.{
  ℕ, ◌+◌, Bool, true, false, not, ◌||◌, ◌==◌, Option, none, some, List, [], ◌∷◌, ◌++◌, map, String,
  if◌then◌else◌,
}
use psingthreadlib.Prelude.Int.{ℤ}
use psingthreadlib.Prelude.Outcome.{Outcome, returns, ◌>>=◌, deref}
use psingthreadlib.Value.{
  Value, Values, nil, cons, nothing, string, list, shared, threadpool, job, trigger,
}
use psingthreadlib.Sched.State.{Sched}
use psingthreadlib.Sched.Trigger.{Interp}
use psingthreadlib.Sched.Schedule.{
  Refusal, already_scheduled, dep_not_scheduled, dep_on_other_pool, all_there, schedule_pointers,
}
use psingthreadlib.Commands.Reply.{is_kind}
use psingthreadlib.Commands.Command.{
  Command, Verdict, refused, done, int_cmd, of_kind, new_command, test_arg, arg,
}
use psingthreadlib.Commands.Jobs.{abort, give_job, count, drop, int_at, in_pool, new_proc}

-- The entries that `for (int i = 0; i < n; i++)` visits, where `n` is the last index.
unfoldable pub but_last : Values → List Value
but_last nil = []
but_last (cons v nil) = []
but_last (cons v (cons w vs)) = v ∷ but_last (cons w vs)

-- `*(Job **)` of a value whose type was tested.
abbrev pub pointer : Value → Option ℕ
pointer (shared _ o) = o
pointer _ = none

abbrev pub all_jobs : List Value → Bool
all_jobs [] = true
all_jobs (v ∷ vs) = if is_kind job v then all_jobs vs else false

-- The loop over the jobs of a list; a null pointer is refused.
abbrev pub job_pointers : List Value → Option (List ℕ)
job_pointers [] = some []
job_pointers (v ∷ vs) = elim (pointer v) [
  | none ↦ none
  | some j ↦ elim (job_pointers vs) [ none ↦ none | some js ↦ some (j ∷ js) ]
]

-- The jobs that the first argument names, or an error; a single job may be a null pointer.
pub data Named : Type 0 where
  misnamed : String → Named
  these_jobs : List (Option ℕ) → Sched → Named

abbrev pub not_jobs : String
not_jobs = "job argument must be a job, string, or list of jobs"

unfoldable pub named : Interp → Value → Sched → Named
unfolding but_last
named interp (shared job o) s = these_jobs (o ∷ []) s
named interp (string name) s = let (j, s') = new_proc interp name s in these_jobs (some j ∷ []) s'
named interp (list l) s =
    if not (all_jobs (but_last l)) then misnamed not_jobs else elim (job_pointers (but_last l)) [
      | none ↦ misnamed "job not initialized"
      | some js ↦ these_jobs (map some js) s
    ]
named interp _ s = misnamed not_jobs

abbrev pub is_dependency : Value → Bool
is_dependency v = is_kind job v || is_kind trigger v

-- The entries of a list of dependencies; `none` for an entry of another type.
abbrev pub entries : List Value → Option (List (Option ℕ))
entries [] = some []
entries (v ∷ vs) =
    let rest = entries vs in
    if is_dependency v then elim rest [ none ↦ none | some ds ↦ some (pointer v ∷ ds) ] else none

-- The arguments for dependencies; one that is no job, trigger or list is passed over.
unfoldable pub dependencies : List Value → Option (List (Option ℕ))
unfolding but_last
dependencies [] = some []
dependencies (list l ∷ rest) = elim (entries (but_last l)) [
  | none ↦ none
  | some ds ↦ elim (dependencies rest) [ none ↦ none | some es ↦ some (ds ++ es) ]
]
dependencies (v ∷ rest) = elim (dependencies rest) [
  | none ↦ none
  | some es ↦ some (if is_dependency v then pointer v ∷ es else es)
]

abbrev pub message_of : Refusal → String
message_of already_scheduled = "job has already been scheduled"
message_of dep_not_scheduled = "dependency has not yet been scheduled"
message_of dep_on_other_pool = "dependency has been scheduled on a different threadpool"

module _ (interp : Interp) where
  -- The result is the first job.
  abbrev pub give_first : List ℕ → Sched → Verdict × Sched
  give_first [] s = (done nothing, s)
  give_first (j ∷ _) s = give_job j s

  -- How the command answers.
  abbrev pub answer : List ℕ → Option Refusal × Sched → Verdict × Sched
  answer jobs (some r, s) = (refused (some (message_of r)), s)
  answer jobs (none, s) = give_first jobs s

  -- What follows once jobs and dependencies are known. Only a job that is named alone may be a null
  -- pointer, and it is read through before all else.
  unfoldable pub schedule_named :
      Option ℕ → ℤ → List (Option ℕ) → List (Option ℕ) → Sched → Outcome (Verdict × Sched)
  schedule_named pool prio js ds s = all_there js >>= λ jobs.
      schedule_pointers interp pool prio jobs ds s >>= λ r. returns (answer jobs r)

  -- `scheduleJob` from its pool on; the errors of the checks before are replaced by later ones.
  unfoldable pub schedule_in : Option ℕ → Bool → Command → Sched → Outcome (Verdict × Sched)
  unfolding schedule_named named dependencies
  schedule_in pool with_pool cmd s =
      let with_prio = test_arg (count with_pool) int_cmd cmd in
      let first = count with_pool + count with_prio in
      elim (drop first cmd.args) [
        | [] ↦ abort not_jobs s
        | a ∷ rest ↦ elim (named interp a s) [
          | misnamed e ↦ abort e s
          | these_jobs js s' ↦ elim (dependencies rest) [
            | none ↦ abort "illegal dependency" s'
            | some ds ↦ schedule_named pool (int_at with_prio (count with_pool) cmd) js ds s'
          ]
        ]
      ]

  unfoldable pub schedule_job_command : Option ℕ → List Value → Sched → Outcome (Verdict × Sched)
  unfolding schedule_in
  schedule_job_command current args s =
      let cmd = new_command "scheduleJob" args in
      if test_arg 0 (of_kind threadpool) cmd
      then (arg 0 cmd >>= λ a. elim (pointer a) [
        | none ↦ schedule_in none true cmd s
        | some p ↦ in_pool p s (schedule_in (some p) true cmd s)
      ])
      else elim current [
        | none ↦ abort "no current threadpool defined" s
        | some p ↦ in_pool p s (schedule_in (some p) false cmd s)
      ]
