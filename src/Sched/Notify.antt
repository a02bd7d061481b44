-- ===== src/Sched/Notify.antt =====
-- shared.cc: `notifyDeps`, and `Job::addDep` and `Job::addNotify`.
pub mod Rounds
use psingthreadlib.Prelude.{
  ℕ, zero, suc, ◌+◌, length, get_elem?, none, some, true, not, ◌&&◌, List, [], ◌∷◌, ◌++◌,
  if◌then◌else◌, is_empty,
}
use psingthreadlib.Prelude.Outcome.{Outcome, returns, ◌>>=◌}
use psingthreadlib.Value.{Value}
use psingthreadlib.Sched.Job.{Job, ready}
use psingthreadlib.Sched.State.{Sched, at, incref, queue_job}
use psingthreadlib.Sched.Trigger.{Interp, accept, activate}

abbrev pub mark_queued : Job → Job
mark_queued job = record job { queued = true }

-- The body of the loop over `notify`.
unfoldable pub notify_one_job : ℕ → Sched → Sched
notify_one_job next s =
    if not (s.jobs next).queued && ready s.jobs next && not (s.jobs next).cancelled
    then queue_job next (at next mark_queued s)
    else s

unfoldable pub notify_all : List ℕ → Sched → Sched
unfolding notify_one_job
notify_all [] s = s
notify_all (next ∷ rest) s = notify_all rest (notify_one_job next s)

abbrev pub add_notify_list : List ℕ → Job → Job
add_notify_list js job = record job { notify = job.notify ++ js }

-- `Job::addDep`
abbrev pub add_dep : List ℕ → Job → Job
add_dep ds job = record job { deps = job.deps ++ ds }

module _ (interp : Interp) where
  -- The body of the loop over `triggers`.
  unfoldable pub fire_one : List Value → ℕ → Sched → Outcome Sched
  fire_one arg t s = accept (s.jobs t).class arg >>= λ accepted.
      if accepted
      then (activate interp t arg s >>= λ s'.
          returns (if ready s'.jobs t then queue_job t s' else s'))
      else returns s

  -- The loop from the trigger at `i` on. Its length is read anew in every round, since a proc trigger
  -- releases the lock; the first argument bounds the rounds.
  unfoldable pub fire_from : ℕ → List Value → ℕ → ℕ → Sched → Outcome Sched
  unfolding fire_one
  fire_from zero arg j i s = Outcome.blocks
  fire_from (suc n) arg j i s = elim (get_elem? (s.jobs j).triggers i) [
    | none ↦ returns s
    | some t ↦ fire_one arg t s >>= fire_from n arg j (suc i)
  ]

  -- The loop over `triggers`, with the rounds for those that are chained to it meanwhile.
  unfoldable pub fire_all : List Value → ℕ → Sched → Outcome Sched
  unfolding fire_from
  fire_all arg j s = fire_from (suc (length (s.jobs j).triggers + interp.rounds)) arg j 0 s

  -- The result of the job for its triggers; null where it has none.
  unfoldable pub trigger_arg : Job → List Value
  trigger_arg job =
      if not (is_empty job.triggers) && not (is_empty job.result)
      then interp.from_string job.result ∷ []
      else []

  unfoldable pub notify_deps : ℕ → Sched → Outcome Sched
  unfolding notify_all fire_all trigger_arg
  notify_deps j s =
      let s' = notify_all (s.jobs j).notify (at j incref s) in
      fire_all (trigger_arg (s'.jobs j)) j s'

  unfoldable pub add_notify : ℕ → List ℕ → Sched → Outcome Sched
  unfolding notify_deps
  add_notify d js s =
      let s' = at d (add_notify_list js) s in
      if (s'.jobs d).done then notify_deps d s' else returns s'
