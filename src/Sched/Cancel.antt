-- ===== src/Sched/Cancel.antt =====
-- shared.cc: `cancelJob` and `cancelDeps`. They call each other through the `notify` lists; a job
-- that is cancelled is not entered again, so the calls end. `none` means that the fuel ran out.
pub mod Raised
pub mod Closed
pub mod Spreads
use psingthreadlib.Prelude.{
  ℕ, zero, suc, Bool, true, false, not, ◌&&◌, Option, none, some, List, [], ◌∷◌, if◌then◌else◌,
  modify,
}
use psingthreadlib.Prelude.Outcome.{Outcome, returns, faults}
use psingthreadlib.Sched.Job.{Job, Jobs}
use psingthreadlib.Sched.State.{Sched}

-- The loop of `cancelDeps`, over a call of `cancelJob`.
unfoldable pub cancel_deps : (ℕ → Jobs → Option Jobs) → List ℕ → Jobs → Option Jobs
cancel_deps cancel [] jobs = some jobs
cancel_deps cancel (next ∷ rest) jobs =
    elim (if (jobs next).cancelled then some jobs else cancel next jobs) [
      | none ↦ none
      | some jobs' ↦ cancel_deps cancel rest jobs'
    ]

abbrev pub mark_cancelled : Job → Job
mark_cancelled job = record job { cancelled = true }

abbrev pub mark_dropped : Job → Job
mark_dropped job = record job { cancelled = true; done = true }

unfoldable pub cancel_jobs : ℕ → ℕ → Jobs → Option Jobs
unfolding cancel_deps
cancel_jobs zero j jobs = none
cancel_jobs (suc fuel) j jobs =
    let deeper = cancel_deps (cancel_jobs fuel) (jobs j).notify (modify mark_dropped j jobs) in
    if (jobs j).cancelled
    then some jobs
    else (if not (jobs j).running && not (jobs j).done
        then deeper
        else some (modify mark_cancelled j jobs))

-- `Scheduler::cancelJob`: it changes the jobs alone, and signals no condition. Recursion without
-- end would be a fault.
unfoldable pub cancel_job : ℕ → Sched → Outcome Sched
cancel_job j s = elim (cancel_jobs (suc s.allocated) j s.jobs) [
  | none ↦ faults
  | some jobs ↦ returns (record s { jobs = jobs })
]
