-- ===== src/Sched/Twice.antt =====
-- A job that is scheduled on a dependency which is done enters the queue twice.
use psingthreadlib.Prelude.{ℕ, ◌≡◌, ◌≢◌, true, false, none, some, [], ◌∷◌}
use psingthreadlib.Prelude.Int.{ℤ}
use psingthreadlib.Sched.Job.{Job, satisfied}
use psingthreadlib.Sched.State.{Sched, at, incref, queue_job}
use psingthreadlib.Sched.Trigger.{Interp}
use psingthreadlib.Sched.Notify.{add_notify_list, add_dep, mark_queued}
use psingthreadlib.Sched.Schedule.{set_prio}

-- A job of no pool that waits for nothing, and a finished one of the pool that nothing waits for.
pub record IsFresh (j d : ℕ) (s : Sched) : Type 0 where
  pub apart : j ≢ d
  pub no_pool : (s.jobs j).pool ≡ none
  pub no_deps : (s.jobs j).deps ≡ []
  pub content : satisfied (s.jobs j).class (s.jobs j).args ≡ true
  pub not_queued : (s.jobs j).queued ≡ false
  pub not_cancelled : (s.jobs j).cancelled ≡ false
  pub dep_pool : (s.jobs d).pool ≡ some s.pool
  pub dep_done : (s.jobs d).done ≡ true
  pub dep_live : (s.jobs d).cancelled ≡ false
  pub dep_notify : (s.jobs d).notify ≡ []
  pub dep_triggers : (s.jobs d).triggers ≡ []

module _ (interp : Interp) (prio : ℤ) (j d : ℕ) (s : Sched) (h : IsFresh j d s) where
  s0 : Sched
  s0 = at j (set_prio prio) s

  s1 : Sched
  s1 = at j (add_dep (d ∷ [])) s0

  s2 : Sched
  s2 = at d incref (at d (add_notify_list (j ∷ [])) s1)

  s3 : Sched
  s3 = queue_job j (at j mark_queued s2)
