-- ===== src/Sched/Waiting/Lost.antt =====
-- Who is woken by the end of a job, where several threads wait in `waitJob`.
use psingthreadlib.Prelude.{
  ℕ, ◌+◌, ◌≡◌, ◌≢◌, refl, true, false, [], ◌==◌, ==_iff, arith, suc, length,
}
use psingthreadlib.Prelude.Outcome.{returns}
use psingthreadlib.Sched.Job.{Job}
use psingthreadlib.Sched.State.{Sched, at, incref, decref, notify_one}
use psingthreadlib.Sched.Trigger.{Interp}
use psingthreadlib.Sched.Notify.{notify_all, fire_from, fire_all, trigger_arg, notify_deps}
use psingthreadlib.Sched.Worker.{run_end, complete}
use psingthreadlib.Sched.Waiting.{waits, over, wait_loop, wait_resume, fall_asleep, wake_up}

-- A job that goes on, with nothing that its end sets off.
pub record IsPlain (x : Job) : Type 0 where
  pub done : x.done ≡ false
  pub cancelled : x.cancelled ≡ false
  pub notify : x.notify ≡ []
  pub triggers : x.triggers ≡ []

module _ (interp : Interp) (j k : ℕ) (s : Sched) (apart : j ≢ k) (hj : IsPlain (s.jobs j))
    (hk : IsPlain (s.jobs k)) (nobody : s.response ≡ record { waiting = 0; asleep = 0 }) where
  both_wait : Sched
  both_wait = fall_asleep (fall_asleep s)

  told : Sched
  told = at j incref (run_end j both_wait)

  ended : Sched
  ended = record (at j decref told) { response = notify_one told.response }

  jobs_j : (ended.jobs j).done ≡ true
  unfolding ended told run_end both_wait
  jobs_j = rw ((==_iff j j).1 refl) refl

  k_apart : (j == k) ≡ false
  k_apart = ground arith

  jobs_k : ((ended.jobs k).done ≡ false) × ((ended.jobs k).cancelled ≡ false)
  unfolding ended told run_end both_wait
  jobs_k = rw k_apart (hk.done, hk.cancelled)

  no_triggers : (told.jobs j).triggers ≡ []
  unfolding told run_end both_wait
  no_triggers = rw ((==_iff j j).1 refl) hj.triggers

  no_fire :
      (rounds : ℕ)
      → fire_from interp (suc rounds) (trigger_arg interp (told.jobs j)) j 0 told ≡ returns told
  unfolding fire_from
  no_fire rounds = rw (fire_from, no_triggers) refl

  no_notify : ((run_end j both_wait).jobs j).notify ≡ []
  unfolding run_end both_wait
  no_notify = rw ((==_iff j j).1 refl) hj.notify

  completes : complete interp j (run_end j both_wait) ≡ returns ended
  unfolding complete notify_deps fire_all notify_all ended told
  completes = rw no_notify (rw (no_fire (length (told.jobs j).triggers + interp.rounds)) refl)

  counts : (ended.response.waiting ≡ 2) × (ended.response.asleep ≡ 1)
  unfolding ended told run_end both_wait
  counts = rw nobody (refl, refl)

  -- Two threads wait for two jobs of which neither is done or cancelled, and nobody else waits. When
  -- the first job ends, which has no dependents or triggers, then one thread is woken: the one that
  -- waits for the first job would find it done. If it is the other one, it falls asleep again, and
  -- then both sleep, though the first job is done.
  pub signal_swallowed :
      (s1 s2 s3 t : Sched) × (wait_loop j s ≡ (waits, s1))
      × (wait_loop k s1 ≡ (waits, s2))
      × (complete interp j (run_end j s2) ≡ returns s3)
      × ((wait_resume j s3).0 ≡ over)
      × (wait_resume k s3 ≡ (waits, t))
      × ((t.jobs j).done ≡ true)
      × (t.response.waiting ≡ 2)
      × (t.response.asleep ≡ 2)
  unfolding wait_loop wait_resume both_wait
  signal_swallowed = (
    fall_asleep s,
    both_wait,
    ended,
    fall_asleep (wake_up ended),
    rw (hj.done, hj.cancelled) refl,
    rw (hk.done, hk.cancelled) refl,
    completes,
    rw jobs_j refl,
    rw (jobs_k.0, jobs_k.1) refl,
    jobs_j,
    rw counts.0 refl,
    rw counts.1 refl,
  )
