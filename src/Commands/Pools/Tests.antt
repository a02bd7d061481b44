-- ===== src/Commands/Pools/Tests.antt =====
-- A pool with two threads in an empty table.
use psingthreadlib.Prelude.{ℕ, ◌≡◌, ◌≤◌, ◌<◌, ◌+◌, ◌⊎◌, refl, true, none, some, [], ◌∷◌, arith}
use psingthreadlib.Prelude.Int.{ℤ, pos}
use psingthreadlib.Prelude.Outcome.{returns}
use psingthreadlib.Value.{int, shared, threadpool}
use psingthreadlib.Sched.Job.{Jobs, new_job, eval}
use psingthreadlib.Sched.State.{new_sched}
use psingthreadlib.Threads.Table.{Threads, no_threads}
use psingthreadlib.Commands.Command.{refused, done}
use psingthreadlib.Commands.Pools.Create.{create_thread_pool}
use psingthreadlib.Commands.Pools.Create.Laws.{free_entries, pool_bounds}

abbrev codes : ℕ → ℤ
codes _ = pos 0

abbrev jobs : Jobs
jobs _ = new_job eval

pool_bounds_example :
    (v : Threads) × (((2 ≤ free_entries 128 no_threads.table)
        × (create_thread_pool true 0 codes 9 jobs 0 (int (pos 2) ∷ []) no_threads
            ≡ returns (done (shared threadpool (some 9)), some (new_sched 9 jobs 0 2), v))
        × (free_entries 128 v.table + 2 ≡ free_entries 128 no_threads.table))
      ⊎ ((free_entries 128 no_threads.table < 2)
          × (create_thread_pool true 0 codes 9 jobs 0 (int (pos 2) ∷ []) no_threads
              ≡ returns (refused (some "createThread: too many threads"), none, v))
          × (free_entries 128 v.table ≡ 0)))
pool_bounds_example = pool_bounds 0 codes (λ num. refl) 9 jobs 0 2 no_threads refl (omega arith)
