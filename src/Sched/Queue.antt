-- ===== src/Sched/Queue.antt =====
-- shared.cc: the `priority_queue` of jobs under `JobCompare`. The standard library keeps a heap;
-- here it is a list in the order of insertion, and the top is found by a scan.
pub mod Laws
use psingthreadlib.Prelude.{
  ℕ, Bool, true, false, Option, none, some, List, [], ◌∷◌, ◌==◌, if◌then◌else◌,
}
use psingthreadlib.Sched.Job.{Jobs, job_less}

-- The greatest of `best` and the list, the first of equals.
unfoldable pub top_of : Jobs → ℕ → List ℕ → ℕ
top_of jobs best [] = best
top_of jobs best (j ∷ js) = top_of jobs (if job_less (jobs best) (jobs j) then j else best) js

-- The first occurrence is taken out.
unfoldable pub remove : ℕ → List ℕ → List ℕ
remove j [] = []
remove j (k ∷ ks) = if j == k then ks else k ∷ remove j ks

-- `top` and `pop`
unfoldable pub pop_top : Jobs → List ℕ → Option (ℕ × List ℕ)
unfolding top_of remove
pop_top jobs [] = none
pop_top jobs (j ∷ js) = some (top_of jobs j js, remove (top_of jobs j js) (j ∷ js))
