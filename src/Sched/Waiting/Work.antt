-- ===== src/Sched/Waiting/Work.antt =====
-- How much is left to do on a pool that nothing is added to from outside.
use psingthreadlib.Prelude.{
  ℕ, zero, suc, ◌+◌, ◌≤◌, ◌<◌, ◌≡◌, refl, sym, subst, ◌∙◌, inl, inr, false, not, ◌&&◌, ◌==◌, some,
  List, [], ◌∷◌, length, length-append, get_elem?, set, arith, modify, All, Bool-cases,
  if◌then◌else◌,
}
use psingthreadlib.Sched.Job.{Job, Jobs, ready}
use psingthreadlib.Sched.Queue.{remove, pop_top, top_of}
use psingthreadlib.Sched.Queue.Laws.{In, top_of-In}
use psingthreadlib.Sched.State.{Sched, at, queue_job}
use psingthreadlib.Sched.Notify.{notify_all, mark_queued}

-- The jobs below `n` that have not been queued as dependents.
unfoldable pub unqueued : ℕ → Jobs → ℕ
unqueued zero jobs = 0
unqueued (suc n) jobs = unqueued n jobs + (if (jobs n).queued then 0 else 1)

unfoldable pub total : List (List ℕ) → ℕ
total [] = 0
total (q ∷ qs) = length q + total qs

-- The jobs in the queues, and those that may still be queued.
abbrev pub work : ℕ → Sched → ℕ
work n s = length s.global_queue + total s.thread_queues + unqueued n s.jobs

-- There are no chained triggers, and dependents have addresses below `n`.
pub record Plain (n : ℕ) (jobs : Jobs) : Type 0 where
  pub triggers : (k : ℕ) → (jobs k).triggers ≡ []
  pub notify : (k : ℕ) → All (λ m. m < n) (jobs k).notify

-- What a job that runs leaves alone.
pub record SameWork (s t : Sched) : Type 0 where
  pub queue : t.global_queue ≡ s.global_queue
  pub queues : t.thread_queues ≡ s.thread_queues
  pub triggers : (k : ℕ) → (t.jobs k).triggers ≡ (s.jobs k).triggers
  pub notify : (k : ℕ) → (t.jobs k).notify ≡ (s.jobs k).notify
  pub queued : (k : ℕ) → (t.jobs k).queued ≡ (s.jobs k).queued

pub SameWork-refl : (s : Sched) → SameWork s s
SameWork-refl s = record {
  queue = refl;
  queues = refl;
  triggers = λ k. refl;
  notify = λ k. refl;
  queued = λ k. refl;
}

pub SameWork-trans : (s t u : Sched) → SameWork s t → SameWork t u → SameWork s u
SameWork-trans s t u h k = record {
  queue = k.queue ∙ h.queue;
  queues = k.queues ∙ h.queues;
  triggers = λ i. k.triggers i ∙ h.triggers i;
  notify = λ i. k.notify i ∙ h.notify i;
  queued = λ i. k.queued i ∙ h.queued i;
}

unqueued-same :
    (n : ℕ) (a b : Jobs) → ((k : ℕ) → (b k).queued ≡ (a k).queued) → unqueued n b ≡ unqueued n a
unfolding unqueued
unqueued-same zero a b h = refl
unqueued-same (suc n) a b h = rw (h n, unqueued-same n a b h) refl

pub SameWork-work : (n : ℕ) (s t : Sched) → SameWork s t → work n t ≡ work n s
SameWork-work n s t h = rw (h.queue, h.queues, unqueued-same n s.jobs t.jobs h.queued) refl

pub SameWork-Plain : (n : ℕ) (s t : Sched) → SameWork s t → Plain n s.jobs → Plain n t.jobs
SameWork-Plain n s t h p = record {
  triggers = λ k. h.triggers k ∙ p.triggers k;
  notify = λ k. subst (All (λ m. m < n)) (sym (h.notify k)) (p.notify k);
}

modify-field :
    {A : Type 0} (g : Job → A) (f : Job → Job) (j k : ℕ) (a : Jobs)
    → ((x : Job) → g (f x) ≡ g x)
    → g (modify f j a k) ≡ g (a k)
modify-field g f j k a same = elim (Bool-cases (j == k)) [
  | inl e ↦ rw e (same (a k))
  | inr e ↦ rw e refl
]

pub at-SameWork :
    (f : Job → Job) (j : ℕ) (s : Sched)
    → ((x : Job) → (f x).triggers ≡ x.triggers)
    → ((x : Job) → (f x).notify ≡ x.notify)
    → ((x : Job) → (f x).queued ≡ x.queued)
    → SameWork s (at j f s)
at-SameWork f j s a b c = record {
  queue = refl;
  queues = refl;
  triggers = λ k. modify-field (λ x. x.triggers) f j k s.jobs a;
  notify = λ k. modify-field (λ x. x.notify) f j k s.jobs b;
  queued = λ k. modify-field (λ x. x.queued) f j k s.jobs c;
}

unqueued-modify_ge :
    (n j : ℕ) (a : Jobs) (f : Job → Job) → n ≤ j → unqueued n (modify f j a) ≡ unqueued n a
unfolding unqueued
unqueued-modify_ge zero j a f h = refl
unqueued-modify_ge (suc n) j a f h = ground (arith, unqueued-modify_ge n j a f)

unqueued-marked :
    (n j : ℕ) (a : Jobs)
    → j < n
    → (a j).queued ≡ false
    → unqueued n (modify mark_queued j a) + 1 ≡ unqueued n a
unfolding unqueued
unqueued-marked zero j a h e = absurd (omega arith)
unqueued-marked (suc n) j a h e = elim (Bool-cases (j == n)) [
  | inl p ↦ ground (arith, unqueued-modify_ge n j a mark_queued)
  | inr p ↦ ground (arith, unqueued-marked n j a)
]

queue_job-work : (n j : ℕ) (s : Sched) → work n (queue_job j s) ≡ work n s + 1
unfolding queue_job
queue_job-work n j s = omega (arith, length-append s.global_queue (j ∷ []))

marked-Plain :
    (n j : ℕ) (s : Sched) → Plain n s.jobs → Plain n (queue_job j (at j mark_queued s)).jobs
unfolding queue_job
marked-Plain n j s p = record {
  triggers = λ k. modify-field (λ x. x.triggers) mark_queued j k s.jobs (λ x. refl) ∙ p.triggers k;
  notify = λ k.
      subst (All (λ m. m < n))
        (sym (modify-field (λ x. x.notify) mark_queued j k s.jobs (λ x. refl))) (p.notify k);
}

-- A dependent that is queued was counted before.
pub notify_all-work :
    (n : ℕ) (js : List ℕ) (s : Sched)
    → Plain n s.jobs
    → All (λ m. m < n) js
    → (work n (notify_all js s) ≤ work n s) × Plain n (notify_all js s).jobs
unfolding notify_all
notify_all-work n [] s p h = (omega arith, p)
notify_all-work n (j ∷ js) s p h =
    elim (Bool-cases (not (s.jobs j).queued && ready s.jobs j && not (s.jobs j).cancelled)) [
      | inr e ↦ rw (notify_all, e) (notify_all-work n js s p h.1)
      | inl e ↦
          let u = queue_job j (at j mark_queued s) in
          let (less, q) = notify_all-work n js u (marked-Plain n j s p) h.1 in
          let new : (s.jobs j).queued ≡ false = ground arith in
          let one = unqueued-marked n j s.jobs h.0 new in
          let two = queue_job-work n j (at j mark_queued s) in rw (notify_all, e) (omega arith, q)
    ]

In-remove : (j : ℕ) (ks : List ℕ) → In j ks → length (remove j ks) + 1 ≡ length ks
unfolding remove
In-remove j [] h = absurd h
In-remove j (k ∷ ks) h = elim (Bool-cases (j == k)) [
  | inl e ↦ rw e (omega arith)
  | inr e ↦ rw e (omega (arith, In-remove j ks (later e h)))
]
  where
    later : (j == k) ≡ false → In j (k ∷ ks) → In j ks
    later e (inl i) = ground arith
    later e (inr i) = i

pub pop_top-length :
    (jobs : Jobs) (q rest : List ℕ) (j : ℕ)
    → pop_top jobs q ≡ some (j, rest)
    → length rest + 1 ≡ length q
unfolding pop_top
pop_top-length jobs [] rest j e = cc
pop_top-length jobs (k ∷ ks) rest j e =
    let same : remove (top_of jobs k ks) (k ∷ ks) ≡ rest = cc in
    subst (λ r. length r + 1 ≡ length (k ∷ ks)) same
      (In-remove (top_of jobs k ks) (k ∷ ks) (top_of-In jobs k ks))

pub total-set :
    (qs : List (List ℕ)) (i j : ℕ) (rest : List ℕ)
    → get_elem? qs i ≡ some (j ∷ rest)
    → total (set qs i rest) + 1 ≡ total qs
unfolding total
total-set [] i j rest e = cc
total-set (q ∷ qs) zero j rest e = let same : j ∷ rest ≡ q = cc in rw (sym same) (omega arith)
total-set (q ∷ qs) (suc i) j rest e = omega (arith, total-set qs i j rest e)
