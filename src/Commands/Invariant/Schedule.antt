-- ===== src/Commands/Invariant/Schedule.antt =====
-- `scheduleJob` keeps the invariant of the queue.
use psingthreadlib.Prelude.{
  All, zero, suc, inl, inr, Option-cases, arith, sym, ℕ, ◌+◌, ◌≡◌, refl, ap, ◌∙◌, Bool, true, false,
  not, Option, none, some, List, [], ◌∷◌, map, subst, if◌then◌else◌,
}
use psingthreadlib.Prelude.Int.{ℤ}
use psingthreadlib.Prelude.Outcome.{returns, ◌>>=◌, >>=-eq-returns, deref}
use psingthreadlib.Value.{Value, Kind, string, list, shared, threadpool}
use psingthreadlib.Sched.State.{Sched}
use psingthreadlib.Sched.Trigger.{Interp}
use psingthreadlib.Sched.Schedule.{
  make_job, Refusal, check_jobs, enter_jobs, all_there, check_dependencies, schedule_pointers,
}
use psingthreadlib.Sched.Queue.Laws.{In}
use psingthreadlib.Sched.Safety.Kept.{Nobody, Apart}
use psingthreadlib.Sched.Safety.Parts.{Rely}
use psingthreadlib.Sched.Safety.Adding.{
  IsSafe, check_jobs-Kept, check_jobs-pooled, check_jobs-fresh,
}
use psingthreadlib.Sched.Safety.Scheduling.{enter_jobs-IsSafe}
use psingthreadlib.Sched.Safety.Making.{IsUnused}
use psingthreadlib.Commands.Command.{Command, new_command, arg, test_arg, int_cmd, of_kind}
use psingthreadlib.Commands.Jobs.{abort, count, drop, int_at}
use psingthreadlib.Commands.Schedule.{
  pointer, all_jobs, job_pointers, not_jobs, Named, misnamed, these_jobs, but_last, named,
  dependencies, answer, give_first, schedule_named, schedule_in, schedule_job_command,
}
use psingthreadlib.Commands.Invariant.Jobs.{new_proc-IsSafe}
use psingthreadlib.Commands.Invariant.Rules.{
  SafeIf, returns-IsSafe, >>=-IsSafe, then-IsSafe, if-IsSafe, Option-IsSafe, in_pool-IsSafe,
  give_job-IsSafe,
}

-- A value names no job of `Q`, neither itself nor in its entries.
abbrev pub Spares : (ℕ → Type 0) → Value → Type 0
Spares Q (list l) = All (λ v. (k : ℕ) → pointer v ≡ some k → Q k → ⊥) (but_last l)
Spares Q v = (k : ℕ) → pointer v ≡ some k → Q k → ⊥

-- None of these pointers is one to a job of `Q`.
abbrev AllSpare : (ℕ → Type 0) → List (Option ℕ) → Type 0
AllSpare Q = All (λ o. (k : ℕ) → o ≡ some k → Q k → ⊥)

number_inj : (i k : ℕ) → ◌≡◌ {A = Option ℕ} (some i) (some k) → i ≡ k
number_inj i k e = cc

all_there-Apart :
    (Q : ℕ → Type 0) (os : List (Option ℕ)) (js : List ℕ)
    → AllSpare Q os
    → all_there os ≡ returns js
    → Apart Q (λ k. In k js)
all_there-Apart Q [] js h e k i = let same : [] ≡ js = cc in absurd (subst (In k) (sym same) i)
all_there-Apart Q (none ∷ os) js h e k i = cc
all_there-Apart Q (some j ∷ os) js h e k i =
    let (rest, e1, e2) = >>=-eq-returns (all_there os) _ e in
    let same : j ∷ rest ≡ js = cc in
    here rest (all_there-Apart Q os rest h.1 e1 k) (subst (In k) (sym same) i)
  where
    here : (rest : List ℕ) → (In k rest → Q k → ⊥) → In k (j ∷ rest) → Q k → ⊥
    here rest later (inl first) q = h.0 k (ap some (sym first)) q
    here rest later (inr i2) q = later i2 q

job_pointers-Spare :
    (Q : ℕ → Type 0) (vs : List Value) (js : List ℕ)
    → All (λ v. (k : ℕ) → pointer v ≡ some k → Q k → ⊥) vs
    → job_pointers vs ≡ some js
    → AllSpare Q (map some js)
job_pointers-Spare Q [] js h e =
    let same : [] ≡ js = cc in subst (λ l. AllSpare Q (map some l)) same tt
job_pointers-Spare Q (v ∷ vs) js h e = elim (Option-cases (pointer v)) [
  | inl p ↦ absurd (ground arith)
  | inr (j, p) ↦ elim (Option-cases (job_pointers vs)) [
    | inl r ↦ absurd (ground arith)
    | inr (rest, r) ↦
        let same : j ∷ rest ≡ js = ground arith in
        subst (λ l. AllSpare Q (map some l)) same
          (λ k q. h.0 k (p ∙ q), job_pointers-Spare Q vs rest h.1 r)
  ]
]

All-drop : (P : Value → Type 0) (n : ℕ) (l : List Value) → All P l → All P (drop n l)
All-drop P zero l h = h
All-drop P (suc n) [] h = tt
All-drop P (suc n) (v ∷ l) h = All-drop P n l h.1

module _ (interp : Interp) (rely : Rely interp) where
  give_first-IsSafe : (js : List ℕ) (s : Sched) → IsSafe s → IsSafe (give_first interp js s).1
  give_first-IsSafe [] s v = v
  give_first-IsSafe (j ∷ js) s v = give_job-IsSafe j s v

  schedule_pointers-IsSafe :
      (pool : Option ℕ) (prio : ℤ) (jobs : List ℕ) (ds : List (Option ℕ)) (s : Sched)
      → Apart rely.Others (λ k. In k jobs)
      → IsSafe s
      → SafeIf (schedule_pointers interp pool prio jobs ds s)
  unfolding schedule_pointers
  schedule_pointers-IsSafe pool prio jobs ds s apart v =
      accepted (check_jobs prio jobs s).0 refl (check_jobs-Kept Nobody prio jobs s v).inv
    where
      accepted :
          (refusal : Option Refusal)
          → (check_jobs prio jobs s).0 ≡ refusal
          → IsSafe (check_jobs prio jobs s).1
          → let t = (check_jobs prio jobs s).1 in
            SafeIf {A = Option Refusal} (elim refusal [
              | some r ↦ returns (some r, t)
              | none ↦ check_dependencies pool ds t >>= λ refusal. elim refusal [
                | some r ↦ returns (some r, t)
                | none ↦ deref pool >>= λ p. all_there ds >>= λ deps.
                    enter_jobs interp jobs deps t >>= λ u. returns (none, u)
              ]
            ])
      accepted (some r) e w = returns-IsSafe _ w
      accepted none e w =
          let t = (check_jobs prio jobs s).1 in
          >>=-IsSafe (check_dependencies pool ds t) _ (λ refusal er.
            Option-IsSafe refusal _ _
              (>>=-IsSafe (deref pool) _ (λ p ep. >>=-IsSafe (all_there ds) _ (λ deps ed.
                >>=-IsSafe (enter_jobs interp jobs deps t) _ (λ u eu. returns-IsSafe _ (
                  enter_jobs-IsSafe interp rely jobs deps t u w apart
                    (λ k i. check_jobs-pooled prio jobs s k ∙ check_jobs-fresh prio jobs s e k i)
                    eu)))))
              (λ r. returns-IsSafe _ w))

  answer-IsSafe :
      (jobs : List ℕ) (r : Option Refusal × Sched) → IsSafe r.1 → IsSafe (answer interp jobs r).1
  answer-IsSafe jobs (some r, s) v = v
  answer-IsSafe jobs (none, s) v = give_first-IsSafe jobs s v

  schedule_named-IsSafe :
      (pool : Option ℕ) (prio : ℤ) (js ds : List (Option ℕ)) (s : Sched)
      → AllSpare rely.Others js
      → IsSafe s
      → SafeIf (schedule_named interp pool prio js ds s)
  unfolding schedule_named
  schedule_named-IsSafe pool prio js ds s spare v = >>=-IsSafe (all_there js) _ (λ jobs ej.
      then-IsSafe (schedule_pointers interp pool prio jobs ds s) _
        (schedule_pointers-IsSafe pool prio jobs ds s (all_there-Apart rely.Others js jobs spare ej)
          v)
        (λ x w. returns-IsSafe _ (answer-IsSafe jobs x w)))

  -- The state that the jobs were named in, if they were.
  abbrev SafelyNamed : Named → Type 0
  SafelyNamed (misnamed e) = Unit
  SafelyNamed (these_jobs js t) = AllSpare rely.Others js × IsSafe t

  list-SafelyNamed :
      (b : Bool) (o : Option (List ℕ)) (s : Sched)
      → ((js : List ℕ) → o ≡ some js → AllSpare rely.Others (map some js))
      → IsSafe s
      → SafelyNamed (
          if b then misnamed not_jobs else elim o [
            | none ↦ misnamed "job not initialized"
            | some js ↦ these_jobs (map some js) s
          ])
  list-SafelyNamed true o s f v = tt
  list-SafelyNamed false none s f v = tt
  list-SafelyNamed false (some js) s f v = (f js refl, v)

  module _ (s : Sched) (u : IsUnused (s.jobs s.allocated)) (new : rely.Others s.allocated → ⊥)
      (v : IsSafe s) where
    named-SafelyNamed : (a : Value) → Spares rely.Others a → SafelyNamed (named interp a s)
    unfolding named
    named-SafelyNamed (string name) h = (
      (
        λ k e q. new (subst rely.Others (sym (number_inj s.allocated k (unfold make_job in e))) q),
        tt,
      ),
      new_proc-IsSafe interp s u v name,
    )
    named-SafelyNamed (shared Kind.job o) h = ((h, tt), v)
    named-SafelyNamed (list l) h =
        list-SafelyNamed (not (all_jobs (but_last l))) (job_pointers (but_last l)) s
          (λ js e. job_pointers-Spare rely.Others (but_last l) js h e) v
    named-SafelyNamed _ h = tt

    schedule_in-IsSafe :
        (pool : Option ℕ) (with_pool : Bool) (cmd : Command)
        → All (Spares rely.Others) cmd.args
        → SafeIf (schedule_in interp pool with_pool cmd s)
    unfolding schedule_in
    schedule_in-IsSafe pool with_pool cmd h =
        let with_prio = test_arg (count with_pool) int_cmd cmd in
        from_there (int_at with_prio (count with_pool) cmd)
          (drop (count with_pool + count with_prio) cmd.args)
          (All-drop (Spares rely.Others) (count with_pool + count with_prio) cmd.args h)
      where
        scheduled :
            (prio : ℤ) (rest : List Value) (n : Named)
            → SafelyNamed n
            → SafeIf (elim n [
              | misnamed e ↦ abort e s
              | these_jobs js s' ↦ elim (dependencies rest) [
                | none ↦ abort "illegal dependency" s'
                | some ds ↦ schedule_named interp pool prio js ds s'
              ]
            ])
        scheduled prio rest (misnamed e) w = returns-IsSafe _ v
        scheduled prio rest (these_jobs js t) w =
            Option-IsSafe (dependencies rest) _ _ (returns-IsSafe _ w.1)
              (λ ds. schedule_named-IsSafe pool prio js ds t w.0 w.1)

        from_there :
            (prio : ℤ) (args : List Value)
            → All (Spares rely.Others) args
            → SafeIf (elim args [
              | [] ↦ abort not_jobs s
              | a ∷ rest ↦ elim (named interp a s) [
                | misnamed e ↦ abort e s
                | these_jobs js s' ↦ elim (dependencies rest) [
                  | none ↦ abort "illegal dependency" s'
                  | some ds ↦ schedule_named interp pool prio js ds s'
                ]
              ]
            ])
        from_there prio [] g = returns-IsSafe _ v
        from_there prio (a ∷ rest) g =
            scheduled prio rest (named interp a s) (named-SafelyNamed a g.0)

    pub schedule_job_command-IsSafe :
        (current : Option ℕ) (args : List Value)
        → All (Spares rely.Others) args
        → SafeIf (schedule_job_command interp current args s)
    unfolding schedule_job_command
    schedule_job_command-IsSafe current args h =
        let cmd = new_command "scheduleJob" args in
        if-IsSafe (test_arg 0 (of_kind threadpool) cmd) _ _
          (>>=-IsSafe (arg 0 cmd) _ (λ a e.
            Option-IsSafe (pointer a) _ _ (schedule_in-IsSafe none true cmd h)
              (λ p. in_pool-IsSafe p s _ v (schedule_in-IsSafe (some p) true cmd h))))
          (Option-IsSafe current _ _ (returns-IsSafe _ v)
            (λ p. in_pool-IsSafe p s _ v (schedule_in-IsSafe (some p) false cmd h)))
