-- ===== src/Commands/Invariant/Rules.antt =====
-- How the invariant of the queue passes through the parts of a command.
use psingthreadlib.Prelude.{
  ℕ, ◌≡◌, subst, Bool, true, false, ◌==◌, Option, none, some, if◌then◌else◌,
}
use psingthreadlib.Prelude.Outcome.{Outcome, returns, ◌>>=◌, >>=-eq-returns}
use psingthreadlib.Sched.State.{Sched, incref}
use psingthreadlib.Sched.Safety.Parts.{incref-Harmless}
use psingthreadlib.Sched.Safety.Adding.{IsSafe}
use psingthreadlib.Sched.Safety.Making.{at-IsSafe}
use psingthreadlib.Commands.Command.{Command, Verdict, ok, when_ok}
use psingthreadlib.Commands.Jobs.{in_pool, in_its_pool, give_job}

-- If the call returns, the state is safe.
abbrev pub SafeIf : {A : Type 0} → Outcome (A × Sched) → Type 0
SafeIf {A} m = (r : A × Sched) → m ≡ returns r → IsSafe r.1

pub returns-IsSafe : {A : Type 0} (x : A × Sched) → IsSafe x.1 → SafeIf (returns x)
returns-IsSafe {A} x v r e =
    let same : ◌≡◌ {A = A × Sched} x r = cc in subst (λ (y : A × Sched). IsSafe y.1) same v

pub >>=-IsSafe :
    {A B : Type 0} (m : Outcome B) (k : B → Outcome (A × Sched))
    → ((b : B) → m ≡ returns b → SafeIf (k b))
    → SafeIf (m >>= k)
>>=-IsSafe m k f r e = let (b, eb, er) = >>=-eq-returns m k e in f b eb r er

-- What follows a part that leaves a safe state.
pub then-IsSafe :
    {A B : Type 0} (m : Outcome (B × Sched)) (k : B × Sched → Outcome (A × Sched))
    → SafeIf m
    → ((x : B × Sched) → IsSafe x.1 → SafeIf (k x))
    → SafeIf (m >>= k)
then-IsSafe m k v f = >>=-IsSafe m k (λ x e. f x (v x e))

pub if-IsSafe :
    {A : Type 0} (b : Bool) (x y : Outcome (A × Sched))
    → SafeIf x
    → SafeIf y
    → SafeIf (if b then x else y)
if-IsSafe true x y f g = f
if-IsSafe false x y f g = g

pub Option-IsSafe :
    {A B : Type 0} (o : Option B) (x : Outcome (A × Sched)) (f : B → Outcome (A × Sched))
    → SafeIf x
    → ((b : B) → SafeIf (f b))
    → SafeIf (elim o [ none ↦ x | some b ↦ f b ])
Option-IsSafe none x f v g = v
Option-IsSafe (some b) x f v g = g b

pub when_ok-IsSafe :
    (cmd : Command) (s : Sched) (k : Outcome (Verdict × Sched))
    → IsSafe s
    → SafeIf k
    → SafeIf (when_ok cmd s k)
when_ok-IsSafe cmd s k v f = if-IsSafe (ok cmd) k _ f (returns-IsSafe _ v)

pub in_pool-IsSafe :
    (p : ℕ) (s : Sched) (k : Outcome (Verdict × Sched))
    → IsSafe s
    → SafeIf k
    → SafeIf (in_pool p s k)
in_pool-IsSafe p s k v f = if-IsSafe (p == s.pool) k _ f (returns-IsSafe _ v)

pub in_its_pool-IsSafe :
    (j : ℕ) (s : Sched) (k : Outcome (Verdict × Sched))
    → IsSafe s
    → SafeIf k
    → SafeIf (in_its_pool j s k)
in_its_pool-IsSafe j s k v f =
    Option-IsSafe ((s.jobs j).pool) _ (λ p. in_pool p s k) (returns-IsSafe _ v)
      (λ p. in_pool-IsSafe p s k v f)

pub give_job-IsSafe : (j : ℕ) (s : Sched) → IsSafe s → IsSafe (give_job j s).1
give_job-IsSafe j s v = at-IsSafe incref j s incref-Harmless v
