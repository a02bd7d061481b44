-- ===== src/Sync/Lock/Laws.antt =====
-- thread.h, `Lock`: what every sequence of calls on one lock keeps, and what a call does.
use psingthreadlib.Prelude.{ℕ, ◌+◌, ◌<◌, ◌≡◌, ◌≢◌, Bool, true, none, some, arith, if◌then◌else◌}
use psingthreadlib.Prelude.Outcome.{returns, blocks, aborts}
use psingthreadlib.Sync.Lock.{Lock, new_lock, lock, unlock, is_locked, resume_lock, break_lock}

-- The holder of the mutex is the recorded owner, and the count is zero exactly when it is free.
pub record IsValid (l : Lock) : Type 0 where
  pub owned : l.owner ≡ l.mutex
  pub free : l.locked ≡ 0 → l.mutex ≡ none
  pub held : l.mutex ≡ none → l.locked ≡ 0

-- The calls that threads make on one lock. `sleep` and `resume` are the two halves of a wait on a
-- condition variable.
pub data Call (l : Lock) : Lock → Type 0 where
  locks : (self : ℕ) {l' : Lock} → lock self l ≡ returns l' → Call l l'
  unlocks : (self : ℕ) {l' : Lock} → unlock self l ≡ returns l' → Call l l'
  sleeps : (self : ℕ) → is_locked self l ≡ true → Call l (break_lock l).1
  resumes : (self depth : ℕ) → l.mutex ≡ none → 0 < depth → Call l (resume_lock self depth l)

pub data Calls (rec : Bool) : Lock → Type 0 where
  fresh : Calls rec (new_lock rec)
  then_call : {l l' : Lock} → Calls rec l → Call l l' → Calls rec l'

Call-IsValid : {l l' : Lock} → Call l l' → IsValid l → IsValid l'
unfolding lock unlock break_lock resume_lock
Call-IsValid (locks self e) v = ground arith
Call-IsValid (unlocks self e) v = ground arith
Call-IsValid (sleeps self e) v = ground arith
Call-IsValid (resumes self depth e p) v = ground arith

-- Every lock that calls on a new one can reach is valid.
pub Calls-IsValid : {rec : Bool} {l : Lock} → Calls rec l → IsValid l
Calls-IsValid fresh = ground arith
Calls-IsValid (then_call cs c) = Call-IsValid c (Calls-IsValid cs)

-- While one thread holds a lock that calls on a new one have led to, every other thread that locks
-- it waits, and one that unlocks it aborts the process.
pub lock_excludes :
    {rec : Bool} {l : Lock} (a b : ℕ)
    → Calls rec l
    → is_locked a l ≡ true
    → b ≢ a
    → (lock b l ≡ blocks) × (unlock b l ≡ aborts)
unfolding lock unlock
lock_excludes {l} a b cs h ne = let v = Calls-IsValid cs in ground (arith, v.owned, v.held)

-- A lock that returns is undone by an unlock of the same thread, at any depth of nesting.
pub unlock-lock :
    (self : ℕ) {l l' : Lock} → IsValid l → lock self l ≡ returns l' → unlock self l' ≡ returns l
unfolding lock unlock
unlock-lock self v e = ground arith

-- A thread that holds a lock takes it again if and only if the lock is recursive.
pub lock_again :
    (self : ℕ) (l : Lock)
    → is_locked self l ≡ true
    → lock self l ≡ (
        if l.recursive
        then returns (record l { owner = some self; locked = l.locked + 1 })
        else aborts)
unfolding lock
lock_again self l h = ground arith
