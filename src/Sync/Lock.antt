-- ===== src/Sync/Lock.antt =====
-- thread.h: `Lock` and `ConditionVariable`, over a POSIX mutex and a POSIX condition variable.
pub mod Laws
use psingthreadlib.Prelude.{
  ℕ, zero, suc, ◌+◌, ◌-◌, ◌<◌, ◌≤◌, ◌≡◌, refl, Bool, true, false, not, ◌&&◌, ◌||◌, Option, none,
  some, arith, ◌==◌, if◌then◌else◌,
}
use psingthreadlib.Prelude.Outcome.{Outcome, returns, blocks, aborts, ◌>>=◌, ◌>>◌}

-- `mutex` is the thread that holds the POSIX mutex; `owner` is `none` for `no_thread`.
pub record Lock : Type 0 where
  pub mutex : Option ℕ
  pub owner : Option ℕ
  pub locked : ℕ
  pub recursive : Bool

-- `Lock(bool rec)`
abbrev pub new_lock : Bool → Lock
new_lock rec = record { mutex = none; owner = none; locked = 0; recursive = rec }

abbrev pub is_thread : Option ℕ → ℕ → Bool
is_thread none self = false
is_thread (some t) self = t == self

unfoldable pub lock : ℕ → Lock → Outcome Lock
lock self l =
    if is_thread l.owner self
    then (if not (l.locked == 0) && not l.recursive
        then aborts
        else returns (record l { owner = some self; locked = l.locked + 1 }))
    else elim l.mutex [
      | none ↦ returns (record l { mutex = some self; owner = some self; locked = l.locked + 1 })
      | some _ ↦ blocks
    ]

-- The owner has locked at least once (`IsValid` of the child), so the count falls by one.
unfoldable pub unlock : ℕ → Lock → Outcome Lock
unlock self l =
    if not (is_thread l.owner self)
    then aborts
    else (if l.locked == 1
        then returns (record l { mutex = none; owner = none; locked = 0 })
        else returns (record l { locked = l.locked - 1 }))

abbrev pub is_locked : ℕ → Lock → Bool
is_locked self l = not (l.locked == 0) && is_thread l.owner self

-- `resume_lock`, with the mutex that `pthread_cond_wait` has taken back.
unfoldable pub resume_lock : ℕ → ℕ → Lock → Lock
resume_lock self depth l = record l { mutex = some self; owner = some self; locked = depth }

-- `break_lock`, with the mutex that `pthread_cond_wait` gives up; the depth is what it returns.
unfoldable pub break_lock : Lock → ℕ × Lock
break_lock l = (l.locked, record l { mutex = none; owner = none; locked = 0 })

-- `waiting` is the field of that name; `asleep` of those threads are not yet woken.
pub record Cond : Type 0 where
  pub waiting : ℕ
  pub asleep : ℕ

abbrev pub new_cond : Cond
new_cond = record { waiting = 0; asleep = 0 }

-- `wait` up to the sleep in `pthread_cond_wait`, with the depth that the thread keeps.
unfoldable pub wait_begin : ℕ → Lock → Cond → Outcome (ℕ × Lock × Cond)
unfolding break_lock
wait_begin self l c =
    if not (is_locked self l)
    then aborts
    else (let (depth, l') = break_lock l in
        returns (depth, l', record { waiting = c.waiting + 1; asleep = c.asleep + 1 }))

-- `wait` from the wake-up on: `pthread_cond_wait` returns when it has the mutex.
unfoldable pub wait_end : ℕ → ℕ → Lock → Cond → Outcome (Lock × Cond)
unfolding resume_lock
wait_end self depth l c = elim l.mutex [
  | none ↦ returns (resume_lock self depth l, record c { waiting = c.waiting - 1 })
  | some _ ↦ blocks
]

-- `pthread_cond_signal` wakes one sleeper, if there is one.
abbrev pub wake_one : Cond → Cond
wake_one c = record c { asleep = c.asleep - 1 }

unfoldable pub signal : ℕ → Lock → Cond → Outcome Cond
signal self l c =
    if not (is_locked self l)
    then aborts
    else returns (if not (c.waiting == 0) then wake_one c else c)

unfoldable pub broadcast : ℕ → Lock → Cond → Outcome Cond
broadcast self l c =
    if not (is_locked self l)
    then aborts
    else returns (if not (c.waiting == 0) then record c { asleep = 0 } else c)
