-- ===== src/Sync/Tests.antt =====
-- Runs of `Lock` and `Semaphore` on concrete states.
use psingthreadlib.Prelude.{◌+◌, ◌≡◌, refl, true, false, some, arith}
use psingthreadlib.Prelude.Outcome.{returns, blocks, aborts}
use psingthreadlib.Sync.Lock.{Lock, new_lock, lock, unlock}
use psingthreadlib.Sync.Lock.Laws.{fresh, then_call, locks, lock_excludes}
use psingthreadlib.Sync.Semaphore.{
  Semaphore, new_semaphore, done, post, wait, wait_loop, wait_resume,
}
use psingthreadlib.Sync.Semaphore.Laws.{
  start, later, take, give, units_conserved, post_twice_loses_wakeup, all_asleep,
}

-- A lock that thread 1 holds once.
abbrev held_once : Lock
held_once = record { mutex = some 1; owner = some 1; locked = 1; recursive = true }

abbrev held_plain : Lock
held_plain = record { mutex = some 1; owner = some 1; locked = 1; recursive = false }

lock_once : lock 1 (new_lock true) ≡ returns held_once
unfolding lock
lock_once = refl

lock_excludes_example : (lock 2 held_once ≡ blocks) × (unlock 2 held_once ≡ aborts)
lock_excludes_example = lock_excludes 1 2 (then_call fresh (locks 1 lock_once)) refl (omega arith)

post_one : post 1 (new_semaphore 1) ≡ returns (new_semaphore 2)
unfolding post lock unlock
post_one = refl

wait_one : wait 2 (new_semaphore 2) ≡ returns (done, new_semaphore 1)
unfolding wait wait_loop lock unlock
wait_one = refl

units_conserved_example : 1 + 1 ≡ 1 + 1
units_conserved_example =
    units_conserved {count0 = 1} {taken = 1} {posted = 1} {s = new_semaphore 1}
      (later (later start (give 1 (omega arith) post_one)) (take 2 wait_one))

post_twice_loses_wakeup_example :
    (t u : Semaphore) × (post 1 (all_asleep 0 2 2) ≡ returns t)
    × (post 2 t ≡ returns u)
    × (wait_resume 3 1 u ≡ returns (done, all_asleep 1 1 1))
post_twice_loses_wakeup_example = post_twice_loses_wakeup 1 2 3 2 2 (omega arith) (omega arith)
