-- ===== src/Threads/Table/Bounds.antt =====
-- Which entry of the table `newThread` takes.
use psingthreadlib.Prelude.{
  ℕ, zero, suc, ◌+◌, ◌≤◌, ◌<◌, ◌≡◌, refl, ◌⊎◌, inl, inr, true, false, none, some, arith, modify,
  Bool-cases,
}
use psingthreadlib.Prelude.Int.{ℤ, pos, ltb_ℤ}
use psingthreadlib.Prelude.Outcome.{returns}
use psingthreadlib.Sync.Lock.{new_lock, lock, unlock}
use psingthreadlib.Threads.Table.{
  Table, Threads, find_free, begin_state, made, failed, take_slot, new_thread,
}

-- The first entry from `i` on that is not active.
abbrev pub IsFirst : ℕ → ℕ → Table → Type 0
IsFirst i k table =
    (i ≤ k) × ((table k).active ≡ false) × ((j : ℕ) → i ≤ j → j < k → (table j).active ≡ true)

abbrev pub AllActive : ℕ → ℕ → Table → Type 0
AllActive i n table = (j : ℕ) → i ≤ j → j < i + n → (table j).active ≡ true

find_free_lem :
    (n i : ℕ) (table : Table)
    → ((k : ℕ) × (k < i + n) × IsFirst i k table × (find_free n i table ≡ some k))
      ⊎ (AllActive i n table × (find_free n i table ≡ none))
unfolding find_free
find_free_lem zero i table = inr ((λ j a b. absurd (omega arith)), refl)
find_free_lem (suc n) i table = elim (Bool-cases (table i).active) [
  | inr free ↦
      inl (i, omega arith, (omega arith, free, λ j a b. absurd (omega arith)), rw free refl)
  | inl taken ↦ elim (find_free_lem n (suc i) table) [
    | inl (k, a, (b, c, d), e) ↦
        inl (k, omega arith, (omega arith, c, λ j p q. ground (arith, d j)), rw taken e)
    | inr (all, e) ↦ inr ((λ j p q. ground (arith, all j)), rw taken e)
  ]
]

-- If the lock of the table is free and the system can make a thread, `newThread` takes the first
-- entry of the table that is not active, one of the 128, makes it active with empty queues for its
-- caller, and changes no other; or all 128 are active, and it fails and changes nothing.
pub new_thread_bounds :
    (self : ℕ) (code : ℤ) (w : Threads)
    → w.thread_lock ≡ new_lock false
    → ltb_ℤ code (pos 0) ≡ false
    → ((i : ℕ) × (i < 128)
        × IsFirst 0 i w.table
        × (new_thread self code w
            ≡ returns (made i, record w { table = modify (begin_state self i) i w.table })))
      ⊎ (((i : ℕ) → i < 128 → (w.table i).active ≡ true)
          × (new_thread self code w ≡ returns (failed "createThread: too many threads", w)))
unfolding new_thread take_slot lock unlock
new_thread_bounds self code w free made_it = elim (find_free_lem 128 0 w.table) [
  | inl (k, a, f, e) ↦ inl (k, omega arith, f, ground arith)
  | inr (all, e) ↦ inr ((λ i h. all i (omega arith) (omega arith)), ground arith)
]
