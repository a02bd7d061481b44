-- ===== src/Commands/Pools/Create/Laws.antt =====
-- When there are entries of the table for the threads of a pool.
use psingthreadlib.Prelude.{
  ℕ, zero, suc, ◌+◌, ◌≤◌, ◌<◌, ◌≡◌, refl, ◌⊎◌, inl, inr, true, false, ◌==◌, leb, none, some, List,
  [], ◌∷◌, length, String, arith, modify, Bool-cases, if◌then◌else◌, ap, ◌∙◌,
}
use psingthreadlib.Prelude.Int.{ℤ, pos, ltb_ℤ}
use psingthreadlib.Prelude.Outcome.{returns}
use psingthreadlib.Value.{int, shared, threadpool}
use psingthreadlib.Sync.Lock.{new_lock}
use psingthreadlib.Sched.Job.{Jobs}
use psingthreadlib.Sched.State.{new_sched}
use psingthreadlib.Threads.Table.{Table, Threads, begin_state, made, failed, new_thread}
use psingthreadlib.Threads.Table.Bounds.{new_thread_bounds}
use psingthreadlib.Commands.Command.{refused, done, check_argc_between, check_arg}
use psingthreadlib.Commands.Pools.Create.{
  Started, all_started, stopped, with_first, start_threads, make_pool, create_thread_pool,
}

-- The entries below `n` that are not active.
unfoldable pub free_entries : ℕ → Table → ℕ
free_entries zero table = 0
free_entries (suc n) table = free_entries n table + (if (table n).active then 0 else 1)

free_entries-modify_ge :
    (n i self : ℕ) (table : Table)
    → n ≤ i
    → free_entries n (modify (begin_state self i) i table) ≡ free_entries n table
unfolding free_entries
free_entries-modify_ge zero i self table h = refl
free_entries-modify_ge (suc n) i self table h =
    ground (arith, free_entries-modify_ge n i self table)

taken_one :
    (n i self : ℕ) (table : Table)
    → i < n
    → (table i).active ≡ false
    → free_entries n (modify (begin_state self i) i table) + 1 ≡ free_entries n table
unfolding free_entries
taken_one zero i self table h e = absurd (omega arith)
taken_one (suc n) i self table h e = elim (Bool-cases (i == n)) [
  | inl p ↦ ground (arith, free_entries-modify_ge n i self table)
  | inr p ↦ ground (arith, taken_one n i self table)
]

none_free :
    (n : ℕ) (table : Table) → ((i : ℕ) → i < n → (table i).active ≡ true) → free_entries n table ≡ 0
unfolding free_entries
none_free zero table h = refl
none_free (suc n) table h =
    rw (h n (omega arith)) (omega (arith, none_free n table (λ i l. h i (omega arith))))

module _ (self : ℕ) (codes : ℕ → ℤ) (works : (num : ℕ) → ltb_ℤ (codes num) (pos 0) ≡ false) where
  -- How the loop ends: with a thread for each round, or where no entry is left.
  abbrev Ends : ℕ → ℕ → Threads → Type 0
  Ends n num w =
      (v : Threads) × (v.thread_lock ≡ new_lock false)
      × (((is : List ℕ) × (length is ≡ n)
            × (start_threads self codes n num w ≡ returns (all_started is, v))
            × (free_entries 128 v.table + n ≡ free_entries 128 w.table))
          ⊎ ((start_threads self codes n num w
                ≡ returns (stopped "createThread: too many threads", v))
              × (free_entries 128 w.table < n)
              × (free_entries 128 v.table ≡ 0)))

  one_more :
      (n num i : ℕ) (w u v : Threads) (r : Started)
      → new_thread self (codes num) w ≡ returns (made i, u)
      → start_threads self codes n (suc num) u ≡ returns (r, v)
      → start_threads self codes (suc n) num w ≡ returns (with_first i r, v)
  unfolding start_threads
  one_more n num i w u v r e f = ground arith

  no_more :
      (n num : ℕ) (w u : Threads) (text : String)
      → new_thread self (codes num) w ≡ returns (failed text, u)
      → start_threads self codes (suc n) num w ≡ returns (stopped text, u)
  unfolding start_threads
  no_more n num w u text e = ground arith

  go_on-Ends :
      (n num i : ℕ) (w u : Threads)
      → new_thread self (codes num) w ≡ returns (made i, u)
      → free_entries 128 u.table + 1 ≡ free_entries 128 w.table
      → Ends n (suc num) u
      → Ends (suc n) num w
  go_on-Ends n num i w u e one (v, locked, inl (is, len, ev, left)) = (
    v,
    locked,
    inl (i ∷ is, ap suc len, one_more n num i w u v (all_started is) e ev, omega arith),
  )
  go_on-Ends n num i w u e one (v, locked, inr (ev, short, empty)) =
      (v, locked, inr (one_more n num i w u v (stopped _) e ev, omega arith, empty))

  start_threads-Ends : (n num : ℕ) (w : Threads) → w.thread_lock ≡ new_lock false → Ends n num w
  unfolding start_threads
  start_threads-Ends zero num w free = (w, free, inl ([], refl, refl, omega arith))
  start_threads-Ends (suc n) num w free =
      elim (new_thread_bounds self (codes num) w free (works num)) [
        | inr (all, e) ↦
            let empty = none_free 128 w.table all in
            (w, free, inr (no_more n num w w _ e, omega arith, empty))
        | inl (i, less, first, e) ↦
            let one = taken_one 128 i self w.table less first.1 in
            let u = record w { table = modify (begin_state self i) i w.table } in
            go_on-Ends n num i w u e one (start_threads-Ends n (suc num) u free)
      ]

  -- If the lock of the table is free and the system can make threads, then `createThreadPool` with a
  -- number below 256, in a build with threads, gives a new pool with that many threads if the table
  -- has as many entries that are not active, which it takes; if the table has fewer, then it
  -- reports that there are too many threads, and has taken all of them.
  pub pool_bounds :
      (pool : ℕ) (jobs : Jobs) (allocated n : ℕ) (w : Threads)
      → w.thread_lock ≡ new_lock false
      → n < 256
      → (v : Threads) × (((n ≤ free_entries 128 w.table)
            × (create_thread_pool true self codes pool jobs allocated (int (pos n) ∷ []) w
                ≡ returns (
                  done (shared threadpool (some pool)),
                  some (new_sched pool jobs allocated n),
                  v,
                ))
            × (free_entries 128 v.table + n ≡ free_entries 128 w.table))
          ⊎ ((free_entries 128 w.table < n)
              × (create_thread_pool true self codes pool jobs allocated (int (pos n) ∷ []) w
                  ≡ returns (refused (some "createThread: too many threads"), none, v))
              × (free_entries 128 v.table ≡ 0)))
  unfolding create_thread_pool make_pool check_argc_between check_arg
  pool_bounds pool jobs allocated n w free less =
      let (v, locked, ended) = start_threads-Ends n 0 w free in
      (
        v,
        elim ended [
          | inl (is, len, e, left) ↦ inl (omega arith, made_pool v is e, left)
          | inr (e, short, empty) ↦ inr (short, no_pool v _ e, empty)
        ],
      )
    where
      small : leb 256 n ≡ false
      small = ground arith

      checked :
          create_thread_pool true self codes pool jobs allocated (int (pos n) ∷ []) w
          ≡ make_pool self codes pool jobs allocated n w
      checked = rw small refl

      made_pool :
          (v : Threads) (is : List ℕ)
          → start_threads self codes n 0 w ≡ returns (all_started is, v)
          → create_thread_pool true self codes pool jobs allocated (int (pos n) ∷ []) w
            ≡ returns
                (done (shared threadpool (some pool)), some (new_sched pool jobs allocated n), v)
      made_pool v is e = checked ∙ rw e refl

      no_pool :
          (v : Threads) (text : String)
          → start_threads self codes n 0 w ≡ returns (stopped text, v)
          → create_thread_pool true self codes pool jobs allocated (int (pos n) ∷ []) w
            ≡ returns (refused (some text), none, v)
      no_pool v text e = checked ∙ rw e refl
