-- ===== src/Shared/Guard/Laws.antt =====
-- Who may enter an object under its guard.
use psingthreadlib.Prelude.{ℕ, ◌≡◌, refl, true, false, Option, none, some, arith}
use psingthreadlib.Prelude.Outcome.{returns}
use psingthreadlib.Sync.Lock.{Lock, new_lock, lock, unlock, is_locked}
use psingthreadlib.Shared.Guard.{Guard, RegionLocks, tx_begin, tx_end}

-- The thread may enter: it holds the lock of the region, or the object has a lock that is free.
abbrev pub IsOpen : ℕ → RegionLocks → Guard → Type 0
IsOpen self locks g = elim (g.region) [
  | none ↦ g.own ≡ some (new_lock false)
  | some r ↦ is_locked self (locks r) ≡ true
]

-- The object is in a region whose lock the thread does not hold.
abbrev pub IsShut : ℕ → RegionLocks → Guard → Type 0
IsShut self locks g = elim (g.region) [ none ↦ ⊥ | some r ↦ is_locked self (locks r) ≡ false ]

-- A thread takes a free lock and gives it back.
pub free_lock :
    (self : ℕ)
    → (l : Lock) × (lock self (new_lock false) ≡ returns l)
      × (unlock self l ≡ returns (new_lock false))
unfolding lock unlock
free_lock self = (
  record { mutex = some self; owner = some self; locked = 1; recursive = false },
  refl,
  ground arith,
)

enters_at :
    (self : ℕ) (locks : RegionLocks) (region : Option ℕ) (own : Option Lock)
    → IsOpen self locks (record { region = region; own = own })
    → (g : Guard) × (tx_begin self locks (record { region = region; own = own })
        ≡ returns (true, g))
      × (tx_end self g ≡ returns (record { region = region; own = own }))
unfolding tx_begin tx_end
enters_at self locks none own h =
    let (l, e, e') = free_lock self in
    (record { region = none; own = some l }, rw (h, e), rw (h, e'))
enters_at self locks (some r) own h = (record { region = some r; own = own }, rw h, refl)

pub enters :
    (self : ℕ) (locks : RegionLocks) (g : Guard)
    → IsOpen self locks g
    → (g' : Guard) × (tx_begin self locks g ≡ returns (true, g')) × (tx_end self g' ≡ returns g)
enters self locks g h = enters_at self locks g.region g.own h

refuses_at :
    (self : ℕ) (locks : RegionLocks) (region : Option ℕ) (own : Option Lock)
    → IsShut self locks (record { region = region; own = own })
    → tx_begin self locks (record { region = region; own = own })
      ≡ returns (false, record { region = region; own = own })
unfolding tx_begin
refuses_at self locks none own h = absurd h
refuses_at self locks (some r) own h = rw h

pub refuses :
    (self : ℕ) (locks : RegionLocks) (g : Guard)
    → IsShut self locks g
    → tx_begin self locks g ≡ returns (false, g)
refuses self locks g h = refuses_at self locks g.region g.own h
