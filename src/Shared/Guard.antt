-- ===== src/Shared/Guard.antt =====
-- shared.cc: `Region` and `Transactional`, the lock that a table or a list is guarded by.
pub mod Laws
use psingthreadlib.Prelude.{ℕ, Bool, true, false, not, Option, none, some, if◌then◌else◌}
use psingthreadlib.Prelude.Outcome.{Outcome, returns, ◌>>=◌, deref}
use psingthreadlib.Sync.Lock.{Lock, new_lock, lock, unlock, is_locked}

-- `Region::lock` and `Region::unlock`, on `region_lock`.
unfoldable pub lock_region : ℕ → Lock → Outcome Lock
lock_region self l = if not (is_locked self l) then lock self l else returns l

unfoldable pub unlock_region : ℕ → Lock → Outcome Lock
unlock_region self l = if is_locked self l then unlock self l else returns l

-- `region` is the address of the region, whose lock the object uses; without a region the object
-- has a lock of its own, which is null until `set_region`.
pub record Guard : Type 0 where
  pub region : Option ℕ
  pub own : Option Lock

abbrev pub new_guard : Guard
new_guard = record { region = none; own = none }

abbrev pub set_region : Option ℕ → Guard → Guard
set_region none g = record { region = none; own = some (new_lock false) }
set_region (some r) g = record { region = some r; own = none }

-- The locks of the regions, by address.
abbrev pub RegionLocks : Type 0
RegionLocks = ℕ → Lock

abbrev lock_own : ℕ → Guard → Outcome Guard
lock_own self g = do l ← deref g.own; l' ← lock self l; returns (record g { own = some l' })

abbrev unlock_own : ℕ → Guard → Outcome Guard
unlock_own self g = do l ← deref g.own; l' ← unlock self l; returns (record g { own = some l' })

unfoldable pub tx_begin : ℕ → RegionLocks → Guard → Outcome (Bool × Guard)
tx_begin self locks g = elim (g.region) [
  | none ↦ lock_own self g >>= λ g'. returns (true, g')
  | some r ↦ returns (is_locked self (locks r), g)
]

unfoldable pub tx_end : ℕ → Guard → Outcome Guard
tx_end self g = elim (g.region) [ none ↦ unlock_own self g | some r ↦ returns g ]
