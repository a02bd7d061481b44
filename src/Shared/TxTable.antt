-- ===== src/Shared/TxTable.antt =====
-- shared.cc: `TxTable`. A `std::map` of strings is a list of keys with their values.
pub mod Laws
use psingthreadlib.Prelude.{
  ℕ, Bool, true, false, not, Option, none, some, List, [], ◌∷◌, if◌then◌else◌, Bytes, eq_bytes,
}
use psingthreadlib.Prelude.Int.{ℤ, pos, negsuc}
use psingthreadlib.Prelude.Outcome.{Outcome, returns, ◌>>=◌}
use psingthreadlib.Shared.Guard.{Guard, RegionLocks, new_guard, tx_begin, tx_end}

abbrev pub Entries : Type 0
Entries = List (Bytes × Bytes)

-- `entries[key]` of a key that is there.
unfoldable pub find : Bytes → Entries → Option Bytes
find key [] = none
find key ((k, v) ∷ rest) = if eq_bytes k key then some v else find key rest

abbrev pub has : Option Bytes → Bool
has none = false
has (some _) = true

-- `entries[key] = value`, which inserts a key that is not there.
unfoldable pub store : Bytes → Bytes → Entries → Entries
store key value [] = (key, value) ∷ []
store key value ((k, v) ∷ rest) =
    if eq_bytes k key then (k, value) ∷ rest else (k, v) ∷ store key value rest

pub record TxTable : Type 0 where
  pub guard : Guard
  pub entries : Entries

abbrev pub new_table : Guard → TxTable
new_table g = record { guard = g; entries = [] }

-- The integer is the result of the call, -1 where the thread may not enter.
unfoldable pub put : ℕ → RegionLocks → Bytes → Bytes → TxTable → Outcome (ℤ × TxTable)
put self locks key value t = tx_begin self locks t.guard >>= λ (ok, g).
    if not ok then returns (negsuc 0, record t { guard = g }) else (do
      g' ← tx_end self g
      returns (
        pos (if has (find key t.entries) then 0 else 1),
        record { guard = g'; entries = store key value t.entries },
      ))

-- The string is what the call writes to `value`.
unfoldable pub get : ℕ → RegionLocks → Bytes → TxTable → Outcome (ℤ × Option Bytes × TxTable)
get self locks key t = tx_begin self locks t.guard >>= λ (ok, g).
    if not ok then returns (negsuc 0, none, record t { guard = g }) else (do
      g' ← tx_end self g
      returns (
        pos (if has (find key t.entries) then 1 else 0),
        find key t.entries,
        record t { guard = g' },
      ))

unfoldable pub check : ℕ → RegionLocks → Bytes → TxTable → Outcome (ℤ × TxTable)
check self locks key t = tx_begin self locks t.guard >>= λ (ok, g).
    if not ok then returns (negsuc 0, record t { guard = g }) else (do
      g' ← tx_end self g
      returns (pos (if has (find key t.entries) then 1 else 0), record t { guard = g' }))
