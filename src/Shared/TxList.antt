-- ===== src/Shared/TxList.antt =====
-- shared.cc: `TxList`.
pub mod Laws
use psingthreadlib.Prelude.{
  ℕ, zero, suc, ◌+◌, ◌-◌, Bool, true, false, not, ◌&&◌, Option, none, some, List, [], ◌∷◌, length,
  set, get_elem?, leb, if◌then◌else◌, Bytes, is_empty,
}
use psingthreadlib.Prelude.Int.{ℤ, pos, negsuc}
use psingthreadlib.Prelude.Outcome.{Outcome, returns, faults, ◌>>=◌}
use psingthreadlib.Shared.Guard.{Guard, RegionLocks, tx_begin, tx_end}

pub record TxList : Type 0 where
  pub guard : Guard
  pub entries : List Bytes

abbrev pub new_list : Guard → TxList
new_list g = record { guard = g; entries = [] }

-- `resize(n)` of the vector: it cuts, or adds empty strings.
unfoldable pub resize : ℕ → List Bytes → List Bytes
resize zero l = []
resize (suc n) [] = [] ∷ resize n []
resize (suc n) (x ∷ xs) = x ∷ resize n xs

abbrev pub in_range : ℕ → List Bytes → Bool
in_range index l = leb 1 index && leb index (length l)

-- What the two branches of `put` store; `entries[index-1]` of index 0 is out of bounds.
unfoldable pub store : ℕ → Bytes → List Bytes → Outcome (ℤ × List Bytes)
store zero value l = faults
store (suc i) value l =
    if in_range (suc i) l
    then returns (pos 1, set l i value)
    else returns (pos 0, set (resize (suc i + 1) l) i value)

unfoldable pub put : ℕ → RegionLocks → ℕ → Bytes → TxList → Outcome (ℤ × TxList)
put self locks index value t = tx_begin self locks t.guard >>= λ (ok, g).
    if not ok then returns (negsuc 0, record t { guard = g }) else (do
      (result, l) ← store index value t.entries
      g' ← tx_end self g
      returns (result, record { guard = g'; entries = l }))

-- An entry that is empty counts as none.
abbrev pub entry : ℕ → List Bytes → Option Bytes
entry index l =
    if in_range index l
    then elim (get_elem? l (index - 1)) [
      | none ↦ none
      | some v ↦ if is_empty v then none else some v
    ]
    else none

abbrev result_of : Option Bytes → ℤ
result_of none = pos 0
result_of (some _) = pos 1

unfoldable pub get : ℕ → RegionLocks → ℕ → TxList → Outcome (ℤ × Option Bytes × TxList)
get self locks index t = tx_begin self locks t.guard >>= λ (ok, g).
    if not ok then returns (negsuc 0, none, record t { guard = g }) else (do
      g' ← tx_end self g
      returns (result_of (entry index t.entries), entry index t.entries, record t { guard = g' }))

unfoldable pub size : ℕ → RegionLocks → TxList → Outcome (ℤ × TxList)
size self locks t = tx_begin self locks t.guard >>= λ (ok, g).
    if not ok
    then returns (negsuc 0, record t { guard = g })
    else (do g' ← tx_end self g; returns (pos (length t.entries), record t { guard = g' }))
