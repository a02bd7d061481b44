-- ===== src/LinTree/Buffer.antt =====
-- lintree.h: the memory of a `LinTree` with its cursor, and numbers in it, lowest byte first.
pub mod Laws
use psingthreadlib.Prelude.{
  ℕ, zero, suc, ◌+◌, ◌-◌, ◌*◌, ◌/◌, ◌%◌, ◌^◌, Bool, true, false, Option, none, some, List, [], ◌∷◌,
  ◌++◌, length, ltb, String, Bytes, if◌then◌else◌,
}
use psingthreadlib.Prelude.Int.{ℤ, pos, negsuc}
use psingthreadlib.Prelude.Outcome.{Outcome, returns, faults, ◌>>=◌}

-- `last_ring` is left out with the rings.
pub record LinTree : Type 0 where
  pub memory : Bytes
  pub cursor : ℕ
  pub error : Option String

-- `LinTree()` and `LinTree(source)`
abbrev pub new_lintree : Bytes → LinTree
new_lintree source = record { memory = source; cursor = 0; error = none }

abbrev pub mark_error : String → LinTree → LinTree
mark_error s t = record t { error = some s }

-- `clear`
abbrev pub clear : LinTree → LinTree
clear t = record { memory = []; cursor = 0; error = none }

-- The representation of an unsigned number of `k` bytes on a little-endian machine.
unfoldable pub to_bytes : ℕ → ℕ → Bytes
to_bytes zero n = []
to_bytes (suc k) n = n % 256 ∷ to_bytes k (n / 256)

unfoldable pub of_bytes : Bytes → ℕ
of_bytes [] = 0
of_bytes (b ∷ bs) = b + 256 * of_bytes bs

-- Two's complement in `k` bytes.
abbrev pub wrap : ℕ → ℤ → ℕ
wrap k (pos n) = n % 256 ^ k
wrap k (negsuc n) = 256 ^ k - 1 - n % 256 ^ k

abbrev pub unwrap : ℕ → ℕ → ℤ
unwrap k n = if ltb (2 * n) (256 ^ k) then pos n else negsuc (256 ^ k - 1 - n)

-- `put_bytes`
unfoldable pub put_bytes : Bytes → LinTree → LinTree
put_bytes p t = record t { memory = t.memory ++ p }

-- `put<int>`, `put<long>` and `put<size_t>` have 4 and 8 bytes.
unfoldable pub put_signed : ℕ → ℤ → LinTree → LinTree
unfolding put_bytes
put_signed k n t = put_bytes (to_bytes k (wrap k n)) t

unfoldable pub put_size : ℕ → LinTree → LinTree
unfolding put_bytes
put_size n t = put_bytes (to_bytes 8 (n % 256 ^ 8)) t

-- The memory from the cursor on.
unfoldable pub drop : ℕ → Bytes → Bytes
drop zero l = l
drop (suc n) [] = []
drop (suc n) (x ∷ xs) = drop n xs

unfoldable pub take_exact : ℕ → Bytes → Option Bytes
take_exact zero l = some []
take_exact (suc n) [] = none
take_exact (suc n) (x ∷ xs) = elim (take_exact n xs) [ none ↦ none | some b ↦ some (x ∷ b) ]

-- `get_bytes`; what is read behind the end of the memory is undefined.
unfoldable pub get_bytes : ℕ → LinTree → Outcome (Bytes × LinTree)
get_bytes n t = elim (take_exact n (drop t.cursor t.memory)) [
  | none ↦ faults
  | some b ↦ returns (b, record t { cursor = t.cursor + n })
]

unfoldable pub get_signed : ℕ → LinTree → Outcome (ℤ × LinTree)
get_signed k t = get_bytes k t >>= λ (b, t'). returns (unwrap k (of_bytes b), t')

unfoldable pub get_size : LinTree → Outcome (ℕ × LinTree)
get_size t = get_bytes 8 t >>= λ (b, t'). returns (of_bytes b, t')
