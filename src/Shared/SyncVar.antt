-- ===== src/Shared/SyncVar.antt =====
-- shared.cc: `SingularSyncVar`, a variable that is written once and then only updated.
pub mod Laws
use psingthreadlib.Prelude.{
  ℕ, Bool, true, false, Option, none, some, List, [], ◌∷◌, if◌then◌else◌, Bytes,
}
use psingthreadlib.Prelude.Outcome.{Outcome, returns, ◌>>=◌}
use psingthreadlib.Sync.Lock.{
  Lock, new_lock, lock, unlock, Cond, new_cond, wait_begin, wait_end, broadcast,
}

pub record SyncVar : Type 0 where
  pub value : Bytes
  pub init : Bool
  pub mutex : Lock
  pub cond : Cond

abbrev pub new_syncvar : SyncVar
new_syncvar = record { value = []; init = false; mutex = new_lock false; cond = new_cond }

unfoldable pub acquire : ℕ → SyncVar → Outcome SyncVar
acquire self v = do l ← lock self v.mutex; returns (record v { mutex = l })

unfoldable pub release : ℕ → SyncVar → Outcome SyncVar
release self v = do l ← unlock self v.mutex; returns (record v { mutex = l })

-- Where a thread stands at the loop `while (!init) cond.wait()`: behind it, or asleep.
pub data Waits : Type 0 where
  ready : Waits
  sleeps : (depth : ℕ) → Waits

unfoldable pub wait_init : ℕ → SyncVar → Outcome (Waits × SyncVar)
wait_init self v = if v.init then returns (ready, v) else (do
  (depth, l, c) ← wait_begin self v.mutex v.cond
  returns (sleeps depth, record v { mutex = l; cond = c }))

-- A thread that was woken goes on in the loop.
unfoldable pub wait_resume : ℕ → ℕ → SyncVar → Outcome (Waits × SyncVar)
unfolding wait_init
wait_resume self depth v = do
  (l, c) ← wait_end self depth v.mutex v.cond
  wait_init self (record v { mutex = l; cond = c })

-- The encoding that `get` decodes; a null pointer where it is empty.
unfoldable pub get : SyncVar → Option Bytes
get v = elim v.value [ [] ↦ none | b ∷ bs ↦ some (b ∷ bs) ]

unfoldable pub update : ℕ → Bytes → SyncVar → Outcome SyncVar
update self item v = do
  c ← broadcast self v.mutex v.cond
  returns (record v { value = item; init = true; cond = c })

-- The number is the result of the call.
unfoldable pub write : ℕ → Bytes → SyncVar → Outcome (ℕ × SyncVar)
write self item v = lock self v.mutex >>= λ l.
    if v.init then (do l' ← unlock self l; returns (0, record v { mutex = l' })) else (do
      c ← broadcast self l v.cond
      l' ← unlock self l
      returns (1, record { value = item; init = true; mutex = l'; cond = c }))

pub data Reads : Type 0 where
  got : Bytes → Reads
  sleeps : (depth : ℕ) → Reads

-- `read` behind its loop.
unfoldable pub read_end : ℕ → Waits × SyncVar → Outcome (Reads × SyncVar)
read_end self (ready, v) = do l ← unlock self v.mutex; returns (got v.value, record v { mutex = l })
read_end self (sleeps depth, v) = returns (sleeps depth, v)

unfoldable pub read : ℕ → SyncVar → Outcome (Reads × SyncVar)
unfolding acquire wait_init read_end
read self v = do v' ← acquire self v; w ← wait_init self v'; read_end self w

unfoldable pub read_resume : ℕ → ℕ → SyncVar → Outcome (Reads × SyncVar)
unfolding wait_resume read_end
read_resume self depth v = do w ← wait_resume self depth v; read_end self w

unfoldable pub check : ℕ → SyncVar → Outcome (ℕ × SyncVar)
check self v = do
  l ← lock self v.mutex
  l' ← unlock self l
  returns (if v.init then 1 else 0, record v { mutex = l' })

-- The end of `updateSyncVar` once its procedure has returned a value: `update`, then `release`.
unfoldable pub update_end : ℕ → Bytes → SyncVar → Outcome SyncVar
unfolding update release
update_end self item v = do v' ← update self item v; release self v'
