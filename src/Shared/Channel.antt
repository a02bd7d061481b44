-- ===== src/Shared/Channel.antt =====
-- shared.cc: `SingularChannel`. An item is the encoding of a value, a string of bytes.
pub mod Laws
use psingthreadlib.Prelude.{
  ℕ, ◌≡◌, Bool, true, false, not, List, [], ◌∷◌, ◌++◌, length, if◌then◌else◌, Bytes, is_empty,
}
use psingthreadlib.Prelude.Outcome.{Outcome, returns, faults, ◌>>=◌}
use psingthreadlib.Sync.Lock.{
  Lock, new_lock, lock, unlock, Cond, new_cond, wait_begin, wait_end, signal,
}

pub record Channel : Type 0 where
  pub q : List Bytes
  pub mutex : Lock
  pub cond : Cond

abbrev pub new_channel : Channel
new_channel = record { q = []; mutex = new_lock false; cond = new_cond }

unfoldable pub send : ℕ → Bytes → Channel → Outcome Channel
send self item ch = do
  l ← lock self ch.mutex
  c ← signal self l ch.cond
  l' ← unlock self l
  returns (record { q = ch.q ++ item ∷ []; mutex = l'; cond = c })

-- Where a call of `receive` stands: it has an item, or it sleeps with this depth of its lock.
pub data Receives : Type 0 where
  got : Bytes → Receives
  sleeps : (depth : ℕ) → Receives

-- The loop of `receive` from its test on; the thread holds the lock.
unfoldable pub receive_loop : ℕ → Lock → Cond → List Bytes → Outcome (Receives × Channel)
receive_loop self l c [] = do
  (depth, l', c') ← wait_begin self l c
  returns (sleeps depth, record { q = []; mutex = l'; cond = c' })
receive_loop self l c (item ∷ rest) = do
  c' ← (if not (is_empty rest) then signal self l c else returns c)
  l' ← unlock self l
  returns (got item, record { q = rest; mutex = l'; cond = c' })

unfoldable pub receive : ℕ → Channel → Outcome (Receives × Channel)
receive self ch = do l ← lock self ch.mutex; receive_loop self l ch.cond ch.q

-- A thread that was woken goes on in the loop.
unfoldable pub receive_resume : ℕ → ℕ → Channel → Outcome (Receives × Channel)
receive_resume self depth ch = do
  (l, c) ← wait_end self depth ch.mutex ch.cond
  receive_loop self l c ch.q

unfoldable pub count : ℕ → Channel → Outcome (ℕ × Channel)
count self ch = do
  l ← lock self ch.mutex
  l' ← unlock self l
  returns (length ch.q, record ch { mutex = l' })
