-- ===== src/Shared/SyncVar/Laws.antt =====
-- `SingularSyncVar` under every interleaving of its calls: one write wins, readers see the last
-- value, and nobody sleeps once there is one.
use psingthreadlib.Prelude.{
  ℕ, ◌-◌, ◌<◌, ◌≤◌, ◌≡◌, refl, true, false, List, [], ◌∷◌, ◌++◌, arith, if◌then◌else◌, Bytes,
  is_empty,
}
use psingthreadlib.Prelude.Outcome.{returns}
use psingthreadlib.Sync.Lock.{new_lock, lock, unlock, wait_begin, wait_end, broadcast}
use psingthreadlib.Shared.SyncVar.{
  SyncVar, new_syncvar, acquire, ready, wait_init, wait_resume, update_end, write, Reads, got, read,
  read_resume,
}

-- One critical section of one thread, with the values that it stored. `updates` is all of
-- `updateSyncVar` of a thread that finds the variable set, and `updates_woken` of one that waited.
pub data Step (v : SyncVar) : List Bytes → SyncVar → Type 0 where
  writes :
      (self : ℕ) (item : Bytes) {t : SyncVar}
      → write self item v ≡ returns (1, t)
      → Step v (item ∷ []) t
  refused :
      (self : ℕ) (item : Bytes) {t : SyncVar} → write self item v ≡ returns (0, t) → Step v [] t
  updates :
      (self : ℕ) (item : Bytes) {a b t : SyncVar}
      → acquire self v ≡ returns a
      → wait_init self a ≡ returns (ready, b)
      → update_end self item b ≡ returns t
      → Step v (item ∷ []) t
  updates_woken :
      (self : ℕ) (item : Bytes) {b t : SyncVar}
      → v.cond.asleep < v.cond.waiting
      → wait_resume self 1 v ≡ returns (ready, b)
      → update_end self item b ≡ returns t
      → Step v (item ∷ []) t
  reads : (self : ℕ) {r : Reads} {t : SyncVar} → read self v ≡ returns (r, t) → Step v [] t
  reads_woken :
      (self : ℕ) {r : Reads} {t : SyncVar}
      → v.cond.asleep < v.cond.waiting
      → read_resume self 1 v ≡ returns (r, t)
      → Step v [] t
  spurious :
      {t : SyncVar}
      → 0 < v.cond.asleep
      → t ≡ record v { cond = record { waiting = v.cond.waiting; asleep = v.cond.asleep - 1 } }
      → Step v [] t

-- The values stored so far, the latest first.
pub data Reach : List Bytes → SyncVar → Type 0 where
  start : Reach [] new_syncvar
  later : {log new : List Bytes} {s t : SyncVar} → Reach log s → Step s new t → Reach (new ++ log) t

abbrev Latest : List Bytes → SyncVar → Type 0
Latest [] v = v.init ≡ false
Latest (b ∷ _) v = (v.init ≡ true) × (v.value ≡ b)

pub record IsIdle (v : SyncVar) : Type 0 where
  pub unlocked : v.mutex ≡ new_lock false
  pub among : v.cond.asleep ≤ v.cond.waiting
  pub woken : v.init ≡ true → v.cond.asleep ≡ 0

Step-IsIdle : {s t : SyncVar} {new : List Bytes} → Step s new t → IsIdle s → IsIdle t
unfolding write read read_resume update_end lock unlock wait_begin wait_end broadcast
Step-IsIdle (writes self item e) v = ground arith
Step-IsIdle (refused self item e) v = ground arith
Step-IsIdle (updates self item e f g) v = ground arith
Step-IsIdle (updates_woken self item p f g) v = ground arith
Step-IsIdle (reads self e) v = ground arith
Step-IsIdle (reads_woken self p e) v = ground arith
Step-IsIdle (spurious p e) v = ground arith

Step-Latest :
    {s t : SyncVar} {new : List Bytes} (log : List Bytes)
    → Step s new t
    → Latest log s
    → Latest (new ++ log) t
unfolding write read read_resume update_end lock unlock wait_begin wait_end broadcast
Step-Latest log (writes self item e) v = ground arith
Step-Latest log (updates self item e f g) v = ground arith
Step-Latest log (updates_woken self item p f g) v = ground arith
Step-Latest [] (refused self item e) v = ground arith
Step-Latest [] (reads self e) v = ground arith
Step-Latest [] (reads_woken self p e) v = ground arith
Step-Latest [] (spurious p e) v = ground arith
Step-Latest (b ∷ log) (refused self item e) v = ground arith
Step-Latest (b ∷ log) (reads self e) v = ground arith
Step-Latest (b ∷ log) (reads_woken self p e) v = ground arith
Step-Latest (b ∷ log) (spurious p e) v = ground arith

pub Reach-IsIdle : {log : List Bytes} {s : SyncVar} → Reach log s → IsIdle s
Reach-IsIdle start = ground arith
Reach-IsIdle (later r st) = Step-IsIdle st (Reach-IsIdle r)

Reach-Latest : {log : List Bytes} {s : SyncVar} → Reach log s → Latest log s
Reach-Latest start = refl
Reach-Latest (later {log} r st) = Step-Latest log st (Reach-Latest r)

-- Under every interleaving of calls on a new variable, a write succeeds if nothing was stored
-- before, and then wakes every sleeping reader; else it is refused and changes nothing.
pub write_once :
    {log : List Bytes} {s : SyncVar} (self : ℕ) (item : Bytes)
    → Reach log s
    → write self item s ≡ (
        if is_empty log
        then returns
            (1, record s { value = item; init = true; cond = record s.cond { asleep = 0 } })
        else returns (0, s))
unfolding write lock unlock broadcast
write_once {log = []} self item r =
    let v = Reach-IsIdle r in let w = Reach-Latest r in ground (arith, v.unlocked, v.among)
write_once {log = b ∷ log} self item r =
    let v = Reach-IsIdle r in let w = Reach-Latest r in ground (arith, v.unlocked)

-- Under every interleaving of calls on a new variable, once a value was stored, a read returns the
-- value stored last, leaves the variable as it is, and no thread is asleep on the variable.
pub read_latest :
    {b : Bytes} {log : List Bytes} {s : SyncVar} (self : ℕ)
    → Reach (b ∷ log) s
    → (read self s ≡ returns (got b, s)) × (s.cond.asleep ≡ 0)
unfolding read lock unlock
read_latest self r =
    let v = Reach-IsIdle r in let w = Reach-Latest r in ground (arith, v.unlocked, v.woken)
