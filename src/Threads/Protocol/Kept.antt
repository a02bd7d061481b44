-- ===== src/Threads/Protocol/Kept.antt =====
-- What every step keeps: the thread has run a part of the requests, and the rest stands in its queue.
use psingthreadlib.Prelude.{
  ℕ, ◌≤◌, ◌≡◌, ◌≢◌, refl, ap, true, false, List, [], ◌∷◌, ◌++◌, if◌then◌else◌, Bytes,
}
use psingthreadlib.Sync.Lock.{new_lock, Cond}
use psingthreadlib.Threads.State.{is_live}
use psingthreadlib.Threads.Protocol.{
  Request, command, Phase, waiting, System, after, outputs, frames, quit_frame,
}

pub frames-append : (a b : List Request) → frames (a ++ b) ≡ frames a ++ frames b
unfolding frames
frames-append [] b = refl
frames-append ((e, x) ∷ a) b = ap (λ l. command e ∷ x ∷ l) (frames-append a b)

abbrev pub waiters : Phase → ℕ
waiters waiting = 1
waiters _ = 0

-- One waiter at most, who is awake if there is something for it.
abbrev pub Notices {ℓ} : {A : Type ℓ} → ℕ → List A → Cond → Type ℓ
Notices n q c = (c.waiting ≡ n) × (c.asleep ≤ n) × (q ≢ [] → c.asleep ≡ 0)

module _ {I : Type 0} (evaluate : I → Bytes → Bytes × I) (start : I) where
  pub after-append :
      (i : I) (a b : List Request)
      → after evaluate i (a ++ b) ≡ after evaluate (after evaluate i a) b
  unfolding after
  after-append i [] b = refl
  after-append i ((e, x) ∷ a) b = after-append (evaluate i x).1 a b

  pub outputs-append :
      (i : I) (a b : List Request)
      → outputs evaluate i (a ++ b)
        ≡ outputs evaluate i a ++ outputs evaluate (after evaluate i a) b
  unfolding outputs after
  outputs-append i [] b = refl
  outputs-append i ((true, x) ∷ a) b =
      ap (λ l. (evaluate i x).0 ∷ l) (outputs-append (evaluate i x).1 a b)
  outputs-append i ((false, x) ∷ a) b = outputs-append (evaluate i x).1 a b

  pub record Follows (s : System I) (ran left : List Request) : Type 0 where
    pub split : s.sent ≡ ran ++ left
    pub framed : s.ts.to_thread ≡ frames left ++ quit_frame s.joining
    pub results : s.received ++ s.ts.from_thread ≡ outputs evaluate start ran
    pub state : s.interp ≡ after evaluate start ran
    pub unlocked : s.ts.mutex ≡ new_lock false
    pub live : is_live s.ts ≡ true
    pub to_noticed : Notices (waiters s.worker) s.ts.to_thread s.ts.to_cond
    pub from_noticed : Notices (if s.reading then 1 else 0) s.ts.from_thread s.ts.from_cond

  abbrev pub Inv : System I → Type 0
  Inv s = (ran : List Request) × (left : List Request) × Follows s ran left
