-- ===== src/Threads/Protocol/Serving.antt =====
-- What one round of `interpreter_thread` does to the requests that it finds.
use psingthreadlib.Prelude.{
  ℕ, ◌+◌, ◌-◌, ◌≡◌, refl, ap, sym, ◌∙◌, Bool, true, false, some, List, [], ◌∷◌, ◌++◌, append-nil,
  append_assoc, if◌then◌else◌, Bytes, arith,
}
use psingthreadlib.Prelude.Outcome.{returns}
use psingthreadlib.Sync.Lock.{Lock, new_lock, lock, unlock, Cond, wait_begin, wait_end, signal}
use psingthreadlib.Sched.State.{notify_one}
use psingthreadlib.Threads.State.{ThreadState}
use psingthreadlib.Threads.Worker.{Works, sleeps, quit, serve}
use psingthreadlib.Threads.Protocol.{Request, after, outputs, frames, quit_frame}

abbrev pub held : ℕ → Lock
held self = record { mutex = some self; owner = some self; locked = 1; recursive = false }

-- A signal for each request.
unfoldable pub notifies : List Request → Cond → Cond
notifies [] c = c
notifies (_ ∷ rest) c = notifies rest (notify_one c)

abbrev pub slept : Cond → Cond
slept c = record { waiting = c.waiting + 1; asleep = c.asleep + 1 }

module _ (self : ℕ) where
  pub lock-free : lock self (new_lock false) ≡ returns (held self)
  unfolding lock
  lock-free = refl

  pub unlock-held : unlock self (held self) ≡ returns (new_lock false)
  unfolding unlock
  unlock-held = ground arith

  pub signal-held : (c : Cond) → signal self (held self) c ≡ returns (notify_one c)
  unfolding signal
  signal-held c = ground arith

  pub wait_begin-held :
      (c : Cond) → wait_begin self (held self) c ≡ returns (1, new_lock false, slept c)
  unfolding wait_begin
  wait_begin-held c = ground arith

  pub wait_end-free :
      (c : Cond)
      → wait_end self 1 (new_lock false) c
        ≡ returns (held self, record c { waiting = c.waiting - 1 })
  unfolding wait_end
  wait_end-free c = refl

module _ {I : Type 0} (evaluate : I → Bytes → Bytes × I) (self : ℕ) where
  abbrev pub result_of : Bool → Works
  result_of joining = if joining then quit else sleeps 1

  abbrev pub served : List Request → Bool → I → ThreadState → ThreadState
  served reqs joining i ts = record ts {
    to_thread = quit_frame joining;
    from_thread = ts.from_thread ++ outputs evaluate i reqs;
    from_cond = notifies reqs ts.from_cond;
    to_cond = if joining then ts.to_cond else slept ts.to_cond;
    mutex = new_lock false;
    ended = if joining then true else ts.ended;
  }

  -- All requests are run in their order; then the thread quits or sleeps.
  pub serve-frames :
      (reqs : List Request) (joining : Bool) (i : I) (ts : ThreadState)
      → serve evaluate self (frames reqs ++ quit_frame joining) i (record ts { mutex = held self })
        ≡ returns (result_of joining, after evaluate i reqs, served reqs joining i ts)
  unfolding serve frames after outputs notifies
  serve-frames [] true i ts = rw (unlock-held self) (
      ap (λ f. returns (quit, i, record (served [] true i ts) { from_thread = f }))
        (sym (append-nil ts.from_thread)))
  serve-frames [] false i ts = rw (wait_begin-held self ts.to_cond) (
      ap (λ f. returns (sleeps 1, i, record (served [] false i ts) { from_thread = f }))
        (sym (append-nil ts.from_thread)))
  serve-frames ((true, expr) ∷ rest) joining i ts =
      let (value, i') = evaluate i expr in
      rw (signal-held self ts.from_cond) (
        serve-frames rest joining i' (record ts {
          from_thread = ts.from_thread ++ value ∷ [];
          from_cond = notify_one ts.from_cond;
        })
        ∙ ap
            (λ f. returns (
              result_of joining,
              after evaluate i' rest,
              record (served ((true, expr) ∷ rest) joining i ts) { from_thread = f },
            ))
            (append_assoc ts.from_thread (value ∷ []) (outputs evaluate i' rest)))
  serve-frames ((false, expr) ∷ rest) joining i ts = rw (signal-held self ts.from_cond) (
      serve-frames rest joining (evaluate i expr).1
        (record ts { from_cond = notify_one ts.from_cond }))
