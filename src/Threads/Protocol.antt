-- ===== src/Threads/Protocol.antt =====
-- A thread and its parent at work: every interleaving of their calls on one `ThreadState`.
pub mod Serving
pub mod Kept
pub mod Asking
pub mod Running
pub mod Laws
use psingthreadlib.Prelude.{
  ℕ, ◌-◌, ◌<◌, ◌≡◌, Bool, true, false, List, [], ◌∷◌, ◌++◌, if◌then◌else◌, Bytes,
}
use psingthreadlib.Prelude.Outcome.{Outcome, returns}
use psingthreadlib.Sync.Lock.{Cond}
use psingthreadlib.Threads.State.{
  ThreadState, new_state, request, sleeps, got, take_result, take_resume, ask_to_quit,
}
use psingthreadlib.Threads.Worker as Worker
use psingthreadlib.Threads.Worker.{Works, serve_begin, serve_resume}
use psingthreadlib.Threads.Table.{begin_state}

-- A call of `threadEval`, or of `threadExec`, with the encoding of its expression.
abbrev pub Request : Type 0
Request = Bool × Bytes

abbrev pub command : Bool → Bytes
command eval = if eval then b'e' ∷ [] else b'x' ∷ []

-- Has the thread begun, does it sleep in its loop, or has it returned?
pub data Phase : Type 0 where
  starting waiting over : Phase

abbrev pub phase_of : Works → Phase
phase_of (Worker.sleeps _) = waiting
phase_of Worker.quit = over

-- `reading`: the parent sleeps in `threadResult`. `joining`: it has asked the thread to quit.
pub record System (I : Type 0) : Type 0 where
  pub ts : ThreadState
  pub interp : I
  pub worker : Phase
  pub reading : Bool
  pub joining : Bool
  pub sent : List Request
  pub received : List Bytes

abbrev pub wake : Cond → Cond
wake c = record c { asleep = c.asleep - 1 }

module _ {I : Type 0} (evaluate : I → Bytes → Bytes × I) (parent self : ℕ) where
  abbrev pub initial : ℕ → I → System I
  initial index i = record {
    ts = begin_state parent index new_state;
    interp = i;
    worker = starting;
    reading = false;
    joining = false;
    sent = [];
    received = [];
  }

  -- One critical section. The parent does one thing at a time; wake-ups may come without a signal.
  pub data Step (s : System I) : System I → Type 0 where
    requests :
        (eval : Bool) (expr : Bytes) {t : ThreadState}
        → s.joining ≡ false
        → s.reading ≡ false
        → request parent (command eval) expr s.ts ≡ returns (true, t)
        → Step s (record s { ts = t; sent = s.sent ++ (eval, expr) ∷ [] })
    takes :
        (expr : Bytes) {t : ThreadState}
        → s.joining ≡ false
        → s.reading ≡ false
        → take_result parent s.ts ≡ returns (got expr, t)
        → Step s (record s { ts = t; received = s.received ++ expr ∷ [] })
    falls_asleep :
        (depth : ℕ) {t : ThreadState}
        → s.joining ≡ false
        → s.reading ≡ false
        → take_result parent s.ts ≡ returns (sleeps depth, t)
        → Step s (record s { ts = t; reading = true })
    takes_woken :
        (expr : Bytes) {t : ThreadState}
        → s.reading ≡ true
        → s.ts.from_cond.asleep < s.ts.from_cond.waiting
        → take_resume parent 1 s.ts ≡ returns (got expr, t)
        → Step s (record s { ts = t; reading = false; received = s.received ++ expr ∷ [] })
    sleeps_again :
        (depth : ℕ) {t : ThreadState}
        → s.reading ≡ true
        → s.ts.from_cond.asleep < s.ts.from_cond.waiting
        → take_resume parent 1 s.ts ≡ returns (sleeps depth, t)
        → Step s (record s { ts = t })
    joins :
        {t : ThreadState}
        → s.joining ≡ false
        → s.reading ≡ false
        → ask_to_quit parent s.ts ≡ returns t
        → Step s (record s { ts = t; joining = true })
    begins :
        (r : Works) (i : I) {t : ThreadState}
        → s.worker ≡ starting
        → serve_begin evaluate self s.interp s.ts ≡ returns (r, i, t)
        → Step s (record s { ts = t; interp = i; worker = phase_of r })
    goes_on :
        (r : Works) (i : I) {t : ThreadState}
        → s.worker ≡ waiting
        → s.ts.to_cond.asleep < s.ts.to_cond.waiting
        → serve_resume evaluate self 1 s.interp s.ts ≡ returns (r, i, t)
        → Step s (record s { ts = t; interp = i; worker = phase_of r })
    wakes_worker :
        0 < s.ts.to_cond.asleep
        → Step s (record s { ts = record s.ts { to_cond = wake s.ts.to_cond } })
    wakes_parent :
        0 < s.ts.from_cond.asleep
        → Step s (record s { ts = record s.ts { from_cond = wake s.ts.from_cond } })

  pub data Reach (index : ℕ) (i : I) : System I → Type 0 where
    start : Reach index i (initial index i)
    later : {s t : System I} → Reach index i s → Step s t → Reach index i t

-- What the protocol promises: the thread is an interpreter that runs the requests in their order,
-- and answers those of `threadEval`.
module _ {I : Type 0} (evaluate : I → Bytes → Bytes × I) where
  unfoldable pub after : I → List Request → I
  after i [] = i
  after i ((_, expr) ∷ rest) = after (evaluate i expr).1 rest

  unfoldable pub outputs : I → List Request → List Bytes
  outputs i [] = []
  outputs i ((eval, expr) ∷ rest) =
      let more = outputs (evaluate i expr).1 rest in
      if eval then (evaluate i expr).0 ∷ more else more

-- The queue `to_thread` for these requests, and behind them for a parent that joins.
unfoldable pub frames : List Request → List Bytes
frames [] = []
frames ((eval, expr) ∷ rest) = command eval ∷ expr ∷ frames rest

abbrev pub quit_frame : Bool → List Bytes
quit_frame joining = if joining then (b'q' ∷ []) ∷ [] else []
