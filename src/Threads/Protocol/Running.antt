-- ===== src/Threads/Protocol/Running.antt =====
-- What a round of the thread keeps.
use psingthreadlib.Prelude.{
  ℕ, ◌≤◌, ◌≡◌, refl, ap, sym, ◌∙◌, subst, Bool, true, false, List, [], ◌∷◌, ◌++◌, append-nil,
  append_assoc, if◌then◌else◌, Bytes, arith,
}
use psingthreadlib.Prelude.Outcome.{returns}
use psingthreadlib.Sync.Lock.{Cond}
use psingthreadlib.Sched.State.{notify_one}
use psingthreadlib.Threads.State.{ThreadState}
use psingthreadlib.Threads.Worker as Worker
use psingthreadlib.Threads.Worker.{Works, serve_begin, serve_resume}
use psingthreadlib.Threads.Protocol.{Request, phase_of, System, after, outputs, frames, quit_frame}
use psingthreadlib.Threads.Protocol.Serving.{held, notifies, slept, result_of, served, serve-frames}
use psingthreadlib.Threads.Protocol.Kept.{Notices, Inv, waiters, after-append, outputs-append}

module _ {I : Type 0} (evaluate : I → Bytes → Bytes × I) (start : I) where
  notifies-quiet :
      (n : ℕ) (reqs : List Request) (c : Cond)
      → n ≤ 1
      → (c.waiting ≡ n) × (c.asleep ≤ 0)
      → ((notifies reqs c).waiting ≡ n) × ((notifies reqs c).asleep ≤ 0)
  unfolding notifies
  notifies-quiet n [] c h v = v
  notifies-quiet n (r ∷ rest) c h v = notifies-quiet n rest (notify_one c) h (ground arith)

  notifies-Notices :
      (n : ℕ) (i : I) (q : List Bytes) (reqs : List Request) (c : Cond)
      → n ≤ 1
      → Notices n q c
      → Notices n (q ++ outputs evaluate i reqs) (notifies reqs c)
  unfolding notifies outputs
  notifies-Notices n i q [] c h v = subst (λ l. Notices n l c) (sym (append-nil q)) v
  notifies-Notices n i q (r ∷ rest) c h v =
      let (w, a) = notifies-quiet n rest (notify_one c) h (ground arith) in
      (w, omega arith, λ _. omega arith)

  rest-Notices :
      (joining : Bool) (c : Cond)
      → c.waiting ≡ 0
      → c.asleep ≤ 0
      → Notices
          (waiters (phase_of (result_of evaluate 0 joining)))
          (quit_frame joining)
          (if joining then c else slept c)
  rest-Notices true c w a = (w, a, λ _. omega arith)
  rest-Notices false c w a = (omega arith, omega arith, λ h. absurd (h refl))

  reader_le : (b : Bool) → (if b then 1 else 0) ≤ 1
  reader_le true = omega arith
  reader_le false = omega arith

  module _ (self : ℕ) (s : System I) where
    pub serve-Inv :
        (c : Cond) (r : Works) (i : I) {t : ThreadState}
        → c.waiting ≡ 0
        → c.asleep ≤ 0
        → Worker.serve evaluate self s.ts.to_thread s.interp
            (record s.ts { mutex = held self; to_cond = c })
          ≡ returns (r, i, t)
        → Inv evaluate start s
        → Inv evaluate start (record s { ts = t; interp = i; worker = phase_of r })
    unfolding frames
    serve-Inv c r i {t} w a e (ran, left, v) =
        let ts : ThreadState = record s.ts { to_cond = c } in
        let made =
          ap (λ q. Worker.serve evaluate self q s.interp (record ts { mutex = held self })) v.framed
          ∙ serve-frames evaluate self left s.joining s.interp ts in
        let end : Works × I × ThreadState = (
          result_of evaluate self s.joining,
          after evaluate s.interp left,
          served evaluate self left s.joining s.interp ts,
        ) in
        let same : end ≡ (r, i, t) = cc in
        subst (λ x. Inv evaluate start (record s { ts = x.2; interp = x.1; worker = phase_of x.0 }))
          same
          (
            ran ++ left,
            [],
            record {
              split = v.split ∙ sym (append-nil (ran ++ left));
              framed = refl;
              results =
                  sym (append_assoc s.received s.ts.from_thread (outputs evaluate s.interp left))
                  ∙ ap (λ l. l ++ outputs evaluate s.interp left) v.results
                  ∙ ap (λ i. outputs evaluate start ran ++ outputs evaluate i left) v.state
                  ∙ sym (outputs-append evaluate start start ran left);
              state =
                  ap (λ i. after evaluate i left) v.state
                  ∙ sym (after-append evaluate start start ran left);
              unlocked = refl;
              live = v.live;
              to_noticed = rest-Notices s.joining c w a;
              from_noticed =
                  notifies-Notices (if s.reading then 1 else 0) s.interp s.ts.from_thread left
                    s.ts.from_cond (reader_le s.reading) v.from_noticed;
            },
          )
