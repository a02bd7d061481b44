-- ===== src/Sched/Notify/Rounds.antt =====
-- The bound on the rounds of `notifyDeps` over triggers.
use psingthreadlib.Prelude.{
  ℕ, zero, suc, ◌+◌, ◌≤◌, ◌<◌, ◌≡◌, refl, inl, inr, some, List, [], ◌∷◌, get_elem?, length, arith,
  Option-cases, sym, ◌∙◌,
}
use psingthreadlib.Prelude.Outcome.{Outcome, returns, faults, ◌>>=◌}
use psingthreadlib.Value.{Value}
use psingthreadlib.Sched.State.{Sched}
use psingthreadlib.Sched.Trigger.{Interp}
use psingthreadlib.Sched.Notify.{fire_one, fire_from}

entry_below : (l : List ℕ) (i t : ℕ) → get_elem? l i ≡ some t → i < length l
entry_below [] i t e = cc
entry_below (x ∷ l) zero t e = omega arith
entry_below (x ∷ l) (suc i) t e = let less = entry_below l i t e in omega arith

bind_same :
    (o : Outcome Sched) (f g : Sched → Outcome Sched)
    → ((u : Sched) → o ≡ returns u → f u ≡ g u)
    → (o >>= f) ≡ (o >>= g)
bind_same (returns u) f g h = h u refl
bind_same Outcome.blocks f g h = refl
bind_same Outcome.aborts f g h = refl
bind_same faults f g h = refl

-- `Q` holds through the loop, and bounds the triggers of the job.
module _ (interp : Interp) (arg : List Value) (j : ℕ) (Q : Sched → Type 0) (bound : ℕ)
    (few : (s : Sched) → Q s → length (s.jobs j).triggers ≤ bound)
    (kept : (s t : Sched) (k : ℕ) → Q s → fire_one interp arg k s ≡ returns t → Q t) where
  -- Where the triggers of a job stay within a bound while they fire, the number of rounds does not
  -- matter if it is above the bound: the loop is never cut short.
  pub fire_from-enough :
      (m n i : ℕ) (s : Sched)
      → Q s
      → bound ≤ i + m
      → bound ≤ i + n
      → fire_from interp (suc m) arg j i s ≡ fire_from interp (suc n) arg j i s
  unfolding fire_from
  fire_from-enough zero n i s q a b = elim (Option-cases (get_elem? (s.jobs j).triggers i)) [
    | inl e ↦ rw (fire_from, e) refl
    | inr (t, e) ↦
        let less = entry_below (s.jobs j).triggers i t e in
        let within = few s q in absurd (omega arith)
  ]
  fire_from-enough (suc m) zero i s q a b = elim (Option-cases (get_elem? (s.jobs j).triggers i)) [
    | inl e ↦ rw (fire_from, e) refl
    | inr (t, e) ↦
        let less = entry_below (s.jobs j).triggers i t e in
        let within = few s q in absurd (omega arith)
  ]
  fire_from-enough (suc m) (suc n) i s q a b =
      elim (Option-cases (get_elem? (s.jobs j).triggers i)) [
        | inl e ↦ rw (fire_from, e) refl
        | inr (t, e) ↦
            opened (suc m) t e
            ∙ bind_same (fire_one interp arg t s) (fire_from interp (suc m) arg j (suc i))
                (fire_from interp (suc n) arg j (suc i))
                (λ u f. fire_from-enough m n (suc i) u (kept s u t q f) (omega arith) (omega arith))
            ∙ sym (opened (suc n) t e)
      ]
    where
      opened :
          (r t : ℕ)
          → get_elem? (s.jobs j).triggers i ≡ some t
          → fire_from interp (suc r) arg j i s
            ≡ (fire_one interp arg t s >>= fire_from interp r arg j (suc i))
      opened r t e = rw (fire_from, e) refl
