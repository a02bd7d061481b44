-- ===== src/Sched/Trigger/Laws.antt =====
-- When triggers fire: counters, accumulators and sets, under any sequence of activations.
use psingthreadlib.Prelude.{
  ℕ, zero, suc, ◌-◌, ◌<◌, ◌≤◌, ◌≡◌, refl, inl, inr, ◌⊎◌, Bool, true, false, List, [], ◌∷◌, ◌++◌,
  map, take, append-nil, append_assoc, length, length-append, arith, ◌==◌, leb, modify, Bool-cases,
  All, sym, ap, ◌∙◌, Bytes,
}
use psingthreadlib.Prelude.Int.{ℤ, pos, negsuc}
use psingthreadlib.Prelude.Outcome.{Outcome, returns, ◌>>=◌}
use psingthreadlib.Value.{Value}
use psingthreadlib.Sched.Job.{
  JobClass, Job, Jobs, acc_trigger, count_trigger, set_trigger, deps_done, satisfied, ready,
}
use psingthreadlib.Sched.State.{Sched, at}
use psingthreadlib.Sched.Trigger.{
  Interp, activate, activate_class, set_activate, set_class, push_arg, acc_activate, int_of,
}

-- A sequence of activations of one trigger.
unfoldable pub activate_all : Interp → ℕ → List (List Value) → Sched → Outcome Sched
activate_all interp t [] s = returns s
activate_all interp t (arg ∷ args) s = activate interp t arg s >>= activate_all interp t args

deps_done-modify :
    (jobs : Jobs) (t : ℕ) (f : Job → Job) (ds : List ℕ)
    → ((x : Job) → (f x).done ≡ x.done)
    → deps_done (modify f t jobs) ds ≡ deps_done jobs ds
unfolding deps_done
deps_done-modify jobs t f [] h = refl
deps_done-modify jobs t f (d ∷ ds) h = ground (arith, h (jobs d), deps_done-modify jobs t f ds h)

-- The state of a trigger: its class, and whether what it depends on is done.
record Stands (c : JobClass) (s : Sched) (t : ℕ) : Type 0 where
  class : (s.jobs t).class ≡ c
  free : deps_done s.jobs (s.jobs t).deps ≡ true

Stands-set_class :
    (c c' : JobClass) (s : Sched) (t : ℕ) → Stands c s t → Stands c' (at t (set_class c') s) t
Stands-set_class c c' s t h = record { class = ground arith; free = deps ∙ h.free }
  where
    same : (modify (set_class c') t s.jobs t).deps ≡ (s.jobs t).deps
    same = ground arith

    deps :
        deps_done (modify (set_class c') t s.jobs) (modify (set_class c') t s.jobs t).deps
        ≡ deps_done s.jobs (s.jobs t).deps
    deps = rw same (deps_done-modify s.jobs t (set_class c') (s.jobs t).deps (λ x. refl))

ready-Stands :
    (c : JobClass) (s : Sched) (t : ℕ) → Stands c s t → ready s.jobs t ≡ satisfied c (s.jobs t).args
unfolding ready
ready-Stands c s t h = ground (arith, h.class, h.free)

-- One activation of a counter.
count_activate :
    (interp : Interp) (n t : ℕ) (arg : List Value) (s : Sched)
    → Stands (count_trigger n) s t
    → (u : Sched) × (activate interp t arg s ≡ returns u) × Stands (count_trigger (n - 1)) u t
unfolding activate activate_class satisfied
count_activate interp n t arg s h = elim (Bool-cases (n == 0)) [
  | inl z ↦ (s, stays z, record { class = h.class ∙ ground arith; free = h.free })
  | inr p ↦ (
    at t (set_class (count_trigger (n - 1))) s,
    moves p,
    Stands-set_class (count_trigger n) (count_trigger (n - 1)) s t h,
  )
]
  where
    stays : (n == 0) ≡ true → activate interp t arg s ≡ returns s
    stays z = ground (arith, ready-Stands (count_trigger n) s t h)

    moves :
        (n == 0) ≡ false
        → activate interp t arg s ≡ returns (at t (set_class (count_trigger (n - 1))) s)
    moves p = ground (arith, h.class, ready-Stands (count_trigger n) s t h)

activate_all-next :
    (interp : Interp) (t : ℕ) (arg : List Value) (args : List (List Value)) (s u w : Sched)
    → activate interp t arg s ≡ returns u
    → activate_all interp t args u ≡ returns w
    → activate_all interp t (arg ∷ args) s ≡ returns w
unfolding activate_all
activate_all-next interp t arg args s u w e e' = rw e e'

count-Stands :
    (interp : Interp) (n t : ℕ) (args : List (List Value)) (s : Sched)
    → Stands (count_trigger n) s t
    → (u : Sched) × (activate_all interp t args s ≡ returns u)
      × Stands (count_trigger (n - length args)) u t
count-Stands interp n t [] s h =
    (s, unfold activate_all in refl, record { class = h.class ∙ ground arith; free = h.free })
count-Stands interp n t (arg ∷ args) s h =
    let (u, e, hu) = count_activate interp n t arg s h in
    let (w, e', hw) = count-Stands interp (n - 1) t args u hu in
    (
      w,
      activate_all-next interp t arg args s u w e e',
      record { class = hw.class ∙ ap count_trigger (omega arith); free = hw.free },
    )

-- A count trigger with count `n` whose dependencies are done takes every sequence of activations,
-- and is ready behind it if and only if the sequence has at least `n` of them.
pub count_fires :
    (interp : Interp) (n t : ℕ) (args : List (List Value)) (s : Sched)
    → (s.jobs t).class ≡ count_trigger n
    → deps_done s.jobs (s.jobs t).deps ≡ true
    → (u : Sched) × (activate_all interp t args s ≡ returns u)
      × (ready u.jobs t ≡ leb n (length args))
count_fires interp n t args s c d =
    let (u, e, h) = count-Stands interp n t args s (record { class = c; free = d }) in
    (u, e, ready-Stands _ u t h ∙ (unfold satisfied in ground arith))

set_unmoved : (flags : List Bool) (v : ℤ) → set_activate flags 0 v ≡ set_trigger flags 0
unfolding set_activate
set_unmoved flags (pos n) = ground arith
set_unmoved flags (negsuc n) = refl

-- Is there an argument?
abbrev pub IsGiven : List Value → Type 0
IsGiven [] = ⊥
IsGiven (_ ∷ _) = Unit

set_activates :
    (interp : Interp) (flags : List Bool) (t : ℕ) (arg : List Value) (s : Sched)
    → IsGiven arg
    → Stands (set_trigger flags 0) s t
    → (u : Sched) × (activate interp t arg s ≡ returns u) × Stands (set_trigger flags 0) u t
set_activates interp flags t [] s g h = absurd g
set_activates interp flags t (v ∷ vs) s g h = elim (Bool-cases (ready s.jobs t)) [
  | inl r ↦ (s, unfold activate in rw r, h)
  | inr r ↦
      let u = at t (set_class (set_trigger flags 0)) s in
      (
        u,
        unfold activate activate_class in ground (arith, h.class, set_unmoved flags (int_of v)),
        Stands-set_class (set_trigger flags 0) (set_trigger flags 0) s t h,
      )
]

set-Stands :
    (interp : Interp) (flags : List Bool) (t : ℕ) (args : List (List Value)) (s : Sched)
    → All IsGiven args
    → Stands (set_trigger flags 0) s t
    → (u : Sched) × (activate_all interp t args s ≡ returns u) × Stands (set_trigger flags 0) u t
set-Stands interp flags t [] s g h = (s, unfold activate_all in refl, h)
set-Stands interp flags t (arg ∷ args) s g h =
    let (u, e, hu) = set_activates interp flags t arg s g.0 h in
    let (w, e', hw) = set-Stands interp flags t args u g.1 hu in
    (w, activate_all-next interp t arg args s u w e e', hw)

-- A new set trigger over a set that is not empty, with its dependencies done, takes every sequence
-- of activations with arguments and is never ready behind it.
pub set_never_fires :
    (interp : Interp) (flags : List Bool) (t : ℕ) (args : List (List Value)) (s : Sched)
    → 0 < length flags
    → (s.jobs t).class ≡ set_trigger flags 0
    → deps_done s.jobs (s.jobs t).deps ≡ true
    → All IsGiven args
    → (u : Sched) × (activate_all interp t args s ≡ returns u) × (ready u.jobs t ≡ false)
set_never_fires interp flags t args s some_flags c d g =
    let (u, e, h) = set-Stands interp flags t args s g (record { class = c; free = d }) in
    (u, e, ready-Stands _ u t h ∙ (unfold satisfied in ground arith))

take_zero : (n : ℕ) (xs ys : List Bytes) → n ≤ length xs → xs ++ take (n - length xs) ys ≡ xs
take_zero n xs ys h = ap (λ k. xs ++ take k ys) full ∙ append-nil xs
  where
    full : n - length xs ≡ 0
    full = omega arith

take_nil : (xs : List Bytes) (k : ℕ) → xs ++ take k [] ≡ xs
take_nil xs zero = append-nil xs
take_nil xs (suc k) = append-nil xs

take_one :
    (n : ℕ) (xs ys zs : List Bytes) (y : Bytes)
    → length xs < n
    → zs ≡ xs ++ y ∷ []
    → zs ++ take (n - length zs) ys ≡ xs ++ take (n - length xs) (y ∷ ys)
take_one n xs ys zs y h e =
    ap (λ l. l ++ take (n - length l) ys) e
    ∙ append_assoc xs (y ∷ []) (take (n - length (xs ++ y ∷ [])) ys)
    ∙ ap (λ k. xs ++ take k (y ∷ ys)) step
  where
    step : suc (n - length (xs ++ y ∷ [])) ≡ n - length xs
    step = omega (arith, length-append xs (y ∷ []))

module _ (interp : Interp) (n t : ℕ) where
  acc_ready :
      (s : Sched) → Stands (acc_trigger n) s t → ready s.jobs t ≡ leb n (length (s.jobs t).args)
  acc_ready s h = ready-Stands (acc_trigger n) s t h ∙ (unfold satisfied in refl)

  Stands-push :
      (b : Bytes) (s : Sched)
      → Stands (acc_trigger n) s t
      → Stands (acc_trigger n) (at t (push_arg b) s) t
  Stands-push b s h = record {
    class = ground arith;
    free =
        rw (same_deps)
          (deps_done-modify s.jobs t (push_arg b) (s.jobs t).deps (λ x. refl) ∙ h.free);
  }
    where
      same_deps : (modify (push_arg b) t s.jobs t).deps ≡ (s.jobs t).deps
      same_deps = ground arith

  push_args_at :
      (b : Bytes) (s : Sched) → (modify (push_arg b) t s.jobs t).args ≡ (s.jobs t).args ++ b ∷ []
  push_args_at b s = ground arith

  pushes :
      (v : Value) (vs : List Value) (s : Sched)
      → ready s.jobs t ≡ false
      → Stands (acc_trigger n) s t
      → (acc_activate interp t vs (modify (push_arg (interp.to_string v)) t s.jobs) t).args
        ≡ (modify (push_arg (interp.to_string v)) t s.jobs t).args
          ++ take
              (n - length (modify (push_arg (interp.to_string v)) t s.jobs t).args)
              (map interp.to_string vs)
      → (acc_activate interp t (v ∷ vs) s.jobs t).args
        ≡ (s.jobs t).args ++ take (n - length (s.jobs t).args) (map interp.to_string (v ∷ vs))
  unfolding acc_activate
  pushes v vs s r h ih =
      go (Bool-cases (ready (at t (push_arg (interp.to_string v)) s).jobs t))
      ∙ take_one n (s.jobs t).args (map interp.to_string vs) (s'.jobs t).args (interp.to_string v)
          (ground (arith, acc_ready s h)) (push_args_at (interp.to_string v) s)
    where
      s' : Sched
      s' = at t (push_arg (interp.to_string v)) s

      go :
          (ready s'.jobs t ≡ true) ⊎ (ready s'.jobs t ≡ false)
          → (acc_activate interp t (v ∷ vs) s.jobs t).args
            ≡ (s'.jobs t).args ++ take (n - length (s'.jobs t).args) (map interp.to_string vs)
      go (inl r') =
          rw (r, r')
            (sym (
              take_zero n (s'.jobs t).args (map interp.to_string vs)
                (ground (arith, acc_ready s' (Stands-push (interp.to_string v) s h)))))
      go (inr r') = rw (r, r') ih

  acc-Stands :
      (arg : List Value) (s : Sched)
      → Stands (acc_trigger n) s t
      → (acc_activate interp t arg s.jobs t).args
        ≡ (s.jobs t).args ++ take (n - length (s.jobs t).args) (map interp.to_string arg)
  acc-Stands [] s h =
      unfold acc_activate in sym (take_nil (s.jobs t).args (n - length (s.jobs t).args))
  acc-Stands (v ∷ vs) s h =
      let ih =
        acc-Stands vs (at t (push_arg (interp.to_string v)) s)
          (Stands-push (interp.to_string v) s h) in
      elim (Bool-cases (ready s.jobs t)) [
        | inl r ↦
            (unfold acc_activate in
              rw r (
                sym (
                  take_zero n (s.jobs t).args (map interp.to_string (v ∷ vs))
                    (ground (arith, acc_ready s h)))))
        | inr r ↦ pushes v vs s r h ih
      ]

  -- An accumulator whose dependencies are done takes of an activation the encodings of as many
  -- leading arguments as it still lacks, behind those it has, and no more.
  pub acc_takes :
      (arg : List Value) (s : Sched)
      → (s.jobs t).class ≡ acc_trigger n
      → deps_done s.jobs (s.jobs t).deps ≡ true
      → (acc_activate interp t arg s.jobs t).args
        ≡ (s.jobs t).args ++ take (n - length (s.jobs t).args) (map interp.to_string arg)
  acc_takes arg s c d = acc-Stands arg s (record { class = c; free = d })
