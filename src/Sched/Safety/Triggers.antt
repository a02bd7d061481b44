-- ===== src/Sched/Safety/Triggers.antt =====
-- `activate`, `notifyDeps`, `addNotify`, `attachJob` and `cancelJob` keep the invariant.
use psingthreadlib.Prelude.{
  ℕ, ◌≡◌, refl, inl, inr, Bool, true, false, List, [], ◌∷◌, ◌++◌, if◌then◌else◌, All, Bool-cases,
  zero, suc, ◌+◌, length, get_elem?, none, some, Option-cases, subst, sym, Bytes,
}
use psingthreadlib.Prelude.Outcome.{returns, faults, ◌>>=◌, >>=-eq-returns}
use psingthreadlib.Value.{Value}
use psingthreadlib.Sched.Job.{
  JobClass, eval, exec, kernel, raw_kernel, proc, acc_trigger, count_trigger, set_trigger,
  proc_trigger, ready,
}
use psingthreadlib.Sched.State.{Sched, at, incref, queue_job}
use psingthreadlib.Sched.Trigger.{
  Interp, accept, activate, activate_class, acc_activate, proc_activate, is_success, push_arg,
  set_class, decode_args,
}
use psingthreadlib.Sched.Notify.{
  notify_all, fire_one, fire_from, fire_all, trigger_arg, notify_deps,
}
use psingthreadlib.Sched.Safety.Kept.{
  Member, Member-mono, Members-mono, Apart, Inv, Kept, Harmless, ready→IsFree, Kept-refl,
  Kept-trans, at-Kept,
}
use psingthreadlib.Sched.Safety.Parts.{
  Rely, KeptIf, KeptIf-returns, KeptIf-bind, queue_job-Kept, incref-Harmless, notify_all-Kept,
}

set_class-Harmless : (c : JobClass) → Harmless (set_class c)
set_class-Harmless c = record {
  deps = λ x. refl;
  done = λ x h. h;
  pool = λ x h. h;
  notify = λ x. refl;
  triggers = λ x. refl;
}

push_arg-Harmless : (b : Bytes) → Harmless (push_arg b)
push_arg-Harmless b = record {
  deps = λ x. refl;
  done = λ x h. h;
  pool = λ x h. h;
  notify = λ x. refl;
  triggers = λ x. refl;
}

KeptIf-faults : (P : ℕ → Type 0) (s : Sched) → KeptIf P s faults
KeptIf-faults P s t e = cc

module _ (interp : Interp) (rely : Rely interp) (P : ℕ → Type 0) where
  class_kept :
      (c : JobClass) (t : ℕ) (s : Sched) → Inv P s → KeptIf P s (returns (at t (set_class c) s))
  class_kept c t s v =
      KeptIf-returns P s (at t (set_class c) s)
        (at-Kept P (set_class c) t s (set_class-Harmless c) v)

  acc_activate-Kept :
      (t : ℕ) (arg : List Value) (s : Sched)
      → Inv P s
      → Kept P s (record s { jobs = acc_activate interp t arg s.jobs })
  unfolding acc_activate
  acc_activate-Kept t [] s v = Kept-refl P s v
  acc_activate-Kept t (a ∷ more) s v = elim (Bool-cases (ready s.jobs t)) [
    | inl e ↦ rw e (Kept-refl P s v)
    | inr e ↦
        let s' = at t (push_arg (interp.to_string a)) s in
        let k =
          at-Kept P (push_arg (interp.to_string a)) t s (push_arg-Harmless (interp.to_string a))
            v in
        elim (Bool-cases (ready s'.jobs t)) [
          | inl e' ↦ rw (e, e') k
          | inr e' ↦
              rw (e, e')
                (Kept-trans P s s' (record s' { jobs = acc_activate interp t more s'.jobs }) k
                  (acc_activate-Kept t more s' k.inv))
        ]
  ]

  proc_activate-Kept :
      (name : Bytes) (success : Bool) (t : ℕ) (arg : List Value) (s : Sched)
      → Apart rely.Others P
      → Inv P s
      → Kept P s (proc_activate interp name success t arg s)
  unfolding proc_activate
  proc_activate-Kept name success t arg s n v =
      let args = decode_args interp (s.jobs t).args ++ arg in
      let s' = (interp.execute_proc name args s).1 in
      let k = rely.keeps P name args s n v in
      elim (Bool-cases (is_success (interp.execute_proc name args s).0)) [
        | inr e ↦ rw e k
        | inl e ↦ rw e (
            Kept-trans P s s' (at t (set_class (proc_trigger name true)) s') k (
              at-Kept P (set_class (proc_trigger name true)) t s'
                (set_class-Harmless (proc_trigger name true)) k.inv))
      ]

  activate_class-Kept :
      (c : JobClass) (t : ℕ) (arg : List Value) (s : Sched)
      → Apart rely.Others P
      → Inv P s
      → KeptIf P s (activate_class interp c t arg s)
  unfolding activate_class
  activate_class-Kept (count_trigger count) t arg s n v = class_kept _ t s v
  activate_class-Kept (set_trigger flags count) t [] s n v = KeptIf-faults P s
  activate_class-Kept (set_trigger flags count) t (a ∷ _) s n v = class_kept _ t s v
  activate_class-Kept (proc_trigger name success) t arg s n v =
      KeptIf-returns P s _ (proc_activate-Kept name success t arg s n v)
  activate_class-Kept (acc_trigger count) t arg s n v =
      KeptIf-returns P s _ (acc_activate-Kept t arg s v)
  activate_class-Kept eval t arg s n v = KeptIf-faults P s
  activate_class-Kept exec t arg s n v = KeptIf-faults P s
  activate_class-Kept kernel t arg s n v = KeptIf-faults P s
  activate_class-Kept raw_kernel t arg s n v = KeptIf-faults P s
  activate_class-Kept (proc name) t arg s n v = KeptIf-faults P s

  pub activate-Kept :
      (t : ℕ) (arg : List Value) (s : Sched)
      → Apart rely.Others P
      → Inv P s
      → KeptIf P s (activate interp t arg s)
  unfolding activate
  activate-Kept t arg s n v = elim (Bool-cases (ready s.jobs t)) [
    | inl e ↦ rw e (KeptIf-returns P s s (Kept-refl P s v))
    | inr e ↦ rw e (activate_class-Kept (s.jobs t).class t arg s n v)
  ]

  fired : ℕ → Sched → Sched
  fired t s = if ready s.jobs t then queue_job t s else s

  fired-Kept : (t : ℕ) (s : Sched) → Member P s.jobs t → Inv P s → Kept P s (fired t s)
  unfolding fired
  fired-Kept t s p v = elim (Bool-cases (ready s.jobs t)) [
    | inl e ↦ rw e (queue_job-Kept P t s v p (ready→IsFree s.jobs t e))
    | inr e ↦ rw e (Kept-refl P s v)
  ]

  fire_one-Kept :
      (arg : List Value) (t : ℕ) (s : Sched)
      → Member P s.jobs t
      → Apart rely.Others P
      → Inv P s
      → KeptIf P s (fire_one interp arg t s)
  unfolding fire_one
  fire_one-Kept arg t s p n v u e =
      let (accepted, ea, eb) = >>=-eq-returns (accept (s.jobs t).class arg) _ e in go accepted eb
    where
      go :
          (accepted : Bool)
          → (if accepted
              then (activate interp t arg s >>= λ s'.
                  returns (if ready s'.jobs t then queue_job t s' else s'))
              else returns s)
            ≡ returns u
          → Kept P s u
      go true h =
          KeptIf-bind P s (activate interp t arg s) (λ s'. returns (fired t s'))
            (activate-Kept t arg s n v)
            (λ s' k.
              KeptIf-returns P s' (fired t s')
                (fired-Kept t s' (Member-mono P s.jobs s'.jobs t k.steady p) k.inv))
            u (unfold fired in h)
      go false h = KeptIf-returns P s s (Kept-refl P s v) u h

  entry : (l : List ℕ) (i t : ℕ) (Q : ℕ → Type 0) → get_elem? l i ≡ some t → All Q l → Q t
  entry [] i t Q e h = cc
  entry (x ∷ xs) zero t Q e h = let same : x ≡ t = cc in subst Q same h.0
  entry (x ∷ xs) (suc i) t Q e h = entry xs i t Q e h.1

  fire_from-Kept :
      (rounds : ℕ) (arg : List Value) (j i : ℕ) (s : Sched)
      → Apart rely.Others P
      → Inv P s
      → KeptIf P s (fire_from interp rounds arg j i s)
  unfolding fire_from
  fire_from-Kept zero arg j i s n v = λ u e. cc
  fire_from-Kept (suc rounds) arg j i s n v =
      elim (Option-cases (get_elem? (s.jobs j).triggers i)) [
        | inl e ↦ subst (KeptIf P s) (sym (over e)) (KeptIf-returns P s s (Kept-refl P s v))
        | inr (t, e) ↦ subst (KeptIf P s) (sym (next t e)) (
            KeptIf-bind P s (fire_one interp arg t s) (fire_from interp rounds arg j (suc i))
              (fire_one-Kept arg t s
                (entry (s.jobs j).triggers i t (Member P s.jobs) e (v.chained j)) n v)
              (λ s' k. fire_from-Kept rounds arg j (suc i) s' n k.inv))
      ]
    where
      over :
          get_elem? (s.jobs j).triggers i ≡ none
          → fire_from interp (suc rounds) arg j i s ≡ returns s
      over e = rw (fire_from, e) refl

      next :
          (t : ℕ)
          → get_elem? (s.jobs j).triggers i ≡ some t
          → fire_from interp (suc rounds) arg j i s
            ≡ (fire_one interp arg t s >>= fire_from interp rounds arg j (suc i))
      next t e = rw (fire_from, e) refl

  pub notify_deps-Kept :
      (j : ℕ) (s : Sched) → Apart rely.Others P → Inv P s → KeptIf P s (notify_deps interp j s)
  unfolding notify_deps fire_all
  notify_deps-Kept j s n v t e =
      let s1 = at j incref s in
      let k1 = at-Kept P incref j s incref-Harmless v in
      let s2 = notify_all (s.jobs j).notify s1 in
      let k2 =
        notify_all-Kept P (s.jobs j).notify s1 k1.inv
          (Members-mono P s.jobs s1.jobs (s.jobs j).notify k1.steady (v.dependents j)) in
      let k = Kept-trans P s s1 s2 k1 k2 in
      Kept-trans P s s2 t k (
        fire_from-Kept (suc (length (s2.jobs j).triggers + interp.rounds))
          (trigger_arg interp (s2.jobs j)) j 0 s2 n k.inv t e)
