-- ===== src/Sched/Queue/Laws.antt =====
-- The order of the job queue: where `JobCompare` is an order, and what `pop` gives there.
use psingthreadlib.Prelude.{
  none, ℕ, ◌≡◌, refl, ◌≢◌, ◌⊎◌, inl, inr, Bool, true, false, some, List, [], ◌∷◌, arith, ◌==◌, ltb,
  if◌then◌else◌, All, Bool-cases, ==_iff, ◌∙◌, sym, subst,
}
use psingthreadlib.Prelude.Int.{ltb_ℤ, eq_ℤ}
use mathlib.Core.List.{Perm}
use mathlib.Core.List.Perm
use psingthreadlib.Sched.Job.{Job, Jobs, job_less}
use psingthreadlib.Sched.Queue.{top_of, remove, pop_top}

-- `JobCompare` behind its test of `fast`.
below : Job → Job → Bool
below a b =
    if ltb_ℤ a.prio b.prio then true else (if eq_ℤ a.prio b.prio then ltb b.id a.id else false)

job_less-below : (a b : Job) → a.fast ≡ b.fast → job_less a b ≡ below a b
unfolding job_less below
job_less-below a b f = rw f (elim (Bool-cases b.fast) [ inl e ↦ rw e | inr e ↦ rw e ])

below_irrefl : (a : Job) → below a a ≡ false
unfolding below
below_irrefl a = ground arith

below_trans : (a b c : Job) → below a b ≡ true → below b c ≡ true → below a c ≡ true
unfolding below
below_trans a b c h k = ground arith

below_total : (a b : Job) → a.id ≢ b.id → (below a b ≡ true) ⊎ (below b a ≡ true)
unfolding below
below_total a b ne = ground arith

below_asymm : (a b : Job) → below a b ≡ true → below b a ≡ false
unfolding below
below_asymm a b h = ground arith

-- Between jobs that are all fast or all not, `JobCompare` is a strict order: no job is below
-- itself, what is below a job is below all above it, and of two with different ids one is below.
pub job_less_order :
    (a b c : Job)
    → a.fast ≡ b.fast
    → b.fast ≡ c.fast
    → (job_less a a ≡ false)
      × (job_less a b ≡ true → job_less b c ≡ true → job_less a c ≡ true)
      × (a.id ≢ b.id → (job_less a b ≡ true) ⊎ (job_less b a ≡ true))
job_less_order a b c f g =
    rw
      (
        job_less-below a a refl,
        job_less-below a b f,
        job_less-below b c g,
        job_less-below a c (f ∙ g),
        job_less-below b a (sym f),
      )
      (below_irrefl a, below_trans a b c, below_total a b)

-- A fast job of lower priority and a job that is not fast are each below the other, so that over
-- both kinds `JobCompare` is no order.
pub job_less_both_ways :
    (a b : Job)
    → a.fast ≡ false
    → b.fast ≡ true
    → ltb_ℤ b.prio a.prio ≡ true
    → (job_less a b ≡ true) × (job_less b a ≡ true)
unfolding job_less
job_less_both_ways a b f g h = ground arith

-- Every job of the list is fast, or every one is not.
abbrev pub Alike : Bool → Jobs → List ℕ → Type 0
Alike f jobs js = All (λ j. (jobs j).fast ≡ f) js

below_step : (a b c : Job) → below b c ≡ true → below a c ≡ false → below a b ≡ false
unfolding below
below_step a b c h k = ground arith

not_below_trans : (a b c : Job) → below a b ≡ false → below b c ≡ false → below a c ≡ false
unfolding below
not_below_trans a b c h k = ground arith

abbrev pub In : ℕ → List ℕ → Type 0
In j [] = ⊥
In j (k ∷ ks) = (j ≡ k) ⊎ In j ks

-- A job that beats `best` is the new best, and one that does not leaves it.
top_of-beaten :
    (jobs : Jobs) (best j : ℕ) (js : List ℕ)
    → job_less (jobs best) (jobs j) ≡ true
    → top_of jobs best (j ∷ js) ≡ top_of jobs j js
unfolding top_of
top_of-beaten jobs best j js e = rw e

top_of-kept :
    (jobs : Jobs) (best j : ℕ) (js : List ℕ)
    → job_less (jobs best) (jobs j) ≡ false
    → top_of jobs best (j ∷ js) ≡ top_of jobs best js
unfolding top_of
top_of-kept jobs best j js e = rw e

In-skip : (t best j : ℕ) (js : List ℕ) → In t (best ∷ js) → In t (best ∷ j ∷ js)
In-skip t best j js (inl h) = inl h
In-skip t best j js (inr h) = inr (inr h)

pub top_of-In : (jobs : Jobs) (best : ℕ) (js : List ℕ) → In (top_of jobs best js) (best ∷ js)
top_of-In jobs best [] = inl (unfold top_of in refl)
top_of-In jobs best (j ∷ js) = elim (Bool-cases (job_less (jobs best) (jobs j))) [
  | inl e ↦
      subst (λ t. In t (best ∷ j ∷ js)) (sym (top_of-beaten jobs best j js e))
        (inr (top_of-In jobs j js))
  | inr e ↦
      subst (λ t. In t (best ∷ j ∷ js)) (sym (top_of-kept jobs best j js e))
        (In-skip _ best j js (top_of-In jobs best js))
]

remove-perm : (j : ℕ) (l : List ℕ) → In j l → Perm (j ∷ remove j l) l
unfolding remove
remove-perm j [] h = absurd h
remove-perm j (k ∷ ks) h = elim (Bool-cases (j == k)) [
  | inl e ↦ rw (e, (==_iff j k).0 e) (Perm.refl (k ∷ ks))
  | inr e ↦
      rw e (Perm.trans (Perm.swap k j (remove j ks)) (Perm.cons k (remove-perm j ks (rest e h))))
]
  where
    rest : (j == k) ≡ false → In j (k ∷ ks) → In j ks
    rest e (inl p) = ground (arith, ==_iff j k)
    rest e (inr p) = p

module _ (f : Bool) (jobs : Jobs) where
  abbrev pub Tops : ℕ → List ℕ → Type 0
  Tops t js = All (λ k. job_less (jobs t) (jobs k) ≡ false) js

  top_of-Alike :
      (best : ℕ) (js : List ℕ) → Alike f jobs (best ∷ js) → (jobs (top_of jobs best js)).fast ≡ f
  unfolding top_of
  top_of-Alike best [] h = h.0
  top_of-Alike best (j ∷ js) h = elim (Bool-cases (job_less (jobs best) (jobs j))) [
    | inl e ↦ rw e (top_of-Alike j js h.1)
    | inr e ↦ rw e (top_of-Alike best js (h.0, h.1.1))
  ]

  -- If `b` beats `a`, what does not lose to `b` does not lose to `a`.
  Tops-beaten :
      (t a b : ℕ)
      → (jobs t).fast ≡ f
      → (jobs a).fast ≡ f
      → (jobs b).fast ≡ f
      → job_less (jobs a) (jobs b) ≡ true
      → job_less (jobs t) (jobs b) ≡ false
      → job_less (jobs t) (jobs a) ≡ false
  Tops-beaten t a b ft fa fb h k =
      job_less-below (jobs t) (jobs a) (ft ∙ sym fa)
      ∙ below_step (jobs t) (jobs a) (jobs b)
          (sym (job_less-below (jobs a) (jobs b) (fa ∙ sym fb)) ∙ h)
          (sym (job_less-below (jobs t) (jobs b) (ft ∙ sym fb)) ∙ k)

  Tops-kept :
      (t a b : ℕ)
      → (jobs t).fast ≡ f
      → (jobs a).fast ≡ f
      → (jobs b).fast ≡ f
      → job_less (jobs t) (jobs a) ≡ false
      → job_less (jobs a) (jobs b) ≡ false
      → job_less (jobs t) (jobs b) ≡ false
  Tops-kept t a b ft fa fb h k =
      job_less-below (jobs t) (jobs b) (ft ∙ sym fb)
      ∙ not_below_trans (jobs t) (jobs a) (jobs b)
          (sym (job_less-below (jobs t) (jobs a) (ft ∙ sym fa)) ∙ h)
          (sym (job_less-below (jobs a) (jobs b) (fa ∙ sym fb)) ∙ k)

  top_of-Tops :
      (best : ℕ) (js : List ℕ) → Alike f jobs (best ∷ js) → Tops (top_of jobs best js) (best ∷ js)
  top_of-Tops best [] h =
      (unfold top_of in (job_less-below _ _ refl ∙ below_irrefl (jobs best)), tt)
  top_of-Tops best (j ∷ js) (hb, hr) = elim (Bool-cases (job_less (jobs best) (jobs j))) [
    | inl e ↦
        subst (λ t. Tops t (best ∷ j ∷ js)) (sym (top_of-beaten jobs best j js e))
          (let ih = top_of-Tops j js hr in
            (Tops-beaten (top_of jobs j js) best j (top_of-Alike j js hr) hb hr.0 e ih.0, ih))
    | inr e ↦
        subst (λ t. Tops t (best ∷ j ∷ js)) (sym (top_of-kept jobs best j js e))
          (let ih = top_of-Tops best js (hb, hr.1) in
            (
              ih.0,
              (
                Tops-kept (top_of jobs best js) best j (top_of-Alike best js (hb, hr.1)) hb hr.0
                    ih.0 e,
                ih.1,
              ),
            ))
  ]

-- Of a queue whose jobs are all fast or all not, `pop` takes a job that no job of the queue is
-- above: it has the highest priority, and the lowest id of those. The others stay, and none is
-- lost or added. It gives none for the empty queue, and for no other.
pub pop_top-greatest :
    (f : Bool) (jobs : Jobs) (q : List ℕ)
    → Alike f jobs q
    → ((q ≡ []) × (pop_top jobs q ≡ none))
      ⊎ ((j : ℕ) × (rest : List ℕ) × (pop_top jobs q ≡ some (j, rest))
          × Tops f jobs j q
          × Perm (j ∷ rest) q)
unfolding pop_top
pop_top-greatest f jobs [] h = inl (refl, refl)
pop_top-greatest f jobs (x ∷ xs) h =
    let t = top_of jobs x xs in
    inr (
      t,
      remove t (x ∷ xs),
      refl,
      top_of-Tops f jobs x xs h,
      remove-perm t (x ∷ xs) (top_of-In jobs x xs),
    )
