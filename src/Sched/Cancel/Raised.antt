-- ===== src/Sched/Cancel/Raised.antt =====
-- `cancelJob`: jobs before and after, whose flags only rise, and how many are not cancelled.
use psingthreadlib.Prelude.{
  ℕ, zero, suc, ◌+◌, ◌<◌, ◌≤◌, ◌≡◌, refl, ◌⊎◌, inl, inr, true, false, List, arith, ◌==◌,
  if◌then◌else◌, modify, All, All-mono, Bool-cases, subst,
}
use psingthreadlib.Sched.Job.{Job, Jobs}
use psingthreadlib.Sched.Cancel.{mark_dropped}

-- One job before and after: only its flags `cancelled` and `done` rise, and `done` rises with
-- `cancelled` alone.
pub record Raised (x y : Job) : Type 0 where
  pub same : y ≡ record x { cancelled = y.cancelled; done = y.done }
  pub up : x.cancelled ≡ true → y.cancelled ≡ true
  pub up_done : x.done ≡ true → y.done ≡ true
  pub why : y.done ≡ true → (x.done ≡ true) ⊎ (y.cancelled ≡ true)

abbrev pub Spread : Jobs → Jobs → Type 0
Spread a b = (k : ℕ) → Raised (a k) (b k)

abbrev pub AllCancelled : Jobs → List ℕ → Type 0
AllCancelled b js = All (λ n. (b n).cancelled ≡ true) js

-- What was cancelled before it ran has all its dependents cancelled.
abbrev pub Closed : Jobs → Jobs → Type 0
Closed a b =
    (k : ℕ)
    → (a k).cancelled ≡ false
    → (b k).cancelled ≡ true
    → (a k).running ≡ false
    → (a k).done ≡ false
    → AllCancelled b (a k).notify

pub Raised-refl : (x : Job) → Raised x x
Raised-refl x = ground arith

pub Raised-trans : (x y z : Job) → Raised x y → Raised y z → Raised x z
Raised-trans x y z h k = ground arith

pub AllCancelled-mono :
    (b c : Jobs) (js : List ℕ) → Spread b c → AllCancelled b js → AllCancelled c js
AllCancelled-mono b c js s = All-mono _ _ js (λ k. (s k).up)

-- The jobs below `n` that are not cancelled.
unfoldable pub live : ℕ → Jobs → ℕ
live zero jobs = 0
live (suc n) jobs = live n jobs + (if (jobs n).cancelled then 0 else 1)

pub live-Spread : (n : ℕ) (a b : Jobs) → Spread a b → live n b ≤ live n a
unfolding live
live-Spread zero a b s = omega arith
live-Spread (suc n) a b s = ground (arith, live-Spread n a b s, (s n).up)

pub live-modify_ge : (n j : ℕ) (a : Jobs) (f : Job → Job) → n ≤ j → live n (modify f j a) ≡ live n a
unfolding live
live-modify_ge zero j a f h = refl
live-modify_ge (suc n) j a f h = ground (arith, live-modify_ge n j a f)

pub live-dropped :
    (n j : ℕ) (a : Jobs)
    → j < n
    → (a j).cancelled ≡ false
    → live n (modify mark_dropped j a) + 1 ≡ live n a
unfolding live
live-dropped zero j a h e = absurd (omega arith)
live-dropped (suc n) j a h e = elim (Bool-cases (j == n)) [
  | inl p ↦ ground (arith, live-modify_ge n j a mark_dropped)
  | inr p ↦ ground (arith, live-dropped n j a)
]

-- Dependents have addresses below `n`.
abbrev pub Bounded : ℕ → Jobs → Type 0
Bounded n a = (k : ℕ) → All (λ m. m < n) (a k).notify

pub Bounded-Spread : (n : ℕ) (a b : Jobs) → Spread a b → Bounded n a → Bounded n b
Bounded-Spread n a b s h k = subst (All (λ m. m < n)) (notify_same (a k) (b k) (s k)) (h k)
  where
    notify_same : (x y : Job) → Raised x y → x.notify ≡ y.notify
    notify_same x y r = ground arith
