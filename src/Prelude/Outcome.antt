-- ===== src/Prelude/Outcome.antt =====
-- How a call ends: it returns, it waits for a mutex that another thread holds, the library aborts
-- the process (`ThreadError`), or the C++ code leaves what the language defines.
use mathlib.Core.Path.{◌≡◌, refl}
use mathlib.Core.Option.{Option, none, some}

pub data Outcome {ℓ} (A : Type ℓ) : Type ℓ where
  returns : A → Outcome A
  blocks : Outcome A
  aborts : Outcome A
  faults : Outcome A

infixl 5 ◌>>=◌ ◌>>◌
abbrev pub ◌>>=◌ {ℓ κ} : {A : Type ℓ} {B : Type κ} → Outcome A → (A → Outcome B) → Outcome B
returns a >>= f = f a
blocks >>= f = blocks
aborts >>= f = aborts
faults >>= f = faults

abbrev pub ◌>>◌ {ℓ} : {B : Type ℓ} → Outcome (Unit {0}) → Outcome B → Outcome B
m >> k = m >>= λ _. k

-- A read through a pointer, which is a fault where it points to nothing.
abbrev pub deref {ℓ} : {A : Type ℓ} → Option A → Outcome A
deref none = faults
deref (some a) = returns a

pub >>=-eq-returns {ℓ κ} :
    {A : Type ℓ} {B : Type κ} (m : Outcome A) (f : A → Outcome B) {b : B}
    → (m >>= f) ≡ returns b
    → (a : A) × (m ≡ returns a) × (f a ≡ returns b)
>>=-eq-returns (returns a) f h = (a, refl, h)
>>=-eq-returns blocks f h = cc
>>=-eq-returns aborts f h = cc
>>=-eq-returns faults f h = cc
