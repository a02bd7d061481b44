-- ===== src/LinTree/Buffer/Laws.antt =====
-- What is put into the memory is read back at its place.
use psingthreadlib.Prelude.{
  subst, ℕ, zero, suc, ◌+◌, ◌*◌, ◌/◌, ◌^◌, ◌<◌, ◌≤◌, ◌≡◌, refl, ap, ◌∙◌, none, some, [], ◌∷◌, ◌++◌,
  append_assoc, length, length-append, Bytes, arith,
}
use psingthreadlib.Prelude.Int.{ℤ, pos, negsuc}
use psingthreadlib.Prelude.Outcome.{returns}
use native.Mathlib.Nat.{pow-succ', mod-eq_of_lt, mod-lt}
use psingthreadlib.LinTree.Buffer.{
  LinTree, to_bytes, of_bytes, wrap, unwrap, drop, take_exact, get_bytes, get_signed, get_size,
}

drop-append : (p q : Bytes) → drop (length p) (p ++ q) ≡ q
unfolding drop
drop-append [] q = refl
drop-append (x ∷ p) q = drop-append p q

take_exact-append : (p q : Bytes) → take_exact (length p) (p ++ q) ≡ some p
unfolding take_exact
take_exact-append [] q = refl
take_exact-append (x ∷ p) q = rw (take_exact-append p q) refl

pub length-to_bytes : (k n : ℕ) → length (to_bytes k n) ≡ k
unfolding to_bytes
length-to_bytes zero n = refl
length-to_bytes (suc k) n = ap suc (length-to_bytes k (n / 256))

of_bytes-to_bytes : (k n : ℕ) → n < 256 ^ k → of_bytes (to_bytes k n) ≡ n
unfolding to_bytes of_bytes
of_bytes-to_bytes zero n h = omega arith
of_bytes-to_bytes (suc k) n h =
    let smaller : n / 256 < 256 ^ k = omega (arith, pow-succ' 256 k) in
    let ih = of_bytes-to_bytes k (n / 256) smaller in omega (arith, ih)

unwrap-wrap_pos : (k n : ℕ) → 2 * n < 256 ^ k → unwrap k (wrap k (pos n)) ≡ pos n
unwrap-wrap_pos k n h = rw (mod-eq_of_lt {n = n} {m = 256 ^ k} (omega arith)) (ground arith)

unwrap-wrap_neg : (k n : ℕ) → 2 * (n + 1) ≤ 256 ^ k → unwrap k (wrap k (negsuc n)) ≡ negsuc n
unwrap-wrap_neg k n h = rw (mod-eq_of_lt {n = n} {m = 256 ^ k} (omega arith)) (ground arith)

-- A tree whose cursor stands behind `pre`.
abbrev pub at : Bytes → Bytes → LinTree
at pre rest = record { memory = pre ++ rest; cursor = length pre; error = none }

at_next :
    (pre b rest : Bytes)
    → ◌≡◌ {A = LinTree}
        (record { memory = pre ++ (b ++ rest); cursor = length pre + length b; error = none })
        (at (pre ++ b) rest)
at_next pre b rest = rw (append_assoc pre b rest, length-append pre b) refl

-- Bytes at the cursor are read, and the cursor goes behind them.
pub get_bytes-at :
    (pre b rest : Bytes)
    → get_bytes (length b) (at pre (b ++ rest)) ≡ returns (b, at (pre ++ b) rest)
unfolding get_bytes
get_bytes-at pre b rest =
    rw (get_bytes, drop-append pre (b ++ rest), take_exact-append b rest)
      (ap (λ t. returns (b, t)) (at_next pre b rest))

get_exact :
    (k : ℕ) (pre b rest : Bytes)
    → length b ≡ k
    → get_bytes k (at pre (b ++ rest)) ≡ returns (b, at (pre ++ b) rest)
get_exact k pre b rest h =
    subst (λ n. get_bytes n (at pre (b ++ rest)) ≡ returns (b, at (pre ++ b) rest)) h
      (get_bytes-at pre b rest)

-- The number fits `k` bytes with its sign.
abbrev pub Fits : ℕ → ℤ → Type 0
Fits k (pos n) = 2 * n < 256 ^ k
Fits k (negsuc n) = 2 * (n + 1) ≤ 256 ^ k

unwrap-wrap : (k : ℕ) (n : ℤ) → Fits k n → unwrap k (wrap k n) ≡ n
unwrap-wrap k (pos n) h = unwrap-wrap_pos k n h
unwrap-wrap k (negsuc n) h = unwrap-wrap_neg k n h

positive : (k : ℕ) → 0 < 256 ^ k
positive zero = omega arith
positive (suc k) = omega (arith, pow-succ' 256 k, positive k)

wrap_below : (k : ℕ) (n : ℤ) → wrap k n < 256 ^ k
wrap_below k (pos n) = mod-lt n (positive k)
wrap_below k (negsuc n) = omega (arith, positive k)

abbrev pub signed : ℕ → ℤ → Bytes
signed k n = to_bytes k (wrap k n)

pub get_signed-at :
    (k : ℕ) (n : ℤ) (pre rest : Bytes)
    → Fits k n
    → get_signed k (at pre (signed k n ++ rest)) ≡ returns (n, at (pre ++ signed k n) rest)
unfolding get_signed
get_signed-at k n pre rest h =
    rw (get_exact k pre (signed k n) rest (length-to_bytes k (wrap k n))) (
      ap (λ m. returns (m, at (pre ++ signed k n) rest))
        (ap (unwrap k) (of_bytes-to_bytes k (wrap k n) (wrap_below k n)) ∙ unwrap-wrap k n h))

pub get_size-at :
    (n : ℕ) (pre rest : Bytes)
    → n < 256 ^ 8
    → get_size (at pre (to_bytes 8 n ++ rest)) ≡ returns (n, at (pre ++ to_bytes 8 n) rest)
unfolding get_size
get_size-at n pre rest h =
    rw (get_exact 8 pre (to_bytes 8 n) rest (length-to_bytes 8 n))
      (ap (λ m. returns (m, at (pre ++ to_bytes 8 n) rest)) (of_bytes-to_bytes 8 n h))
