-- ===== src/LinTree/Encoding/Decoding.antt =====
-- What each decoder reads of the bytes at the cursor.
use psingthreadlib.Prelude.{
  ℕ, zero, suc, ◌*◌, ◌^◌, ◌<◌, ◌≡◌, ◌≢◌, refl, ap, sym, ◌∙◌, true, false, [], ◌++◌, append-nil,
  append_assoc, length, Bytes, arith, List, ◌∷◌, ltb,
}
use psingthreadlib.Prelude.Int.{ℤ, pos, eq_ℤ}
use psingthreadlib.Prelude.Outcome.{Outcome, returns, ◌>>=◌}
use psingthreadlib.LinTree.Buffer.{LinTree, get_signed, get_size, get_bytes}
use psingthreadlib.LinTree.Buffer.Laws.{at, Fits, signed, get_signed-at}
use psingthreadlib.LinTree.Encoding.{
  Tokens, Plain, nothing, int, string, list, last_index, rounds, decode, decode_as, decode_list,
  intmat, get_ints, entries_of, decode_intmat,
}
use psingthreadlib.LinTree.Encoding.Laws.{IsSound, AllFit, int_bytes}

eq_same : (n : ℕ) → eq_ℤ (pos n) (pos n) ≡ true
eq_same n = ground arith

eq_other : (a b : ℕ) → a ≢ b → eq_ℤ (pos a) (pos b) ≡ false
eq_other a b h = ground arith

get_ints-at :
    (xs : List ℤ)
    → AllFit xs
    → (pre rest : Bytes)
    → get_ints (length xs) (at pre (int_bytes xs ++ rest))
      ≡ returns (xs, at (pre ++ int_bytes xs) rest)
unfolding get_ints int_bytes AllFit
get_ints-at [] h pre rest = ap (λ p. returns ([], at p rest)) (sym (append-nil pre))
get_ints-at (x ∷ xs) h pre rest =
    rw
      (
        append_assoc (signed 4 x) (int_bytes xs) rest,
        get_signed-at 4 x pre (int_bytes xs ++ rest) h.0,
        get_ints-at xs h.1 (pre ++ signed 4 x) rest,
      )
      (ap (λ p. returns (x ∷ xs, at p rest)) (append_assoc pre (signed 4 x) (int_bytes xs)))

-- The entries, behind rows and columns.
pub entries_of-at :
    (rows cols : ℕ) (xs : List ℤ)
    → length xs ≡ rows * cols
    → 2 * (rows * cols) < 256 ^ 4
    → AllFit xs
    → (pre rest : Bytes)
    → entries_of (pos rows) (pos cols) (at pre (int_bytes xs ++ rest))
      ≡ returns (intmat rows cols xs, at (pre ++ int_bytes xs) rest)
entries_of-at rows cols xs same fits all pre rest =
    let small : ltb (2 * (rows * cols)) (256 ^ 4) ≡ true = ground arith in
    rw (small, sym same, get_ints-at xs all pre rest) refl

pub last_index-Fits : (n : ℕ) → 2 * n < 256 ^ 4 → Fits 4 (last_index n)
last_index-Fits zero h = omega arith
last_index-Fits (suc n) h = omega arith

pub rounds-last_index : (n : ℕ) → rounds (last_index n) ≡ n
rounds-last_index zero = refl
rounds-last_index (suc n) = refl

pub three_at :
    (v : Plain) (pre a b c rest : Bytes)
    → ◌≡◌ {A = Outcome (Plain × LinTree)}
        (returns (v, at (((pre ++ a) ++ b) ++ c) rest))
        (returns (v, at (pre ++ (a ++ (b ++ c))) rest))
three_at v pre a b c rest =
    ap (λ p. returns (v, at p rest)) (append_assoc (pre ++ a) b c ∙ append_assoc pre a (b ++ c))

module _ (k : Tokens) where
  -- The type is read, and selects the decoder.
  pub decode_head :
      (fuel c : ℕ) (pre rest : Bytes)
      → 2 * c < 256 ^ 4
      → decode k (suc fuel) (at pre (signed 4 (pos c) ++ rest))
        ≡ decode_as k (decode k fuel) (pos c) (at (pre ++ signed 4 (pos c)) rest)
  unfolding decode
  decode_head fuel c pre rest h = rw (get_signed-at 4 (pos c) pre rest h) refl

  module _ (sound : IsSound k) (call : LinTree → Outcome (Plain × LinTree)) (t : LinTree) where
    pub as_none : decode_as k call (pos k.none_type) t ≡ returns (nothing, t)
    unfolding decode_as
    as_none = rw (eq_same k.none_type) refl

    pub as_int :
        decode_as k call (pos k.int_cmd) t ≡ (get_signed 8 t >>= λ (n, t1). returns (int n, t1))
    unfolding decode_as
    as_int = rw (eq_other k.int_cmd k.none_type sound.int_none, eq_same k.int_cmd) refl

    pub as_string :
        decode_as k call (pos k.string_cmd) t
        ≡ (get_size t >>= λ (len, t1). get_bytes len t1 >>= λ (p, t2). returns (string p, t2))
    unfolding decode_as
    as_string =
        rw
          (
            eq_other k.string_cmd k.none_type sound.string_none,
            eq_other k.string_cmd k.int_cmd sound.string_int,
            eq_same k.string_cmd,
          )
          refl

    pub as_list : decode_as k call (pos k.list_cmd) t ≡ (
        get_signed 4 t >>= λ (n, t1).
        decode_list call (rounds n) t1 >>= λ (vs, t2). returns (list vs, t2))
    unfolding decode_as
    as_list =
        rw
          (
            eq_other k.list_cmd k.none_type sound.list_none,
            eq_other k.list_cmd k.int_cmd sound.list_int,
            eq_other k.list_cmd k.string_cmd sound.list_string,
            eq_same k.list_cmd,
          )
          refl

    pub as_intmat : decode_as k call (pos k.intmat_cmd) t ≡ decode_intmat t
    unfolding decode_as
    as_intmat =
        rw
          (
            eq_other k.intmat_cmd k.none_type sound.intmat_none,
            eq_other k.intmat_cmd k.int_cmd sound.intmat_int,
            eq_other k.intmat_cmd k.string_cmd sound.intmat_string,
            eq_other k.intmat_cmd k.list_cmd sound.intmat_list,
            eq_same k.intmat_cmd,
          )
          refl
