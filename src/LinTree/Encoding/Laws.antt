-- ===== src/LinTree/Encoding/Laws.antt =====
-- The round trip of plain values.
use psingthreadlib.Prelude.{
  ◌*◌, ◌^◌, ◌<◌, ◌≡◌, ◌≢◌, refl, ap, sym, ◌∙◌, [], ◌++◌, append-nil, append_assoc, length, Bytes,
  List, ◌∷◌,
}
use psingthreadlib.Prelude.Int.{ℤ, pos}
use native.Mathlib.Nat.{mod-eq_of_lt}
use psingthreadlib.LinTree.Buffer.{LinTree, to_bytes, put_bytes, put_signed, put_size}
use psingthreadlib.LinTree.Buffer.Laws.{Fits, signed}
use psingthreadlib.LinTree.Encoding.{
  Tokens, Plain, Plains, nothing, int, string, list, foreign, nil, cons, size, last_index, encode,
  encode_all, intmat, put_ints,
}

-- The tokens are different and fit an `int`.
pub record IsSound (k : Tokens) : Type 0 where
  pub fits_none : 2 * k.none_type < 256 ^ 4
  pub fits_int : 2 * k.int_cmd < 256 ^ 4
  pub fits_string : 2 * k.string_cmd < 256 ^ 4
  pub fits_list : 2 * k.list_cmd < 256 ^ 4
  pub int_none : k.int_cmd ≢ k.none_type
  pub string_none : k.string_cmd ≢ k.none_type
  pub string_int : k.string_cmd ≢ k.int_cmd
  pub list_none : k.list_cmd ≢ k.none_type
  pub list_int : k.list_cmd ≢ k.int_cmd
  pub list_string : k.list_cmd ≢ k.string_cmd
  pub fits_intmat : 2 * k.intmat_cmd < 256 ^ 4
  pub intmat_none : k.intmat_cmd ≢ k.none_type
  pub intmat_int : k.intmat_cmd ≢ k.int_cmd
  pub intmat_string : k.intmat_cmd ≢ k.string_cmd
  pub intmat_list : k.intmat_cmd ≢ k.list_cmd

unfoldable pub AllFit : List ℤ → Type 0
AllFit [] = Unit
AllFit (x ∷ xs) = Fits 4 x × AllFit xs

-- An integer of 64 bits, a string and a list whose lengths fit, a matrix of
-- its size with entries of 32 bits, and no value without an encoder.
unfoldable mutual
  pub IsPlain : Plain → Type 0
  IsPlain nothing = Unit
  IsPlain (int n) = Fits 8 n
  IsPlain (string p) = length p < 256 ^ 8
  IsPlain (list l) = (2 * size l < 256 ^ 4) × ArePlain l
  IsPlain (intmat rows cols xs) =
      (length xs ≡ rows * cols)
      × ((2 * rows < 256 ^ 4)
          × ((2 * cols < 256 ^ 4) × ((2 * (rows * cols) < 256 ^ 4) × AllFit xs)))
  IsPlain (foreign typ) = ⊥

  pub ArePlain : Plains → Type 0
  ArePlain nil = Unit
  ArePlain (cons v vs) = IsPlain v × ArePlain vs

unfoldable pub int_bytes : List ℤ → Bytes
int_bytes [] = []
int_bytes (x ∷ xs) = signed 4 x ++ int_bytes xs

module _ (k : Tokens) where
  -- The bytes of a value.
  unfoldable mutual
    pub bytes : Plain → Bytes
    bytes nothing = signed 4 (pos k.none_type)
    bytes (int n) = signed 4 (pos k.int_cmd) ++ signed 8 n
    bytes (string p) = signed 4 (pos k.string_cmd) ++ (to_bytes 8 (length p) ++ p)
    bytes (list l) = signed 4 (pos k.list_cmd) ++ (signed 4 (last_index (size l)) ++ bytes_all l)
    bytes (intmat rows cols xs) =
        signed 4 (pos k.intmat_cmd)
        ++ (signed 4 (pos rows) ++ (signed 4 (pos cols) ++ int_bytes xs))
    bytes (foreign typ) = []

    pub bytes_all : Plains → Bytes
    bytes_all nil = []
    bytes_all (cons v vs) = bytes v ++ bytes_all vs

  abbrev added : Bytes → LinTree → LinTree
  added b t = record t { memory = t.memory ++ b }

  three : (m a b c : Bytes) → ((m ++ a) ++ b) ++ c ≡ m ++ (a ++ (b ++ c))
  three m a b c = append_assoc (m ++ a) b c ∙ append_assoc m a (b ++ c)

  put_ints-added : (xs : List ℤ) (t : LinTree) → put_ints xs t ≡ added (int_bytes xs) t
  unfolding put_ints int_bytes put_signed put_bytes
  put_ints-added [] t = ap (λ m. record t { memory = m }) (sym (append-nil t.memory))
  put_ints-added (x ∷ xs) t =
      put_ints-added xs (added (signed 4 x) t)
      ∙ ap (λ m. record t { memory = m }) (append_assoc t.memory (signed 4 x) (int_bytes xs))

  mutual
    unfolding encode bytes IsPlain put_signed put_size put_bytes

    pub encode-added : (v : Plain) (t : LinTree) → IsPlain v → encode k v t ≡ added (bytes v) t
    encode-added nothing t h = refl
    encode-added (int n) t h =
        ap (λ m. record t { memory = m })
          (append_assoc t.memory (signed 4 (pos k.int_cmd)) (signed 8 n))
    encode-added (string p) t h = rw (mod-eq_of_lt {n = length p} {m = 256 ^ 8} h) (
        ap (λ m. record t { memory = m })
          (three t.memory (signed 4 (pos k.string_cmd)) (to_bytes 8 (length p)) p))
    encode-added (list l) t h =
        encode_all-added l
          (added (signed 4 (last_index (size l))) (added (signed 4 (pos k.list_cmd)) t)) h.1
        ∙ ap (λ m. record t { memory = m })
            (three t.memory (signed 4 (pos k.list_cmd)) (signed 4 (last_index (size l)))
              (bytes_all l))
    encode-added (intmat rows cols xs) t h =
        let a = signed 4 (pos k.intmat_cmd) in
        let b = signed 4 (pos rows) in
        let c = signed 4 (pos cols) in
        put_ints-added xs (added c (added b (added a t)))
        ∙ ap (λ m. record t { memory = m })
            (three (t.memory ++ a) b c (int_bytes xs)
              ∙ append_assoc t.memory a (b ++ (c ++ int_bytes xs)))
    encode-added (foreign typ) t h = absurd h

    encode_all-added :
        (vs : Plains) (t : LinTree) → ArePlain vs → encode_all k vs t ≡ added (bytes_all vs) t
    encode_all-added nil t h = ap (λ m. record t { memory = m }) (sym (append-nil t.memory))
    encode_all-added (cons v vs) t h =
        ap (encode_all k vs) (encode-added v t h.0)
        ∙ encode_all-added vs (added (bytes v) t) h.1
        ∙ ap (λ m. record t { memory = m }) (append_assoc t.memory (bytes v) (bytes_all vs))
