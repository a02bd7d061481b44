-- ===== src/LinTree/Encoding/Errors.antt =====
-- `to_string` of a value that holds one without an encoder.
use psingthreadlib.Prelude.{◌≡◌, refl, ap, ◌∙◌, Bool, true, false, not, [], ◌&&◌, ◌||◌, List, ◌∷◌}
use psingthreadlib.Prelude.Int.{pos, ℤ}
use psingthreadlib.Prelude.Outcome.{returns}
use psingthreadlib.LinTree.Buffer.{LinTree, new_lintree, put_bytes, put_signed, put_size}
use psingthreadlib.LinTree.Encoding.{
  Tokens, Plain, Plains, nothing, int, string, list, foreign, nil, cons, size, last_index, encode,
  encode_all, has_error, to_string, from_string, intmat, put_ints,
}
use psingthreadlib.LinTree.Encoding.Laws.{IsSound, IsPlain}
use psingthreadlib.LinTree.Encoding.RoundTrip.{from_string-to_string}

-- Whether every value in it has an encoder.
unfoldable mutual
  pub supported : Plain → Bool
  supported nothing = true
  supported (int n) = true
  supported (string p) = true
  supported (list l) = supported_all l
  supported (intmat rows cols xs) = true
  supported (foreign typ) = false

  supported_all : Plains → Bool
  supported_all nil = true
  supported_all (cons v vs) = supported v && supported_all vs

or_assoc : (e a b : Bool) → (e || not a) || not b ≡ e || not (a && b)
or_assoc true true b = refl
or_assoc true false b = refl
or_assoc false true b = refl
or_assoc false false b = refl

or_false : (e : Bool) → e ≡ e || not true
or_false true = refl
or_false false = refl

or_true : (e : Bool) → true ≡ e || not false
or_true true = refl
or_true false = refl

put_ints_error : (xs : List ℤ) (t : LinTree) → has_error (put_ints xs t) ≡ has_error t
unfolding put_ints put_signed put_bytes
put_ints_error [] t = refl
put_ints_error (x ∷ xs) t = put_ints_error xs (put_signed 4 x t)

module _ (k : Tokens) where
  mutual
    unfolding encode put_signed put_size put_bytes supported

    encode_error :
        (v : Plain) (t : LinTree) → has_error (encode k v t) ≡ has_error t || not (supported v)
    encode_error nothing t = or_false (has_error t)
    encode_error (int n) t = or_false (has_error t)
    encode_error (string p) t = or_false (has_error t)
    encode_error (list l) t =
        encode_all_error l (put_signed 4 (last_index (size l)) (put_signed 4 (pos k.list_cmd) t))
    encode_error (intmat rows cols xs) t =
        put_ints_error xs
          (put_signed 4 (pos cols) (put_signed 4 (pos rows) (put_signed 4 (pos k.intmat_cmd) t)))
        ∙ or_false (has_error t)
    encode_error (foreign typ) t = or_true (has_error t)

    encode_all_error :
        (vs : Plains) (t : LinTree)
        → has_error (encode_all k vs t) ≡ has_error t || not (supported_all vs)
    encode_all_error nil t = or_false (has_error t)
    encode_all_error (cons v vs) t =
        encode_all_error vs (encode k v t)
        ∙ ap (λ e. e || not (supported_all vs)) (encode_error v t)
        ∙ or_assoc (has_error t) (supported v) (supported_all vs)

  -- The error clears what was written.
  to_string_failed : (v : Plain) → supported v ≡ false → to_string k v ≡ to_string k nothing
  unfolding to_string encode put_signed put_bytes
  to_string_failed v h = rw (encode_error v (new_lintree []), h) refl

  -- If the tokens differ and fit an `int`, what `to_string` writes for a value that holds one without
  -- an encoder, in any depth, is read back by `from_string` as NONE.
  pub unsupported_none :
      IsSound k
      → (v : Plain) → supported v ≡ false
      → from_string k (to_string k v) ≡ returns nothing
  unfolding IsPlain
  unsupported_none sound v h =
      ap (from_string k) (to_string_failed v h) ∙ from_string-to_string k sound nothing tt
