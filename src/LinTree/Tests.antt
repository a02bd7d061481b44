-- ===== src/LinTree/Tests.antt =====
-- Runs of the encoding of lintree.cc.
use psingthreadlib.Prelude.{false, ◌≡◌, refl, [], ◌∷◌, arith}
use psingthreadlib.Prelude.Int.{pos, negsuc}
use psingthreadlib.Prelude.Outcome.{returns}
use psingthreadlib.LinTree.Encoding.{
  Tokens, Plain, int, string, list, intmat, foreign, nil, cons, to_string, from_string, nothing,
}
use psingthreadlib.LinTree.Encoding.Laws.{IsSound, IsPlain, AllFit}
use psingthreadlib.LinTree.Encoding.Errors.{supported, unsupported_none}
use psingthreadlib.LinTree.Encoding.RoundTrip.{from_string-to_string}

abbrev tokens : Tokens
tokens = record {
  none_type = 301;
  int_cmd = 419;
  string_cmd = 508;
  list_cmd = 447;
  intmat_cmd = 420;
}

tokens-IsSound : IsSound tokens
tokens-IsSound = record {
  fits_none = omega arith;
  fits_int = omega arith;
  fits_string = omega arith;
  fits_list = omega arith;
  int_none = λ h. omega arith;
  string_none = λ h. omega arith;
  string_int = λ h. omega arith;
  list_none = λ h. omega arith;
  list_int = λ h. omega arith;
  list_string = λ h. omega arith;
  fits_intmat = omega arith;
  intmat_none = λ h. omega arith;
  intmat_int = λ h. omega arith;
  intmat_string = λ h. omega arith;
  intmat_list = λ h. omega arith;
}

-- A matrix of one row and two columns.
abbrev matrix : Plain
matrix = intmat 1 2 (pos 3 ∷ negsuc 0 ∷ [])

matrix-IsPlain : IsPlain matrix
unfolding IsPlain AllFit
matrix-IsPlain =
    (refl, (omega arith, (omega arith, (omega arith, (omega arith, (omega arith, tt))))))

-- A list of -5, "ab", the empty list and the matrix.
abbrev nested : Plain
nested =
    list (cons (int (negsuc 4)) (cons (string (97 ∷ 98 ∷ [])) (cons (list nil) (cons matrix nil))))

nested-IsPlain : IsPlain nested
unfolding IsPlain
nested-IsPlain =
    (omega arith, (omega arith, (omega arith, ((omega arith, tt), (matrix-IsPlain, tt)))))

from_string-to_string_example : from_string tokens (to_string tokens nested) ≡ returns nested
from_string-to_string_example = from_string-to_string tokens tokens-IsSound nested nested-IsPlain

-- A list that holds a value without an encoder behind a number.
abbrev refused : Plain
refused = list (cons (int (pos 7)) (cons (foreign 600) nil))

refused_lem : supported refused ≡ false
unfolding supported
refused_lem = refl

unsupported_none_example : from_string tokens (to_string tokens refused) ≡ returns nothing
unsupported_none_example = unsupported_none tokens tokens-IsSound refused refused_lem
