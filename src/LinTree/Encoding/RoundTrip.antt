-- ===== src/LinTree/Encoding/RoundTrip.antt =====
-- `decode` of what `encode` wrote.
use psingthreadlib.Prelude.{
  ℕ, zero, suc, ◌+◌, ◌≤◌, ◌≡◌, refl, ap, sym, ◌∙◌, subst, [], ◌++◌, append-nil, append_assoc,
  length, length-append, Bytes, arith,
}
use psingthreadlib.Prelude.Int.{pos}
use psingthreadlib.Prelude.Outcome.{returns}
use psingthreadlib.LinTree.Buffer.{new_lintree, to_bytes, wrap}
use psingthreadlib.LinTree.Buffer.Laws.{
  at, signed, get_bytes-at, get_signed-at, get_size-at, length-to_bytes,
}
use psingthreadlib.LinTree.Encoding.{
  Tokens, Plain, Plains, nothing, int, string, list, foreign, nil, cons, size, last_index, decode,
  decode_list, to_string, from_string, intmat,
}
use psingthreadlib.LinTree.Encoding.Laws.{
  IsSound, IsPlain, ArePlain, bytes, bytes_all, encode-added, int_bytes,
}
use psingthreadlib.LinTree.Encoding.Decoding.{
  decode_head, as_none, as_int, as_string, as_list, as_intmat, entries_of-at, last_index-Fits,
  rounds-last_index, three_at,
}

-- How deep lists stand in lists, at most.
unfoldable mutual
  depth : Plain → ℕ
  depth nothing = 1
  depth (int n) = 1
  depth (string p) = 1
  depth (list l) = suc (depth_all l)
  depth (intmat rows cols xs) = 1
  depth (foreign typ) = 1

  depth_all : Plains → ℕ
  depth_all nil = 0
  depth_all (cons v vs) = depth v + depth_all vs

module _ (k : Tokens) (sound : IsSound k) where
  Decodes : ℕ → Type 0
  Decodes fuel =
      (v : Plain)
      → IsPlain v
      → depth v ≤ fuel
      → (pre rest : Bytes)
      → decode k fuel (at pre (bytes k v ++ rest)) ≡ returns (v, at (pre ++ bytes k v) rest)

  decode_list-at :
      (fuel : ℕ)
      → Decodes fuel
      → (vs : Plains) → ArePlain vs
      → depth_all vs ≤ fuel
      → (pre rest : Bytes)
      → decode_list (decode k fuel) (size vs) (at pre (bytes_all k vs ++ rest))
        ≡ returns (vs, at (pre ++ bytes_all k vs) rest)
  unfolding decode_list Decodes depth bytes IsPlain
  decode_list-at fuel call nil h d pre rest =
      ap (λ p. returns (nil, at p rest)) (sym (append-nil pre))
  decode_list-at fuel call (cons v vs) h d pre rest =
      rw
        (
          append_assoc (bytes k v) (bytes_all k vs) rest,
          call v h.0 (omega arith) pre (bytes_all k vs ++ rest),
          decode_list-at fuel call vs h.1 (omega arith) (pre ++ bytes k v) rest,
        )
        (ap (λ p. returns (cons v vs, at p rest)) (append_assoc pre (bytes k v) (bytes_all k vs)))

  decodes : (fuel : ℕ) → Decodes fuel
  unfolding Decodes depth bytes IsPlain
  decodes zero nothing h d pre rest = absurd (omega arith)
  decodes zero (int n) h d pre rest = absurd (omega arith)
  decodes zero (string p) h d pre rest = absurd (omega arith)
  decodes zero (list l) h d pre rest = absurd (omega arith)
  decodes zero (intmat rows cols xs) h d pre rest = absurd (omega arith)
  decodes zero (foreign typ) h d pre rest = absurd h
  decodes (suc fuel) nothing h d pre rest =
      decode_head k fuel k.none_type pre rest sound.fits_none
      ∙ as_none k sound (decode k fuel) (at (pre ++ signed 4 (pos k.none_type)) rest)
  decodes (suc fuel) (int n) h d pre rest =
      let a = signed 4 (pos k.int_cmd) in
      rw
        (
          append_assoc a (signed 8 n) rest,
          decode_head k fuel k.int_cmd pre (signed 8 n ++ rest) sound.fits_int,
          as_int k sound (decode k fuel) (at (pre ++ a) (signed 8 n ++ rest)),
          get_signed-at 8 n (pre ++ a) rest h,
        )
        (ap (λ p. returns (int n, at p rest)) (append_assoc pre a (signed 8 n)))
  decodes (suc fuel) (string p) h d pre rest =
      let a = signed 4 (pos k.string_cmd) in
      let b = to_bytes 8 (length p) in
      rw
        (
          append_assoc a (b ++ p) rest,
          append_assoc b p rest,
          decode_head k fuel k.string_cmd pre (b ++ (p ++ rest)) sound.fits_string,
          as_string k sound (decode k fuel) (at (pre ++ a) (b ++ (p ++ rest))),
          get_size-at (length p) (pre ++ a) (p ++ rest) h,
          get_bytes-at ((pre ++ a) ++ b) p rest,
        )
        (three_at (string p) pre a b p rest)
  decodes (suc fuel) (list l) h d pre rest =
      let a = signed 4 (pos k.list_cmd) in
      let b = signed 4 (last_index (size l)) in
      let c = bytes_all k l in
      rw
        (
          append_assoc a (b ++ c) rest,
          append_assoc b c rest,
          decode_head k fuel k.list_cmd pre (b ++ (c ++ rest)) sound.fits_list,
          as_list k sound (decode k fuel) (at (pre ++ a) (b ++ (c ++ rest))),
          get_signed-at 4 (last_index (size l)) (pre ++ a) (c ++ rest)
              (last_index-Fits (size l) h.0),
          rounds-last_index (size l),
          decode_list-at fuel (decodes fuel) l h.1 (omega arith) ((pre ++ a) ++ b) rest,
        )
        (three_at (list l) pre a b c rest)
  decodes (suc fuel) (intmat rows cols xs) h d pre rest =
      let a = signed 4 (pos k.intmat_cmd) in
      let b = signed 4 (pos rows) in
      let c = signed 4 (pos cols) in
      let e = int_bytes xs in
      rw
        (
          append_assoc a (b ++ (c ++ e)) rest,
          append_assoc b (c ++ e) rest,
          append_assoc c e rest,
          decode_head k fuel k.intmat_cmd pre (b ++ (c ++ (e ++ rest))) sound.fits_intmat,
          as_intmat k sound (decode k fuel) (at (pre ++ a) (b ++ (c ++ (e ++ rest)))),
          get_signed-at 4 (pos rows) (pre ++ a) (c ++ (e ++ rest)) h.1.0,
          get_signed-at 4 (pos cols) ((pre ++ a) ++ b) (e ++ rest) h.1.1.0,
          entries_of-at rows cols xs h.0 h.1.1.1.0 h.1.1.1.1 (((pre ++ a) ++ b) ++ c) rest,
        )
        (three_at (intmat rows cols xs) (pre ++ a) b c e rest
          ∙ ap (λ p. returns (intmat rows cols xs, at p rest)) (append_assoc pre a (b ++ (c ++ e))))
  decodes (suc fuel) (foreign typ) h d pre rest = absurd h

  mutual
    unfolding depth bytes IsPlain

    depth_enough : (v : Plain) → IsPlain v → depth v ≤ length (bytes k v)
    depth_enough nothing h = rw (length-to_bytes 4 (wrap 4 (pos k.none_type))) (omega arith)
    depth_enough (int n) h =
        rw
          (
            length-append (signed 4 (pos k.int_cmd)) (signed 8 n),
            length-to_bytes 4 (wrap 4 (pos k.int_cmd)),
          )
          (omega arith)
    depth_enough (string p) h =
        rw
          (
            length-append (signed 4 (pos k.string_cmd)) (to_bytes 8 (length p) ++ p),
            length-to_bytes 4 (wrap 4 (pos k.string_cmd)),
          )
          (omega arith)
    depth_enough (list l) h =
        rw
          (
            length-append (signed 4 (pos k.list_cmd))
                (signed 4 (last_index (size l)) ++ bytes_all k l),
            length-append (signed 4 (last_index (size l))) (bytes_all k l),
            length-to_bytes 4 (wrap 4 (pos k.list_cmd)),
          )
          (omega (arith, depth_all_enough l h.1))
    depth_enough (intmat rows cols xs) h =
        rw
          (
            length-append (signed 4 (pos k.intmat_cmd))
                (signed 4 (pos rows) ++ (signed 4 (pos cols) ++ int_bytes xs)),
            length-to_bytes 4 (wrap 4 (pos k.intmat_cmd)),
          )
          (omega arith)
    depth_enough (foreign typ) h = absurd h

    depth_all_enough : (vs : Plains) → ArePlain vs → depth_all vs ≤ length (bytes_all k vs)
    depth_all_enough nil h = omega arith
    depth_all_enough (cons v vs) h =
        rw (length-append (bytes k v) (bytes_all k vs))
          (omega (arith, depth_enough v h.0, depth_all_enough vs h.1))

  to_string_lem : (v : Plain) → IsPlain v → to_string k v ≡ bytes k v
  unfolding to_string
  to_string_lem v h = rw (encode-added k v (new_lintree []) h) refl

  -- If the tokens differ and fit an `int`, what `to_string` writes for a value is read back by
  -- `from_string` as the same value: of a number of 64 bits, a string, a matrix of 32-bit numbers
  -- whose size fits an `int`, and lists in any depth whose sizes fit an `int`.
  pub from_string-to_string : (v : Plain) → IsPlain v → from_string k (to_string k v) ≡ returns v
  unfolding from_string Decodes
  from_string-to_string v h =
      let b = bytes k v in
      let run : decode k (length b) (new_lintree b) ≡ returns (v, at b []) =
        subst (λ m. decode k (length b) (new_lintree m) ≡ returns (v, at b [])) (append-nil b)
          (decodes (length b) v h (depth_enough v h) [] []) in
      rw (to_string_lem v h, run) refl
