-- ===== src/LinTree/Encoding.antt =====
-- lintree.cc: `encode`, `decode`, `to_string` and `from_string` for the types NONE, INT_CMD,
-- STRING_CMD, INTMAT_CMD and LIST_CMD, which need no ring.
pub mod Laws
pub mod Decoding
pub mod RoundTrip
pub mod Errors
use psingthreadlib.Prelude.{
  ◌*◌, ◌^◌, ltb, List, [], ◌∷◌, ℕ, zero, suc, ◌+◌, ◌-◌, Bool, true, false, Option, none, some,
  length, String, Bytes, if◌then◌else◌,
}
use psingthreadlib.Prelude.Int.{ℤ, pos, negsuc, eq_ℤ}
use psingthreadlib.Prelude.Outcome.{Outcome, returns, faults, ◌>>=◌}
use psingthreadlib.LinTree.Buffer.{
  LinTree, new_lintree, clear, mark_error, put_bytes, put_signed, put_size, get_bytes, get_signed,
  get_size,
}

-- The numbers that the interpreter gives to the types.
pub record Tokens : Type 0 where
  pub none_type : ℕ
  pub int_cmd : ℕ
  pub string_cmd : ℕ
  pub list_cmd : ℕ
  pub intmat_cmd : ℕ

-- A value of these types; an `intvec` has its rows, its columns and its entries; a string is without zero bytes, as `strlen` measures it. `foreign` is of
-- a type that has no encoder.
mutual
  pub data Plain : Type 0 where
    nothing : Plain
    int : ℤ → Plain
    string : Bytes → Plain
    list : Plains → Plain
    intmat : (rows cols : ℕ) → (entries : List ℤ) → Plain
    foreign : (typ : ℕ) → Plain

  pub data Plains : Type 0 where
    nil : Plains
    cons : Plain → Plains → Plains

abbrev pub size : Plains → ℕ
size nil = 0
size (cons v vs) = suc (size vs)

-- `lSize` is the last index, which is -1 for the empty list.
abbrev pub last_index : ℕ → ℤ
last_index zero = negsuc 0
last_index (suc n) = pos n

-- The rounds of `for (int i=0; i<=n; i++)`.
abbrev pub rounds : ℤ → ℕ
rounds (pos n) = suc n
rounds (negsuc _) = 0

abbrev pub encode_int : ℤ → LinTree → LinTree
encode_int n t = put_signed 8 n t

abbrev pub decode_int : LinTree → Outcome (Plain × LinTree)
decode_int t = get_signed 8 t >>= λ (n, t1). returns (int n, t1)

abbrev pub encode_string : Bytes → LinTree → LinTree
encode_string p t = put_bytes p (put_size (length p) t)

abbrev pub decode_string : LinTree → Outcome (Plain × LinTree)
decode_string t = get_size t >>= λ (len, t1). get_bytes len t1 >>= λ (p, t2). returns (string p, t2)

unfoldable pub put_ints : List ℤ → LinTree → LinTree
put_ints [] t = t
put_ints (x ∷ xs) t = put_ints xs (put_signed 4 x t)

abbrev pub encode_intmat : ℕ → ℕ → List ℤ → LinTree → LinTree
encode_intmat rows cols entries t =
    put_ints entries (put_signed 4 (pos cols) (put_signed 4 (pos rows) t))

unfoldable pub get_ints : ℕ → LinTree → Outcome (List ℤ × LinTree)
get_ints zero t = returns ([], t)
get_ints (suc n) t =
    get_signed 4 t >>= λ (x, t1). get_ints n t1 >>= λ (xs, t2). returns (x ∷ xs, t2)

-- A negative size and a product that is no `int` are undefined.
abbrev pub entries_of : ℤ → ℤ → LinTree → Outcome (Plain × LinTree)
entries_of (pos rows) (pos cols) t =
    if ltb (2 * (rows * cols)) (256 ^ 4)
    then (get_ints (rows * cols) t >>= λ (xs, t1). returns (intmat rows cols xs, t1))
    else faults
entries_of (pos _) (negsuc _) t = faults
entries_of (negsuc _) cols t = faults

abbrev pub decode_intmat : LinTree → Outcome (Plain × LinTree)
decode_intmat t =
    get_signed 4 t >>= λ (rows, t1). get_signed 4 t1 >>= λ (cols, t2). entries_of rows cols t2

abbrev pub has_error : LinTree → Bool
has_error t = elim (t.error) [ none ↦ false | some _ ↦ true ]

-- The loop of `decode_list`, over `decode`.
unfoldable pub decode_list :
    (LinTree → Outcome (Plain × LinTree)) → ℕ → LinTree → Outcome (Plains × LinTree)
decode_list decode zero t = returns (nil, t)
decode_list decode (suc n) t =
    decode t >>= λ (v, t1). decode_list decode n t1 >>= λ (vs, t2). returns (cons v vs, t2)

module _ (tokens : Tokens) where
  open tokens use {none_type, int_cmd, string_cmd, list_cmd, intmat_cmd}

  unfoldable mutual
    pub encode : Plain → LinTree → LinTree
    encode nothing t = put_signed 4 (pos none_type) t
    encode (int n) t = encode_int n (put_signed 4 (pos int_cmd) t)
    encode (string p) t = encode_string p (put_signed 4 (pos string_cmd) t)
    encode (list l) t =
        encode_all l (put_signed 4 (last_index (size l)) (put_signed 4 (pos list_cmd) t))
    encode (intmat rows cols xs) t = encode_intmat rows cols xs (put_signed 4 (pos intmat_cmd) t)
    encode (foreign typ) t = mark_error "trying to share unsupported data type" t

    pub encode_all : Plains → LinTree → LinTree
    encode_all nil t = t
    encode_all (cons v vs) t = encode_all vs (encode v t)

  -- The decoder that the type selects; a type without one is a fault, and so are here the types left
  -- out and the negative number that announces a ring.
  unfoldable pub decode_as :
      (LinTree → Outcome (Plain × LinTree)) → ℤ → LinTree → Outcome (Plain × LinTree)
  decode_as decode typ t =
      if eq_ℤ typ (pos none_type)
      then returns (nothing, t)
      else (if eq_ℤ typ (pos int_cmd)
          then decode_int t
          else (if eq_ℤ typ (pos string_cmd)
              then decode_string t
              else (if eq_ℤ typ (pos list_cmd)
                  then (get_signed 4 t >>= λ (n, t1).
                      decode_list decode (rounds n) t1 >>= λ (vs, t2). returns (list vs, t2))
                  else (if eq_ℤ typ (pos intmat_cmd) then decode_intmat t else faults))))

  -- The fuel bounds the depth of lists in lists; without fuel it is a fault.
  unfoldable pub decode : ℕ → LinTree → Outcome (Plain × LinTree)
  unfolding decode_as
  decode zero t = faults
  decode (suc fuel) t = get_signed 4 t >>= λ (typ, t1). decode_as (decode fuel) typ t1

  -- An error makes it the encoding of NONE.
  unfoldable pub to_string : Plain → Bytes
  to_string v =
      let t = encode v (new_lintree []) in
      if has_error t then (put_signed 4 (pos none_type) (clear t)).memory else t.memory

  -- Each value takes four bytes or more, so that the length of the string is enough fuel.
  unfoldable pub from_string : Bytes → Outcome Plain
  from_string source = decode (length source) (new_lintree source) >>= λ (v, t).
      returns (if has_error t then nothing else v)
