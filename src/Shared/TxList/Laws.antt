-- ===== src/Shared/TxList/Laws.antt =====
-- `TxList` as a sequence of strings, under its own lock or that of its region.
use psingthreadlib.Prelude.{
  ℕ, zero, suc, ◌+◌, ◌-◌, ◌≤◌, ◌≡◌, refl, sym, ap, ◌∙◌, inl, inr, ◌≢◌, true, false, none, some,
  List, [], ◌∷◌, length, length-set, set, get_elem?, get_elem?-set_self, get_elem?-set_ne, leb,
  if◌then◌else◌, Bytes, Bool-cases, is_empty, arith,
}
use psingthreadlib.Prelude.Int.{pos, negsuc}
use psingthreadlib.Prelude.Outcome.{returns}
use psingthreadlib.Shared.Guard.{RegionLocks}
use psingthreadlib.Shared.Guard.Laws.{IsOpen, enters, IsShut, refuses}
use psingthreadlib.Shared.TxList.{TxList, resize, store, put, get, size, entry}

-- What a list has at a position counted from 0: nothing behind its end, or an empty string.
abbrev pub at_or_empty : List Bytes → ℕ → Bytes
at_or_empty l i = elim (get_elem? l i) [ none ↦ [] | some v ↦ v ]

length-resize : (n : ℕ) (l : List Bytes) → length (resize n l) ≡ n
unfolding resize
length-resize zero l = refl
length-resize (suc n) [] = ap suc (length-resize n [])
length-resize (suc n) (x ∷ xs) = ap suc (length-resize n xs)

-- `resize` adds empty strings at the end.
resize_keeps :
    (n i : ℕ) (l : List Bytes) → length l ≤ n → at_or_empty (resize n l) i ≡ at_or_empty l i
unfolding resize
resize_keeps zero i [] h = refl
resize_keeps zero i (x ∷ xs) h = absurd (omega arith)
resize_keeps (suc n) zero [] h = refl
resize_keeps (suc n) (suc i) [] h = resize_keeps n i [] (omega arith)
resize_keeps (suc n) zero (x ∷ xs) h = refl
resize_keeps (suc n) (suc i) (x ∷ xs) h = resize_keeps n i xs (omega arith)

-- What `put` does to the strings of a list, at the index `i + 1`.
pub record Puts (i : ℕ) (value : Bytes) (l l' : List Bytes) : Type 0 where
  pub here : get_elem? l' i ≡ some value
  pub elsewhere : (k : ℕ) → k ≢ i → at_or_empty l' k ≡ at_or_empty l k
  pub size : length l' ≡ (if leb (suc i) (length l) then length l else suc i + 1)

put_stores :
    (i : ℕ) (value : Bytes) (l : List Bytes)
    → (l' : List Bytes) × (store (suc i) value l
        ≡ returns (pos (if leb (suc i) (length l) then 1 else 0), l'))
      × Puts i value l l'
put_stores i value l = elim (Bool-cases (leb (suc i) (length l))) [
  | inl e ↦ (
    set l i value,
    unfold store in ground (arith, e),
    record {
      here = get_elem?-set_self l i value (ground arith);
      elsewhere = λ k n.
          ap (λ o. elim o [ none ↦ [] | some v ↦ v ]) (get_elem?-set_ne l value (λ p. n (sym p)));
      size = rw e (length-set l i value);
    },
  )
  | inr e ↦
      let big = resize (suc i + 1) l in
      (
        set big i value,
        unfold store in ground (arith, e),
        record {
          here = get_elem?-set_self big i value (omega (arith, length-resize (suc i + 1) l));
          elsewhere = λ k n.
              ap (λ o. elim o [ none ↦ [] | some v ↦ v ])
                (get_elem?-set_ne big value (λ p. n (sym p)))
              ∙ resize_keeps (suc i + 1) k l (ground arith);
          size = rw e (length-set big i value ∙ length-resize (suc i + 1) l);
        },
      )
]

entry-here :
    (i : ℕ) (value : Bytes) (l : List Bytes)
    → get_elem? l i ≡ some value
    → is_empty value ≡ false
    → entry (suc i) l ≡ some value
entry-here i value l h e = ground (arith, inside i l h, h, e, pred i)
  where
    pred : (i : ℕ) → suc i - 1 ≡ i
    pred i = omega arith

    inside : (i : ℕ) (l : List Bytes) → get_elem? l i ≡ some value → leb (suc i) (length l) ≡ true
    inside i [] h = cc
    inside zero (x ∷ xs) h = ground arith
    inside (suc i) (x ∷ xs) h = ground (arith, inside i xs h)

module _ (self : ℕ) (locks : RegionLocks) (t : TxList) (open_list : IsOpen self locks t.guard) where
  -- A thread that may enter the list puts a value at an index from 1 on: the call says whether the
  -- list had that index; the value is there then, all else reads as before, and a list that was too
  -- short has one entry more than the index; and a get of the index finds the value, if it is not
  -- the empty string. The lock is left as it was.
  pub list_put-get :
      (i : ℕ) (value : Bytes)
      → (l : List Bytes) × (put self locks (suc i) value t
          ≡ returns
              (pos (if leb (suc i) (length t.entries) then 1 else 0), record t { entries = l }))
        × Puts i value t.entries l
        × (is_empty value ≡ false
            → get self locks (suc i) (record t { entries = l })
              ≡ returns (pos 1, some value, record t { entries = l }))
  list_put-get i value =
      let (g, e, e') = enters self locks t.guard open_list in
      let (l, stored, p) = put_stores i value t.entries in
      (
        l,
        unfold put in rw (e, stored, e') refl,
        p,
        λ full. unfold get in rw (e, e', entry-here i value l p.here full) refl,
      )

-- A thread that does not hold the lock of the region of a list gets -1 from every operation, and
-- the list stays as it is.
pub region_guards_list :
    (self : ℕ) (locks : RegionLocks) (index : ℕ) (value : Bytes) (t : TxList)
    → IsShut self locks t.guard
    → (put self locks index value t ≡ returns (negsuc 0, t))
      × (get self locks index t ≡ returns (negsuc 0, none, t))
      × (size self locks t ≡ returns (negsuc 0, t))
unfolding put get size
region_guards_list self locks index value t h =
    let e = refuses self locks t.guard h in (rw e, rw e, rw e)
