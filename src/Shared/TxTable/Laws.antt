-- ===== src/Shared/TxTable/Laws.antt =====
-- `TxTable` as a map from keys to values, under its own lock or that of its region.
use psingthreadlib.Prelude.{
  ℕ, ◌≡◌, refl, sym, ◌∙◌, inl, inr, true, false, Option, none, some, List, [], ◌∷◌, if◌then◌else◌,
  Bytes, Bool-cases, eq_bytes, eq_bytes_iff, arith,
}
use psingthreadlib.Prelude.Int.{ℤ, pos, negsuc}
use psingthreadlib.Prelude.Outcome.{Outcome, returns, ◌>>=◌}
use psingthreadlib.Shared.Guard.{RegionLocks, new_guard, set_region}
use psingthreadlib.Shared.Guard.Laws.{IsOpen, enters, IsShut, refuses}
use psingthreadlib.Shared.TxTable.{Entries, find, has, store, TxTable, new_table, put, get, check}

find-head :
    (key k v : Bytes) (es : Entries) → eq_bytes k key ≡ true → find key ((k, v) ∷ es) ≡ some v
unfolding find
find-head key k v es e = rw e

find-tail :
    (key k v : Bytes) (es : Entries) → eq_bytes k key ≡ false → find key ((k, v) ∷ es) ≡ find key es
unfolding find
find-tail key k v es e = rw e

same_key : (a b c : Bytes) → eq_bytes a b ≡ true → eq_bytes a c ≡ eq_bytes b c
same_key a b c h = rw ((eq_bytes_iff a b).0 h)

find-store :
    (key value k : Bytes) (es : Entries)
    → find k (store key value es) ≡ (if eq_bytes key k then some value else find k es)
unfolding find store
find-store key value k [] = refl
find-store key value k ((x, v) ∷ es) = elim (Bool-cases (eq_bytes x key)) [
  | inl e ↦ rw (e, same_key x key k e) (ground arith)
  | inr e ↦
      rw (e, find-store key value k es)
        (elim (Bool-cases (eq_bytes x k)) [
          | inl f ↦ rw f (ground (arith, eq_bytes_iff x key, eq_bytes_iff x k, eq_bytes_iff key k))
          | inr f ↦ rw f
        ])
]

module _ (self : ℕ) (locks : RegionLocks) (t : TxTable)
    (open_table : IsOpen self locks t.guard) where
  -- A thread that may enter the table (it holds the lock of its region, or the table has a lock of
  -- its own that is free) puts a value under a key: the call says whether the key is new, the key
  -- has the value then, every other key keeps what it had, and the lock is left as it was.
  pub put-find :
      (key value : Bytes)
      → (es : Entries) × (put self locks key value t
          ≡ returns (pos (if has (find key t.entries) then 0 else 1), record t { entries = es }))
        × ((k : Bytes) → find k es ≡ (if eq_bytes key k then some value else find k t.entries))
  unfolding put
  put-find key value =
      let (g, e, e') = enters self locks t.guard open_table in
      (store key value t.entries, rw (e, e'), λ k. find-store key value k t.entries)

  pub get_open :
      (key : Bytes)
      → get self locks key t
        ≡ returns (pos (if has (find key t.entries) then 1 else 0), find key t.entries, t)
  unfolding get
  get_open key = let (g, e, e') = enters self locks t.guard open_table in rw (e, e')

  check_open :
      (key : Bytes)
      → check self locks key t ≡ returns (pos (if has (find key t.entries) then 1 else 0), t)
  unfolding check
  check_open key = let (g, e, e') = enters self locks t.guard open_table in rw (e, e')

-- A sequence of puts, by any threads.
unfoldable pub put_all : RegionLocks → List (ℕ × Bytes × Bytes) → TxTable → Outcome TxTable
put_all locks [] t = returns t
put_all locks ((self, key, value) ∷ rest) t =
    put self locks key value t >>= λ (result, t'). put_all locks rest t'

-- What the sequence stores last under a key, over what was there before.
abbrev pub last_put : Bytes → List (ℕ × Bytes × Bytes) → Option Bytes → Option Bytes
last_put k [] old = old
last_put k ((self, key, value) ∷ rest) old =
    last_put k rest (if eq_bytes key k then some value else old)

abbrev Stored : RegionLocks → List (ℕ × Bytes × Bytes) → TxTable → Type 0
Stored locks puts t =
    (es : Entries) × (put_all locks puts t ≡ returns (record t { entries = es }))
    × ((k : Bytes) → find k es ≡ last_put k puts (find k t.entries))

put_all-next :
    (locks : RegionLocks) (self : ℕ) (key value : Bytes) (rest : List (ℕ × Bytes × Bytes)) (r : ℤ)
    (t u : TxTable)
    → put self locks key value t ≡ returns (r, u)
    → put_all locks ((self, key, value) ∷ rest) t ≡ put_all locks rest u
unfolding put_all
put_all-next locks self key value rest r t u e = rw e

put_all-Stored :
    (locks : RegionLocks) (puts : List (ℕ × Bytes × Bytes)) (t : TxTable)
    → ((self : ℕ) → IsOpen self locks t.guard)
    → Stored locks puts t
put_all-Stored locks [] t h = (t.entries, unfold put_all in refl, λ k. refl)
put_all-Stored locks ((self, key, value) ∷ rest) t h =
    let (es, e, f) = put-find self locks t (h self) key value in
    let (fs, e', f') = put_all-Stored locks rest (record t { entries = es }) h in
    (
      fs,
      put_all-next locks self key value rest _ t (record t { entries = es }) e ∙ e',
      λ k. rw (f' k, f k),
    )

-- After any sequence of puts by any threads on a new atomic table, every thread that gets a key
-- finds the value that was put there last, or learns that there is none, and `check` agrees.
pub puts-get :
    (locks : RegionLocks) (puts : List (ℕ × Bytes × Bytes)) (self : ℕ) (key : Bytes)
    → (t : TxTable) × (put_all locks puts (new_table (set_region none new_guard)) ≡ returns t)
      × (get self locks key t
          ≡ returns
              (pos (if has (last_put key puts none) then 1 else 0), last_put key puts none, t))
      × (check self locks key t ≡ returns (pos (if has (last_put key puts none) then 1 else 0), t))
puts-get locks puts self key =
    let t0 = new_table (set_region none new_guard) in
    let (es, e, f) = put_all-Stored locks puts t0 (λ self. refl) in
    let t = record t0 { entries = es } in
    let found : find key es ≡ last_put key puts none = f key ∙ (unfold find in refl) in
    (
      t,
      e,
      rw (sym found) (get_open self locks t refl key),
      rw (sym found) (check_open self locks t refl key),
    )

-- A thread that does not hold the lock of the region of a table gets -1 from every operation, and
-- the table stays as it is.
pub region_guards_table :
    (self : ℕ) (locks : RegionLocks) (key value : Bytes) (t : TxTable)
    → IsShut self locks t.guard
    → (put self locks key value t ≡ returns (negsuc 0, t))
      × (get self locks key t ≡ returns (negsuc 0, none, t))
      × (check self locks key t ≡ returns (negsuc 0, t))
unfolding put get check
region_guards_table self locks key value t h =
    let e = refuses self locks t.guard h in (rw e, rw e, rw e)
