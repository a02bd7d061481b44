-- ===== src/Commands/Laws.antt =====
-- The commands on tables, through the checks of their arguments.
use psingthreadlib.Prelude.{
  ℕ, ◌≡◌, refl, sym, ap, ◌∙◌, fun_ext, inl, inr, true, false, Option, none, some, [], ◌∷◌, Bytes,
  modify, Bool-cases, ==_iff, eq_bytes_iff, arith, ◌==◌,
}
use psingthreadlib.Prelude.Int.{pos, negsuc, ltb_ℤ}
use psingthreadlib.Prelude.Outcome.{returns}
use psingthreadlib.Value.{Value, Kind, nothing, string, shared}
use psingthreadlib.Shared.Guard.Laws.{IsOpen, IsShut}
use psingthreadlib.Shared.TxTable.{TxTable, find, put, get, check}
use psingthreadlib.Shared.TxTable.Laws.{put-find, get_open, region_guards_table}
use psingthreadlib.Shared.Registry.{World, SharedObject, a_table, store_body, region_locks}
use psingthreadlib.Commands.Reply.{Codec, message, gives, fails, wrong_num_args}
use psingthreadlib.Commands.Tables.{get_table, put_table, in_table, is_table, with_table}

not_negative : (n : ℕ) → ltb_ℤ (pos n) (pos 0) ≡ false
not_negative n = ground arith

negative : (n : ℕ) → ltb_ℤ (negsuc n) (pos 0) ≡ true
negative n = ground arith

same_body :
    (o k : ℕ) (objects : ℕ → SharedObject)
    → modify (λ obj. record obj { body = (objects o).body }) o objects k ≡ objects k
same_body o k objects = elim (Bool-cases (o == k)) [
  | inl e ↦ rw ((==_iff o k).0 e) (ground arith)
  | inr e ↦ rw e refl
]

-- An object that gets the contents it has is the same.
store_same : (o : ℕ) (w : World) → store_body o (w.objects o).body w ≡ w
store_same o w = ap (λ f. record w { objects = f }) (fun_ext (λ k. same_body o k w.objects))

module _ (codec : Codec) (self : ℕ) (kind : Kind) (o : ℕ) (w : World) (t : TxTable)
    (is_a_table : is_table (shared kind (some o)) ≡ true)
    (body : (w.objects o).body ≡ a_table t) where
  abbrev stored : TxTable → World
  stored t' = store_body o (a_table t') w

  stored_same : stored t ≡ w
  stored_same = ap (λ b. store_body o b w) (sym body) ∙ store_same o w

  locks_at : (t' : TxTable) (r : ℕ) → region_locks (stored t') r ≡ region_locks w r
  locks_at t' r = elim (Bool-cases (o == r)) [
    | inl e ↦ rw (region_locks, e) (rw (sym ((==_iff o r).0 e)) (rw (region_locks, body) refl))
    | inr e ↦ rw (region_locks, e) refl
  ]

  stored-body : (t' : TxTable) → ((stored t').objects o).body ≡ a_table t'
  stored-body t' = rw ((==_iff o o).1 refl) refl

  put_gives :
      (key : Bytes) (v : Value) (n : ℕ) (t' : TxTable)
      → put self (region_locks w) key (codec.to_string v) t ≡ returns (pos n, t')
      → put_table codec self (shared kind (some o) ∷ string key ∷ v ∷ []) w
        ≡ returns (gives nothing, stored t')
  unfolding put_table wrong_num_args
  put_gives key v n t' e = rw (is_a_table, with_table, body, e, not_negative n) refl

  put_refused :
      (key : Bytes) (v : Value) (n : ℕ) (t' : TxTable)
      → put self (region_locks w) key (codec.to_string v) t ≡ returns (negsuc n, t')
      → put_table codec self (shared kind (some o) ∷ string key ∷ v ∷ []) w
        ≡ returns (fails (message "putTable: region not acquired"), stored t')
  unfolding put_table wrong_num_args
  put_refused key v n t' e = rw (is_a_table, with_table, body, e, negative n) refl

  get_gives :
      (key s : Bytes) (t' : TxTable)
      → get self (region_locks w) key t ≡ returns (pos 1, some s, t')
      → get_table codec self (shared kind (some o) ∷ string key ∷ []) w
        ≡ returns (gives (codec.from_string s), stored t')
  unfolding get_table wrong_num_args
  get_gives key s t' e = rw (is_a_table, with_table, body, e) refl

  get_refused :
      (key : Bytes) (n : ℕ) (s : Option Bytes) (t' : TxTable)
      → get self (region_locks w) key t ≡ returns (negsuc n, s, t')
      → get_table codec self (shared kind (some o) ∷ string key ∷ []) w
        ≡ returns (fails (message "getTable: region not acquired"), stored t')
  unfolding get_table wrong_num_args
  get_refused key n s t' e = rw (is_a_table, with_table, body, e, negative n) refl

  check_refused :
      (key : Bytes) (n : ℕ) (t' : TxTable)
      → check self (region_locks w) key t ≡ returns (negsuc n, t')
      → in_table codec self (shared kind (some o) ∷ string key ∷ []) w
        ≡ returns (fails (message "inTable: region not acquired"), stored t')
  unfolding in_table wrong_num_args
  check_refused key n t' e = rw (is_a_table, with_table, body, e, negative n) refl

-- After a thread that may enter a table has put a value under a key by `putTable`, `getTable` gives
-- it the value, if the encoding of that value decodes to it, and leaves all objects as they are.
pub put_table-get_table :
    (codec : Codec) (self : ℕ) (kind : Kind) (o : ℕ) (key : Bytes) (v : Value) (w : World)
    (t : TxTable)
    → is_table (shared kind (some o)) ≡ true
    → (w.objects o).body ≡ a_table t
    → IsOpen self (region_locks w) t.guard
    → codec.from_string (codec.to_string v) ≡ v
    → (w' : World) × (put_table codec self (shared kind (some o) ∷ string key ∷ v ∷ []) w
        ≡ returns (gives nothing, w'))
      × (get_table codec self (shared kind (some o) ∷ string key ∷ []) w' ≡ returns (gives v, w'))
put_table-get_table codec self kind o key v w t is_a_table body may_enter decodes =
    let (es, e, f) = put-find self (region_locks w) t may_enter key (codec.to_string v) in
    let t' = record t { entries = es } in
    let w' = stored codec self kind o w t is_a_table body t' in
    let key_there : find key es ≡ some (codec.to_string v) =
      f key ∙ rw ((eq_bytes_iff key key).1 refl) refl in
    let same_locks : region_locks w' ≡ region_locks w =
      fun_ext (locks_at codec self kind o w t is_a_table body t') in
    let got : get self (region_locks w') key t' ≡ returns (pos 1, some (codec.to_string v), t') =
      rw same_locks (get_open self (region_locks w) t' may_enter key ∙ rw key_there refl) in
    (
      w',
      put_gives codec self kind o w t is_a_table body key v _ t' e,
      get_gives codec self kind o w' t' is_a_table
            (stored-body codec self kind o w t is_a_table body t') key (codec.to_string v) t' got
          ∙ (rw
              (
                decodes,
                stored_same codec self kind o w' t' is_a_table
                    (stored-body codec self kind o w t is_a_table body t'),
              )
              refl),
    )

-- A thread that does not hold the lock of the region of a table gets an error from each of
-- `putTable`, `getTable` and `inTable`, which tells it so, and no object changes.
pub region_guards_commands :
    (codec : Codec) (self : ℕ) (kind : Kind) (o : ℕ) (key : Bytes) (v : Value) (w : World)
    (t : TxTable)
    → is_table (shared kind (some o)) ≡ true
    → (w.objects o).body ≡ a_table t
    → IsShut self (region_locks w) t.guard
    → (put_table codec self (shared kind (some o) ∷ string key ∷ v ∷ []) w
        ≡ returns (fails (message "putTable: region not acquired"), w))
      × (get_table codec self (shared kind (some o) ∷ string key ∷ []) w
          ≡ returns (fails (message "getTable: region not acquired"), w))
      × (in_table codec self (shared kind (some o) ∷ string key ∷ []) w
          ≡ returns (fails (message "inTable: region not acquired"), w))
region_guards_commands codec self kind o key v w t is_a_table body shut =
    let (p, g, c) = region_guards_table self (region_locks w) key (codec.to_string v) t shut in
    let same = stored_same codec self kind o w t is_a_table body in
    (
      put_refused codec self kind o w t is_a_table body key v 0 t p ∙ (rw same refl),
      get_refused codec self kind o w t is_a_table body key 0 none t g ∙ (rw same refl),
      check_refused codec self kind o w t is_a_table body key 0 t c ∙ (rw same refl),
    )
