-- ===== src/Commands/Exclusion.antt =====
-- `lockRegion` against the commands on the tables of the region.
use psingthreadlib.Prelude.{
  ℕ, ◌≡◌, refl, sym, ◌∙◌, ◌≢◌, inl, inr, true, false, Option, none, some, [], ◌∷◌, Bytes,
  Bool-cases, ==_iff, arith, ◌==◌,
}
use psingthreadlib.Prelude.Outcome.{returns, ◌>>=◌, >>=-eq-returns}
use psingthreadlib.Value.{Value, nothing, shared, string, region, shared_table}
use psingthreadlib.Sync.Lock.{Lock, lock, is_locked}
use psingthreadlib.Shared.Guard.{lock_region}
use psingthreadlib.Shared.Guard.Laws.{IsShut}
use psingthreadlib.Shared.TxTable.{TxTable}
use psingthreadlib.Shared.Registry.{World, Names, a_table, a_region, store_body, region_locks}
use psingthreadlib.Commands.Reply.{Codec, message, gives, fails, wrong_num_args}
use psingthreadlib.Commands.Tables.{get_table, put_table, in_table}
use psingthreadlib.Commands.Regions.{lock_region_command, with_region}
use psingthreadlib.Commands.Laws.{region_guards_commands}

lock_region-owner :
    (a : ℕ) (l l' : Lock) → lock_region a l ≡ returns l' → is_locked a l ≡ false → l'.owner ≡ some a
unfolding lock_region lock
lock_region-owner a l l' e h = ground arith

others_out : (a b : ℕ) (l : Lock) → b ≢ a → l.owner ≡ some a → is_locked b l ≡ false
others_out a b l ne h = ground arith

-- What a `lockRegion` that succeeds does.
locked_region :
    (a r : ℕ) (l : Lock) (names : Names) (w w' : World)
    → (w.objects r).body ≡ a_region l names
    → lock_region_command a (shared region (some r) ∷ []) w ≡ returns (gives nothing, w')
    → (l' : Lock) × (l'.owner ≡ some a) × (store_body r (a_region l' names) w ≡ w')
locked_region a r l names w w' body e = elim (Bool-cases (is_locked a l)) [
  | inl h ↦ absurd (clash h)
  | inr h ↦
      let (l', el, ew) = >>=-eq-returns (lock_region a l) _ (sym (taken h) ∙ e) in
      (l', lock_region-owner a l l' el h, cc)
]
  where
    refused :
        is_locked a l ≡ true
        → lock_region_command a (shared region (some r) ∷ []) w
          ≡ returns (fails (message "lockRegion: region is already locked"), w)
    refused h = unfold lock_region_command wrong_num_args in rw (with_region, body, h) refl

    clash : is_locked a l ≡ true → ⊥
    clash h = let p = refused h in cc

    taken :
        is_locked a l ≡ false
        → lock_region_command a (shared region (some r) ∷ []) w
          ≡ (lock_region a l >>= λ l'. returns (gives nothing, store_body r (a_region l' names) w))
    taken h = unfold lock_region_command wrong_num_args in rw (with_region, body, h) refl

module _ (codec : Codec) (a b r o : ℕ) (key : Bytes) (v : Value) (l : Lock) (names : Names)
    (t : TxTable) (w w' : World) where
  IsShut-at :
      (l' : Lock) (region_of : Option ℕ) (own : Option Lock)
      → b ≢ a
      → l'.owner ≡ some a
      → region_of ≡ some r
      → IsShut b
          (region_locks (store_body r (a_region l' names) w))
          (record { region = region_of; own = own })
  IsShut-at l' none own ne h e = cc
  IsShut-at l' (some q) own ne h e =
      let same : q ≡ r = cc in rw same (locked_out ((==_iff r r).1 refl))
    where
      locked_out :
          (r == r) ≡ true
          → is_locked b (region_locks (store_body r (a_region l' names) w) r) ≡ false
      locked_out k = rw (region_locks, k) (others_out a b l' ne h)

  table_stays :
      (l' : Lock)
      → (w.objects r).body ≡ a_region l names
      → (w.objects o).body ≡ a_table t
      → ((store_body r (a_region l' names) w).objects o).body ≡ a_table t
  table_stays l' br bo = elim (Bool-cases (r == o)) [
    | inl e ↦ absurd (clash ((==_iff r o).0 e))
    | inr e ↦ rw e bo
  ]
    where
      clash : r ≡ o → ⊥
      clash e = cc

  -- After one thread has locked a region by `lockRegion`, no other thread gets at a table of that
  -- region: each of `putTable`, `getTable` and `inTable` gives it an error and changes nothing.
  pub lock_region_excludes :
      b ≢ a
      → (w.objects r).body ≡ a_region l names
      → (w.objects o).body ≡ a_table t
      → t.guard.region ≡ some r
      → lock_region_command a (shared region (some r) ∷ []) w ≡ returns (gives nothing, w')
      → (put_table codec b (shared shared_table (some o) ∷ string key ∷ v ∷ []) w'
          ≡ returns (fails (message "putTable: region not acquired"), w'))
        × (get_table codec b (shared shared_table (some o) ∷ string key ∷ []) w'
            ≡ returns (fails (message "getTable: region not acquired"), w'))
        × (in_table codec b (shared shared_table (some o) ∷ string key ∷ []) w'
            ≡ returns (fails (message "inTable: region not acquired"), w'))
  lock_region_excludes ne br bo in_region e =
      let (l', owner, same) = locked_region a r l names w w' br e in
      rw (sym same) (
        region_guards_commands codec b shared_table o key v (store_body r (a_region l' names) w) t
          refl (table_stays l' br bo) (IsShut-at l' t.guard.region t.guard.own ne owner in_region))
