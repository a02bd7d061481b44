-- ===== src/Commands/Lists.antt =====
-- shared.cc: `getList` and `putList`.
use psingthreadlib.Prelude.{ℕ, Bool, ◌||◌, List, if◌then◌else◌}
use psingthreadlib.Prelude.Int.{ℤ, pos, negsuc, ltb_ℤ, eq_ℤ}
use psingthreadlib.Prelude.Outcome.{returns, faults, ◌>>=◌}
use psingthreadlib.Value.{Value, nothing, atomic_list, shared_list}
use psingthreadlib.Shared.TxList.{TxList, put, get}
use psingthreadlib.Shared.Registry.{World, a_list, store_body, region_locks}
use psingthreadlib.Commands.Reply.{
  message, fails, gives, Answer, Codec, with_two, with_three, with_object, require, is_number,
  is_kind, number_of,
}
use psingthreadlib.Commands.Tables.{string_of}

abbrev pub is_list : Value → Bool
is_list a = is_kind atomic_list a || is_kind shared_list a

abbrev with_list : ℕ → World → (TxList → Answer) → Answer
with_list o w k = elim ((w.objects o).body) [ a_list l ↦ k l | _ ↦ faults ]

-- A negative index becomes a `size_t` behind the end of every list: `get` finds nothing there, and
-- `put` fails in `resize` or behind it, as both do at 0.
abbrev pub index_of : ℤ → ℕ
index_of (pos n) = n
index_of (negsuc _) = 0

module _ (codec : Codec) where
  open codec use {to_string, from_string}

  unfoldable pub get_list : ℕ → List Value → World → Answer
  get_list self args w = with_two "getList" args w (λ a b.
      require (is_list a) (message "getList: not a valid list (atomic or shared)") w (
        require (is_number b) (message "getList: index must be an integer") w (
          with_object a (message "getList: list has not been initialized") w (λ o.
            with_list o w (λ l.
              get self (region_locks w) (index_of (number_of b)) l >>= λ (success, value, l').
              let w' = store_body o (a_list l') w in
              if ltb_ℤ success (pos 0)
              then returns (fails (message "getList: region not acquired"), w')
              else (if eq_ℤ success (pos 0)
                  then returns (fails (message "getList: no value at position"), w')
                  else returns (gives (from_string (string_of value)), w')))))))

  unfoldable pub put_list : ℕ → List Value → World → Answer
  put_list self args w = with_three "putList" args w (λ a b c.
      require (is_list a) (message "putList: not a valid list (shared or atomic)") w (
        require (is_number b) (message "putList: index must be an integer") w (
          with_object a (message "putList: list has not been initialized") w (λ o.
            with_list o w (λ l.
              put self (region_locks w) (index_of (number_of b)) (to_string c) l
              >>= λ (success, l').
                  let w' = store_body o (a_list l') w in
                  if ltb_ℤ success (pos 0)
                  then returns (fails (message "putList: region not acquired"), w')
                  else returns (gives nothing, w'))))))
