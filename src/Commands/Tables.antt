-- ===== src/Commands/Tables.antt =====
-- shared.cc: `getTable`, `inTable` and `putTable`.
use psingthreadlib.Prelude.{ℕ, Bool, ◌||◌, Option, none, some, List, [], Bytes, if◌then◌else◌}
use psingthreadlib.Prelude.Int.{pos, ltb_ℤ, eq_ℤ}
use psingthreadlib.Prelude.Outcome.{returns, faults, ◌>>=◌}
use psingthreadlib.Value.{Value, nothing, int, atomic_table, shared_table}
use psingthreadlib.Shared.TxTable.{TxTable, put, get, check}
use psingthreadlib.Shared.Registry.{World, a_table, store_body, region_locks}
use psingthreadlib.Commands.Reply.{
  message, fails, gives, Answer, Codec, with_two, with_three, with_object, require, is_text,
  is_kind, str,
}

abbrev pub is_table : Value → Bool
is_table a = is_kind atomic_table a || is_kind shared_table a

-- An object of these types is a table.
abbrev pub with_table : ℕ → World → (TxTable → Answer) → Answer
with_table o w k = elim ((w.objects o).body) [ a_table t ↦ k t | _ ↦ faults ]

abbrev pub string_of : Option Bytes → Bytes
string_of none = []
string_of (some s) = s

module _ (codec : Codec) where
  open codec use {to_string, from_string}

  unfoldable pub get_table : ℕ → List Value → World → Answer
  get_table self args w = with_two "getTable" args w (λ a b.
      require (is_table a) (message "getTable: not a valid table") w (
        require (is_text b) (message "getTable: not a valid table key") w (
          with_object a (message "getTable: table has not been initialized") w (λ o.
            with_table o w (λ t. get self (region_locks w) (str b) t >>= λ (success, value, t').
            let w' = store_body o (a_table t') w in
            if ltb_ℤ success (pos 0)
            then returns (fails (message "getTable: region not acquired"), w')
            else (if eq_ℤ success (pos 0)
                then returns (fails (message "getTable: key not found"), w')
                else returns (gives (from_string (string_of value)), w')))))))

  unfoldable pub in_table : ℕ → List Value → World → Answer
  in_table self args w = with_two "inTable" args w (λ a b.
      require (is_table a) (message "inTable: not a valid table") w (
        require (is_text b) (message "inTable: not a valid table key") w (
          with_object a (message "inTable: table has not been initialized") w (λ o.
            with_table o w (λ t. check self (region_locks w) (str b) t >>= λ (success, t').
            let w' = store_body o (a_table t') w in
            if ltb_ℤ success (pos 0)
            then returns (fails (message "inTable: region not acquired"), w')
            else returns (gives (int success), w'))))))

  unfoldable pub put_table : ℕ → List Value → World → Answer
  put_table self args w = with_three "putTable" args w (λ a b c.
      require (is_table a) (message "putTable: not a valid table") w (
        require (is_text b) (message "putTable: not a valid table key") w (
          with_object a (message "putTable: table has not been initialized") w (λ o.
            with_table o w (λ t.
              put self (region_locks w) (str b) (to_string c) t >>= λ (success, t').
              let w' = store_body o (a_table t') w in
              if ltb_ℤ success (pos 0)
              then returns (fails (message "putTable: region not acquired"), w')
              else returns (gives nothing, w'))))))
