-- ===== src/Commands/Make.antt =====
-- shared.cc: the commands that make shared objects and find them by name.
use psingthreadlib.Prelude.{ℕ, false, Option, none, some, List, [], String, Bytes}
use psingthreadlib.Prelude.Int.{pos}
use psingthreadlib.Prelude.Outcome.{Outcome, returns, faults, ◌>>=◌, deref}
use psingthreadlib.Value.{
  Kind, Value, int, shared, region, channel, syncvar, atomic_table, shared_table, atomic_list,
  shared_list,
}
use psingthreadlib.Sync.Lock.{new_lock}
use psingthreadlib.Shared.Guard.{set_region, new_guard}
use psingthreadlib.Shared.TxTable.{new_table}
use psingthreadlib.Shared.TxList.{new_list}
use psingthreadlib.Shared.Channel.{new_channel}
use psingthreadlib.Shared.SyncVar.{new_syncvar}
use psingthreadlib.Shared.Registry.{
  World, Body, a_table, a_list, a_channel, a_syncvar, a_region, store_body, new_shared, make_global,
  find_global, make_shared_object,
}
use psingthreadlib.Commands.Reply.{
  no_uri, no_region, message, fails, gives, Answer, with_one, with_two, require, is_text, is_kind,
  str, object_of,
}

-- `scons`: `consTable`, `consList`, `consChannel`, `consSyncVar`, `consRegion`.
abbrev pub cons_table : Body
cons_table = a_table (new_table new_guard)

abbrev pub cons_list : Body
cons_list = a_list (new_list new_guard)

abbrev cons_channel : Body
cons_channel = a_channel new_channel

abbrev cons_syncvar : Body
cons_syncvar = a_syncvar new_syncvar

abbrev cons_region : Body
cons_region = a_region (new_lock false) []

-- `set_region` of a table or a list.
abbrev put_region : Option ℕ → Body → Body
put_region r (a_table t) = a_table (record t { guard = set_region r t.guard })
put_region r (a_list l) = a_list (record l { guard = set_region r l.guard })
put_region r b = b

abbrev pub assign_region : Option ℕ → ℕ → World → World
assign_region r o w = store_body o (put_region r (w.objects o).body) w

-- The end of a command: the object as its result.
abbrev give : Kind → ℕ → World → Answer
give kind o w = returns (gives (shared kind (some o)), new_shared o w)

-- A call through the null pointer that `makeSharedObject` gives for another type is a fault.
unfoldable pub make_atomic : String → Kind → Body → ℕ → List Value → World → Answer
make_atomic name kind body self args w = with_one name args w (λ a.
    require (is_text a) (no_uri name) w (
      make_global self kind (str a) body w >>= λ (obj, w').
      deref obj >>= λ o. give kind o (assign_region none o w')))

unfoldable pub make_atomic_table : ℕ → List Value → World → Answer
unfolding make_atomic
make_atomic_table = make_atomic "makeAtomicTable" atomic_table cons_table

unfoldable pub make_atomic_list : ℕ → List Value → World → Answer
unfolding make_atomic
make_atomic_list = make_atomic "makeAtomicList" atomic_list cons_list

-- The object goes into the table of the region, under the lock of the region.
abbrev make_in_region : ℕ → Kind → Bytes → Body → ℕ → World → Outcome (Option ℕ × World)
make_in_region self kind name body r w = elim ((w.objects r).body) [
  | a_region l names ↦ make_shared_object self kind name body names l w >>= λ (o, names', l', w').
      returns (o, store_body r (a_region l' names') w')
  | _ ↦ faults
]

unfoldable pub make_shared : String → Kind → Body → ℕ → List Value → World → Answer
make_shared name kind body self args w = with_two name args w (λ a b.
    require (is_kind region a) (no_region name) w (
      require (is_text b) (no_uri name) w (
        deref (object_of a) >>= λ r. make_in_region self kind (str b) body r w >>= λ (obj, w').
        deref obj >>= λ o. give kind o (assign_region (some r) o w'))))

unfoldable pub make_shared_table : ℕ → List Value → World → Answer
make_shared_table = make_shared "makeSharedTable" shared_table cons_table

unfoldable pub make_shared_list : ℕ → List Value → World → Answer
make_shared_list = make_shared "makeSharedList" shared_list cons_list

unfoldable pub make_plain : String → Kind → Body → ℕ → List Value → World → Answer
make_plain name kind body self args w = with_one name args w (λ a.
    require (is_text a) (no_uri name) w
      (make_global self kind (str a) body w >>= λ (obj, w'). deref obj >>= λ o. give kind o w'))

unfoldable pub make_channel : ℕ → List Value → World → Answer
make_channel = make_plain "makeChannel" channel cons_channel

unfoldable pub make_syncvar : ℕ → List Value → World → Answer
make_syncvar = make_plain "makeSyncVar" syncvar cons_syncvar

unfoldable pub make_region : ℕ → List Value → World → Answer
make_region = make_plain "makeRegion" region cons_region

abbrev is_found : Option ℕ → Value
is_found none = int (pos 0)
is_found (some _) = int (pos 1)

unfoldable pub find_object : ℕ → List Value → World → Answer
find_object self args w = with_one "findSharedObject" args w (λ a.
    require (is_text a) (no_uri "findSharedObject") w
      (find_global self (str a) w >>= λ (obj, w'). returns (gives (is_found obj), w')))

unfoldable pub bind_object : ℕ → List Value → World → Answer
bind_object self args w = with_one "bindSharedObject" args w (λ a.
    require (is_text a) (no_uri "bindSharedObject") w (
      find_global self (str a) w >>= λ (obj, w'). elim obj [
        | none ↦ returns (fails (message "bindSharedObject: cannot find object"), w')
        | some o ↦ give (w'.objects o).type o w'
      ]))
