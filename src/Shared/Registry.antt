-- ===== src/Shared/Registry.antt =====
-- shared.cc: `SharedObject` with its reference count, and the tables that find objects by name.
pub mod Laws
use psingthreadlib.Prelude.{
  ℕ, ◌+◌, Bool, true, false, not, Option, none, some, List, [], ◌∷◌, if◌then◌else◌, modify, Bytes,
  eq_bytes,
}
use psingthreadlib.Prelude.Int.{ℤ, pos, negsuc, ◌+ℤ◌}
use psingthreadlib.Prelude.Outcome.{Outcome, returns, ◌>>=◌}
use psingthreadlib.Value.{Kind, eq_kind}
use psingthreadlib.Sync.Lock.{Lock, new_lock, lock, unlock, is_locked}
use psingthreadlib.Shared.Guard.{RegionLocks}
use psingthreadlib.Shared.TxTable.{TxTable}
use psingthreadlib.Shared.TxList.{TxList}
use psingthreadlib.Shared.Channel.{Channel}
use psingthreadlib.Shared.SyncVar.{SyncVar}

-- `SharedObjectTable`: names with the addresses of their objects.
abbrev pub Names : Type 0
Names = List (Bytes × ℕ)

-- The subclass of an object, with its fields; a region has its lock and the objects in it.
pub data Body : Type 0 where
  a_table : TxTable → Body
  a_list : TxList → Body
  a_channel : Channel → Body
  a_syncvar : SyncVar → Body
  a_region : (region_lock : Lock) → (objects : Names) → Body

pub record SharedObject : Type 0 where
  pub refcount : ℤ
  pub type : Kind
  pub name : Bytes
  pub body : Body

-- All shared objects of the process, the addresses made so far being those below `allocated`, with
-- `global_objects` and the lock of that table.
pub record World : Type 0 where
  pub objects : ℕ → SharedObject
  pub allocated : ℕ
  pub global_objects : Names
  pub global_objects_lock : Lock

-- `table[name]` of a name that is there.
unfoldable pub find_name : Bytes → Names → Option ℕ
find_name name [] = none
find_name name ((n, o) ∷ rest) = if eq_bytes n name then some o else find_name name rest

abbrev pub change : ℕ → (SharedObject → SharedObject) → World → World
change o f w = record w { objects = modify f o w.objects }

-- `incref` and `decref`, each under the lock of the object; an object whose count falls to zero is
-- not deleted.
abbrev pub incref : SharedObject → SharedObject
incref obj = record obj { refcount = obj.refcount +ℤ pos 1 }

abbrev pub decref : SharedObject → SharedObject
decref obj = record obj { refcount = obj.refcount +ℤ negsuc 0 }

-- `new_shared`: the pointer in a value counts.
abbrev pub new_shared : ℕ → World → World
new_shared o w = change o incref w

abbrev set_body : Body → SharedObject → SharedObject
set_body b obj = record obj { body = b }

abbrev pub store_body : ℕ → Body → World → World
store_body o b w = change o (set_body b) w

abbrev pub region_locks : World → RegionLocks
region_locks w r = elim ((w.objects r).body) [ a_region l _ ↦ l | _ ↦ new_lock false ]

-- The lock is taken unless the thread has it, and given back if it was taken.
abbrev enter : ℕ → Lock → Outcome Lock
enter self l = if is_locked self l then returns l else lock self l

abbrev leave : ℕ → Bool → Lock → Outcome Lock
leave self was_locked l = if was_locked then returns l else unlock self l

-- `set_type` and `set_name` of what `scons` has made.
unfoldable pub make_object : Kind → Bytes → Body → World → World
make_object type name body w =
    record (change w.allocated
      (λ _. record { refcount = pos 0; type = type; name = name; body = body }) w) {
        allocated = w.allocated + 1;
      }

-- What `makeSharedObject` does to the table between its calls of the lock. A null pointer is `none`.
unfoldable pub look_or_make : Kind → Bytes → Body → Names → World → Option ℕ × Names × World
look_or_make type name body table w = elim (find_name name table) [
  | some o ↦ (if eq_kind (w.objects o).type type then some o else none, table, w)
  | none ↦ (some w.allocated, (name, w.allocated) ∷ table, make_object type name body w)
]

unfoldable pub make_shared_object :
    ℕ → Kind → Bytes → Body → Names → Lock → World → Outcome (Option ℕ × Names × Lock × World)
make_shared_object self type name body table l w = enter self l >>= λ l'.
    let (result, table', w') = look_or_make type name body table w in
    leave self (is_locked self l) l' >>= λ l''. returns (result, table', l'', w')

unfoldable pub find_shared_object : ℕ → Bytes → Names → Lock → Outcome (Option ℕ × Lock)
find_shared_object self name table l = enter self l >>= λ l'.
    leave self (is_locked self l) l' >>= λ l''. returns (find_name name table, l'')

-- The same in the table `global_objects`.
unfoldable pub make_global : ℕ → Kind → Bytes → Body → World → Outcome (Option ℕ × World)
make_global self type name body w =
    make_shared_object self type name body w.global_objects w.global_objects_lock w
    >>= λ (o, table, l, w').
        returns (o, record w' { global_objects = table; global_objects_lock = l })

unfoldable pub find_global : ℕ → Bytes → World → Outcome (Option ℕ × World)
find_global self name w =
    find_shared_object self name w.global_objects w.global_objects_lock >>= λ (o, l).
    returns (o, record w { global_objects_lock = l })
