-- ===== src/Value.antt =====
-- The values of the Singular interpreter, as far as the library looks into them (`leftv`).
-- `rtyp` is the constructor; `shared` is a blackbox of this library, with the type that
-- `makeSharedType` registered and the object that it points to.
use psingthreadlib.Prelude.{◌==◌, ℕ, Bool, true, false, Option, List, Bytes}
use psingthreadlib.Prelude.Int.{ℤ}

pub data Kind : Type 0 where
  region regionlock channel syncvar atomic_table shared_table atomic_list shared_list : Kind
  thread threadpool job trigger : Kind

abbrev pub kind_index : Kind → ℕ
kind_index region = 0
kind_index regionlock = 1
kind_index channel = 2
kind_index syncvar = 3
kind_index atomic_table = 4
kind_index shared_table = 5
kind_index atomic_list = 6
kind_index shared_list = 7
kind_index thread = 8
kind_index threadpool = 9
kind_index job = 10
kind_index trigger = 11

-- The numbers of types are compared; those that `makeSharedType` registers are all different.
abbrev pub eq_kind : Kind → Kind → Bool
eq_kind a b = kind_index a == kind_index b

-- `nothing` is NONE. Of an `intmat` the entries come row by row. `other` is a value of a type that
-- the library does not encode.
mutual
  pub data Value : Type 0 where
    nothing : Value
    int : ℤ → Value
    string : Bytes → Value
    list : Values → Value
    command : (op : ℤ) → Values → Value
    def : Bytes → Value
    intmat : (rows cols : ℕ) → List ℤ → Value
    shared : Kind → Option ℕ → Value
    other : ℕ → Value

  pub data Values : Type 0 where
    nil : Values
    cons : Value → Values → Values

abbrev pub is_int : Value → Bool
is_int (int _) = true
is_int _ = false

abbrev pub is_string : Value → Bool
is_string (string _) = true
is_string _ = false
