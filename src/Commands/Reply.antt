-- ===== src/Commands/Reply.antt =====
-- shared.cc: what a command reports, and the checks of arguments that the commands share.
use psingthreadlib.Prelude.{
  ℕ, zero, suc, Bool, true, false, Option, none, some, List, [], ◌∷◌, String, Bytes,
}
use psingthreadlib.Prelude.Int.{ℤ, pos}
use psingthreadlib.Prelude.Outcome.{Outcome, returns, faults}
use psingthreadlib.Value.{Kind, Value, int, string, shared, eq_kind}
use psingthreadlib.Shared.Registry.{World}

-- `message` is the text of `WerrorS`; the others are `report` with the name of the command.
pub data Error : Type 0 where
  too_few too_many no_uri no_region : (name : String) → Error
  message : (text : String) → Error

-- A command returns TRUE with an error, or FALSE with its result; or it sleeps in `wait`.
pub data Reply : Type 0 where
  fails : Error → Reply
  gives : Value → Reply
  sleeps : (depth : ℕ) → Reply

abbrev pub Answer : Type 0
Answer = Outcome (Reply × World)

-- The encoding of values, of lintree.cc.
pub record Codec : Type 0 where
  pub to_string : Value → Bytes
  pub from_string : Bytes → Value

unfoldable pub wrong_num_args : String → List Value → ℕ → Option Error
wrong_num_args name [] zero = none
wrong_num_args name (a ∷ arg) zero = some (too_many name)
wrong_num_args name [] (suc n) = some (too_few name)
wrong_num_args name (a ∷ arg) (suc n) = wrong_num_args name arg n

abbrev pub is_text : Value → Bool
is_text (string _) = true
is_text _ = false

abbrev pub is_number : Value → Bool
is_number (int _) = true
is_number _ = false

abbrev pub is_kind : Kind → Value → Bool
is_kind k (shared l _) = eq_kind l k
is_kind k _ = false

-- `Data()` of a string, of an integer, and of a shared object; a null pointer is `none`.
abbrev pub str : Value → Bytes
str (string s) = s
str _ = []

abbrev pub number_of : Value → ℤ
number_of (int n) = n
number_of _ = pos 0

abbrev pub object_of : Value → Option ℕ
object_of (shared _ o) = o
object_of _ = none

-- One check of a command.
abbrev pub require : Bool → Error → World → Answer → Answer
require true e w k = k
require false e w k = returns (fails e, w)

-- `wrong_num_args` at the start of a command with one, two or three arguments.
abbrev pub with_one : String → List Value → World → (Value → Answer) → Answer
with_one name args w k = elim (wrong_num_args name args 1) [
  | some e ↦ returns (fails e, w)
  | none ↦ elim args [ a ∷ _ ↦ k a | [] ↦ faults ]
]

abbrev pub with_two : String → List Value → World → (Value → Value → Answer) → Answer
with_two name args w k = elim (wrong_num_args name args 2) [
  | some e ↦ returns (fails e, w)
  | none ↦ elim args [ a ∷ b ∷ _ ↦ k a b | _ ↦ faults ]
]

abbrev pub with_three : String → List Value → World → (Value → Value → Value → Answer) → Answer
with_three name args w k = elim (wrong_num_args name args 3) [
  | some e ↦ returns (fails e, w)
  | none ↦ elim args [ a ∷ b ∷ c ∷ _ ↦ k a b c | _ ↦ faults ]
]

-- The test for a null pointer.
abbrev pub with_object : Value → Error → World → (ℕ → Answer) → Answer
with_object a e w k = elim (object_of a) [ none ↦ returns (fails e, w) | some o ↦ k o ]
