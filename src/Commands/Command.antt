-- ===== src/Commands/Command.antt =====
-- shared.cc: the class `Command`, the checks of arguments of the newer commands.
use psingthreadlib.Prelude.{
  ℕ, Bool, true, false, not, ◌||◌, ◌==◌, ltb, Option, none, some, List, [], ◌∷◌, length, get_elem?,
  String, if◌then◌else◌,
}
use psingthreadlib.Prelude.Outcome.{Outcome, returns, faults, ◌>>=◌, deref}
use psingthreadlib.Value.{Value, Kind, int, string, list, command, shared, eq_kind}
use psingthreadlib.Sched.State.{Sched}

-- The types that the checks name.
pub data Tag : Type 0 where
  int_cmd string_cmd list_cmd command_cmd : Tag
  of_kind : Kind → Tag

abbrev pub has_tag : Tag → Value → Bool
has_tag int_cmd (int _) = true
has_tag string_cmd (string _) = true
has_tag list_cmd (list _) = true
has_tag command_cmd (command _ _) = true
has_tag (of_kind k) (shared l _) = eq_kind l k
has_tag _ _ = false

pub record Command : Type 0 where
  pub name : String
  pub error : Option String
  pub args : List Value

-- The constructor; the result is NONE at first.
abbrev pub new_command : String → List Value → Command
new_command name args = record { name = name; error = none; args = args }

abbrev pub report : String → Command → Command
report err cmd = record cmd { error = some err }

abbrev pub ok : Command → Bool
ok cmd = elim (cmd.error) [ none ↦ true | some _ ↦ false ]

-- A check does nothing once there is an error.
abbrev pub unless_error : Command → Outcome Command → Outcome Command
unless_error cmd k = if ok cmd then k else returns cmd

abbrev pub fails_if : Bool → String → Command → Command
fails_if b err cmd = if b then report err cmd else cmd

unfoldable pub check_argc : ℕ → Command → Outcome Command
check_argc n cmd =
    unless_error cmd
      (returns (fails_if (not (length cmd.args == n)) "wrong number of arguments" cmd))

unfoldable pub check_argc_min : ℕ → Command → Outcome Command
check_argc_min n cmd =
    unless_error cmd (returns (fails_if (ltb (length cmd.args) n) "wrong number of arguments" cmd))

-- `args[i]` behind the end is a fault.
unfoldable pub check_arg : ℕ → Tag → String → Command → Outcome Command
check_arg i tag err cmd =
    unless_error cmd
      (deref (get_elem? cmd.args i) >>= λ a. returns (fails_if (not (has_tag tag a)) err cmd))

unfoldable pub check_arg_either : ℕ → Tag → Tag → String → Command → Outcome Command
check_arg_either i tag tag2 err cmd = unless_error cmd (
    deref (get_elem? cmd.args i) >>= λ a.
    returns (fails_if (not (has_tag tag a || has_tag tag2 a)) err cmd))

abbrev pub is_null : Value → Bool
is_null (shared _ (some _)) = false
is_null (shared _ none) = true
is_null _ = false

-- It is called on arguments that `check_arg` has found to be shared objects.
unfoldable pub check_init : ℕ → String → Command → Outcome Command
check_init i err cmd =
    unless_error cmd (deref (get_elem? cmd.args i) >>= λ a. returns (fails_if (is_null a) err cmd))

-- `shared_arg`
abbrev pub shared_arg : ℕ → Command → Outcome ℕ
shared_arg i cmd =
    deref (get_elem? cmd.args i) >>= λ a. elim a [ shared _ o ↦ deref o | _ ↦ faults ]

unfoldable pub check_argc_between : (lo hi : ℕ) → Command → Outcome Command
check_argc_between lo hi cmd = unless_error cmd (
    returns (
      fails_if (ltb (length cmd.args) lo || ltb hi (length cmd.args)) "wrong number of arguments"
        cmd))

-- `test_arg`, which reads no argument behind the end.
abbrev pub test_arg : ℕ → Tag → Command → Bool
test_arg i tag cmd = elim (get_elem? cmd.args i) [ none ↦ false | some a ↦ has_tag tag a ]

-- `arg(i)`
abbrev pub arg : ℕ → Command → Outcome Value
arg i cmd = deref (get_elem? cmd.args i)

-- `status`: the error that is reported, or the result; or the command works on another pool, whose
-- state is beside the one here.
pub data Verdict : Type 0 where
  refused : Option String → Verdict
  done : Value → Verdict
  elsewhere : (pool : ℕ) → Verdict

abbrev pub when_ok : Command → Sched → Outcome (Verdict × Sched) → Outcome (Verdict × Sched)
when_ok cmd s k = if ok cmd then k else returns (refused cmd.error, s)

-- The arguments behind the first.
abbrev pub behind : List Value → List Value
behind [] = []
behind (_ ∷ rest) = rest
