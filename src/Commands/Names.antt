-- ===== src/Commands/Names.antt =====
-- shared.cc: the commands `setSharedName` and `getSharedName`.
pub mod Laws
use psingthreadlib.Prelude.{
  ℕ, Bool, true, false, not, ◌&&◌, ◌||◌, ◌==◌, Option, none, some, List, [], ◌∷◌, Bytes,
  if◌then◌else◌,
}
use psingthreadlib.Prelude.Outcome.{Outcome, returns, ◌>>=◌}
use psingthreadlib.Value.{Value, Kind, eq_kind, nothing, string, job, trigger, threadpool}
use psingthreadlib.Sched.State.{is_none}
use psingthreadlib.Commands.Command.{
  Command, Verdict, refused, done, string_cmd, of_kind, has_tag, new_command, ok, report,
  unless_error, fails_if, arg, check_argc, check_arg, shared_arg,
}
use psingthreadlib.Commands.Jobs.{text_of}
use psingthreadlib.Commands.Pools.{initialised}

-- `SharedObject::name` of all objects by address.
abbrev pub Names : Type 0
Names = ℕ → Bytes

abbrev pub rename : ℕ → Bytes → Names → Names
rename o name names k = if o == k then name else names k

abbrev pub has_name : Value → Bool
has_name a =
    has_tag (of_kind job) a || has_tag (of_kind trigger) a || has_tag (of_kind threadpool) a

-- `argtype`, `check_init` and the test of the type, in that order: a value of another type is read
-- through before its type is looked at.
abbrev pub check_named : Command → Outcome Command
check_named c = arg 0 c >>= λ a.
    unless_error c
      (initialised a >>= λ o. returns (fails_if (is_none o) "first argument is not initialized" c))
    >>= λ c'. returns (
        if has_name a then c' else report "first argument must be a job, trigger, or threadpool" c')

unfoldable pub set_shared_name : List Value → Names → Outcome (Verdict × Names)
set_shared_name args names =
    check_argc 2 (new_command "setSharedName" args)
    >>= check_named
    >>= check_arg 1 string_cmd "second argument must be a string"
    >>= λ c.
        if not (ok c)
        then returns (refused c.error, names)
        else (shared_arg 0 c >>= λ o.
            arg 1 c >>= text_of >>= λ name. returns (done nothing, rename o name names))

unfoldable pub get_shared_name : List Value → Names → Outcome Verdict
get_shared_name args names =
    check_argc 1 (new_command "getSharedName" args) >>= check_named >>= λ c.
    if not (ok c)
    then returns (refused c.error)
    else (shared_arg 0 c >>= λ o. returns (done (string (names o))))
