-- ===== src/Commands/Updates.antt =====
-- shared.cc: `updateSyncVar`, which runs a procedure of the interpreter while it holds the lock of
-- the variable.
use psingthreadlib.Prelude.{ℕ, not, Option, none, some, List, ◌∷◌, Bytes, if◌then◌else◌}
use psingthreadlib.Prelude.Outcome.{Outcome, returns, faults, ◌>>=◌, deref}
use psingthreadlib.Value.{Value, syncvar}
use psingthreadlib.Shared.SyncVar as SyncVar
use psingthreadlib.Shared.SyncVar.{
  SyncVar, Waits, acquire, release, wait_init, wait_resume, get, update_end,
}
use psingthreadlib.Shared.Registry.{World, a_syncvar, store_body}
use psingthreadlib.Commands.Reply.{Codec}
use psingthreadlib.Commands.Command.{
  Command, Verdict, refused, done, string_cmd, of_kind, new_command, ok, arg, check_argc_min,
  check_arg, check_init, shared_arg,
}
use psingthreadlib.Commands.Jobs.{text_of, drop}

-- The command has its answer, or sleeps until the variable is written.
pub data Updates : Type 0 where
  answers : Verdict → Updates
  sleeps : (depth : ℕ) → Updates

abbrev pub update_checks : List Value → Outcome Command
update_checks args =
    check_argc_min 2 (new_command "updateSyncVar" args)
    >>= check_arg 0 (of_kind syncvar) "first argument must be a syncvar"
    >>= check_init 0 "syncvar has not been initialized"
    >>= check_arg 1 string_cmd "second argument must be a string"

abbrev with_variable : ℕ → World → (SyncVar → Outcome (Updates × World)) → Outcome (Updates × World)
with_variable o w k = elim ((w.objects o).body) [ a_syncvar v ↦ k v | _ ↦ faults ]

-- `procedure` is `executeProc`, with the state of the shared objects, which it can change; it gives
-- no value where it reports an error.
module _ (codec : Codec) (procedure : Bytes → List Value → World → Option Value × World) where
  open codec use {to_string, from_string}

  -- `update` if the procedure gave a value, and `release`.
  unfoldable pub finish : ℕ → ℕ → Option Value → World → Outcome (Updates × World)
  finish self o none w = with_variable o w (λ v.
      release self v >>= λ v'. returns (answers (refused none), store_body o (a_syncvar v') w))
  finish self o (some r) w = with_variable o w (λ v. update_end self (to_string r) v >>= λ v'.
      returns (answers (done r), store_body o (a_syncvar v') w))

  -- What follows `wait_init`.
  unfoldable pub update_body :
      ℕ → ℕ → Bytes → List Value → Waits × SyncVar → World → Outcome (Updates × World)
  unfolding finish
  update_body self o name rest (SyncVar.sleeps depth, v) w =
      returns (sleeps depth, store_body o (a_syncvar v) w)
  update_body self o name rest (SyncVar.ready, v) w = deref (get v) >>= λ b.
      let (value, w') = procedure name (from_string b ∷ rest) (store_body o (a_syncvar v) w) in
      finish self o value w'

  unfoldable pub update_syncvar : ℕ → List Value → World → Outcome (Updates × World)
  unfolding update_body
  update_syncvar self args w = update_checks args >>= λ c.
      if not (ok c)
      then returns (answers (refused c.error), w)
      else (shared_arg 0 c >>= λ o. arg 1 c >>= text_of >>= λ name. with_variable o w (λ v.
          acquire self v >>= wait_init self >>= λ x. update_body self o name (drop 2 args) x w))

  -- The command goes on when its thread was woken.
  unfoldable pub update_syncvar_resume :
      ℕ → (depth o : ℕ) → Bytes → List Value → World → Outcome (Updates × World)
  unfolding update_body
  update_syncvar_resume self depth o name rest w =
      with_variable o w (λ v. wait_resume self depth v >>= λ x. update_body self o name rest x w)
