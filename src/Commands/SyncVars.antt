-- ===== src/Commands/SyncVars.antt =====
-- shared.cc: `writeSyncVar`, `readSyncVar` and `statSyncVar`.
use psingthreadlib.Prelude.{ℕ, List, ◌==◌, if◌then◌else◌}
use psingthreadlib.Prelude.Int.{pos}
use psingthreadlib.Prelude.Outcome.{returns, faults, ◌>>=◌}
use psingthreadlib.Value.{Value, nothing, int, syncvar}
use psingthreadlib.Shared.SyncVar as SyncVar
use psingthreadlib.Shared.SyncVar.{SyncVar, Reads, write, read, read_resume, check}
use psingthreadlib.Shared.Registry.{World, a_syncvar, store_body}
use psingthreadlib.Commands.Reply.{
  message, Reply, fails, gives, sleeps, Answer, Codec, with_one, with_two, with_object, require,
  is_kind,
}

abbrev with_syncvar : ℕ → World → (SyncVar → Answer) → Answer
with_syncvar o w k = elim ((w.objects o).body) [ a_syncvar v ↦ k v | _ ↦ faults ]

module _ (codec : Codec) where
  open codec use {to_string, from_string}

  unfoldable pub write_syncvar : ℕ → List Value → World → Answer
  write_syncvar self args w = with_two "writeSyncVar" args w (λ a b.
      require (is_kind syncvar a) (message "writeSyncVar: argument is not a syncvar") w (
        with_object a (message "writeSyncVar: syncvar has not been initialized") w (λ o.
          with_syncvar o w (λ v. write self (to_string b) v >>= λ (written, v').
          let w' = store_body o (a_syncvar v') w in
          if written == 0
          then returns (fails (message "writeSyncVar: variable already has a value"), w')
          else returns (gives nothing, w')))))

  -- What a `read` that has returned or sleeps is for the command.
  abbrev reply_of : Reads → Reply
  reply_of (SyncVar.got item) = gives (from_string item)
  reply_of (SyncVar.sleeps depth) = sleeps depth

  unfoldable pub read_syncvar : ℕ → List Value → World → Answer
  read_syncvar self args w = with_one "readSyncVar" args w (λ a.
      require (is_kind syncvar a) (message "readSyncVar: argument is not a syncvar") w (
        with_object a (message "readSyncVar: syncvar has not been initialized") w (λ o.
          with_syncvar o w
            (λ v. read self v >>= λ (r, v'). returns (reply_of r, store_body o (a_syncvar v') w)))))

  -- The command goes on when its thread was woken.
  unfoldable pub read_syncvar_resume : ℕ → (depth o : ℕ) → World → Answer
  read_syncvar_resume self depth o w = with_syncvar o w (λ v.
      read_resume self depth v >>= λ (r, v'). returns (reply_of r, store_body o (a_syncvar v') w))

unfoldable pub stat_syncvar : ℕ → List Value → World → Answer
stat_syncvar self args w = with_one "statSyncVar" args w (λ a.
    require (is_kind syncvar a) (message "statSyncVar: argument is not a syncvar") w (
      with_object a (message "statSyncVar: syncvar has not been initialized") w (λ o.
        with_syncvar o w (λ v. check self v >>= λ (init, v').
        returns (gives (int (pos init)), store_body o (a_syncvar v') w)))))
