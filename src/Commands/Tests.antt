-- ===== src/Commands/Tests.antt =====
-- Runs of commands on a process with a table and a region.
use psingthreadlib.Prelude.{◌≡◌, refl, false, none, some, [], ◌∷◌, if◌then◌else◌, Bytes, ◌==◌}
use psingthreadlib.Prelude.Int.{pos}
use psingthreadlib.Prelude.Outcome.{returns}
use psingthreadlib.Value.{Value, nothing, string, shared, region, atomic_table, shared_table}
use psingthreadlib.Sync.Lock.{Lock, new_lock, lock}
use psingthreadlib.Shared.Guard.{new_guard, set_region, lock_region}
use psingthreadlib.Shared.TxTable.{TxTable, new_table}
use psingthreadlib.Shared.Registry.{World, a_table, a_region, store_body}
use psingthreadlib.Commands.Reply.{Codec, gives, fails, message, wrong_num_args}
use psingthreadlib.Commands.Tables.{put_table, get_table, in_table}
use psingthreadlib.Commands.Regions.{lock_region_command}
use psingthreadlib.Commands.Laws.{put_table-get_table, region_guards_commands}
use psingthreadlib.Value.{trigger}
use psingthreadlib.Prelude.{true}
use psingthreadlib.Prelude.Outcome.{Outcome}
use psingthreadlib.Sched.Job.{new_job, count_trigger, ready, deps_done, satisfied}
use psingthreadlib.Sched.State.{Sched, new_sched}
use psingthreadlib.Sched.Trigger.{Interp, accept, activate, activate_class, trigger_result}
use psingthreadlib.Sched.Notify.{fire_from, notify_deps, notify_all, fire_all, trigger_arg}
use psingthreadlib.Sched.Worker.{Execution, run, run_begin, run_end, execute_class}
use psingthreadlib.Commands.Command.{check_argc_min, check_arg, check_init}
use psingthreadlib.Commands.Command.{Verdict, refused}
use psingthreadlib.Commands.Triggers.{update_trigger, update_core}
use psingthreadlib.Commands.Exclusion.{lock_region_excludes}

-- Strings stand for themselves behind one byte.
abbrev tagged : Codec
tagged = record {
  to_string = λ v. elim v [ string s ↦ 1 ∷ s | _ ↦ [] ];
  from_string = λ b. elim b [ [] ↦ nothing | c ∷ s ↦ string s ];
}

abbrev key : Bytes
key = 75 ∷ []

abbrev word : Value
word = string (87 ∷ [])

abbrev own_table : TxTable
own_table = new_table (set_region none new_guard)

abbrev region_table : TxTable
region_table = new_table (set_region (some 0) new_guard)

-- Object 0 is a region, 1 a table in it, and the others are atomic tables.
abbrev process : World
process = record {
  objects = λ o.
      if o == 0
      then record {
        refcount = pos 1;
        type = region;
        name = [];
        body = a_region (new_lock false) [];
      }
      else (if o == 1
          then record {
            refcount = pos 1;
            type = shared_table;
            name = key;
            body = a_table region_table;
          }
          else record {
            refcount = pos 1;
            type = atomic_table;
            name = key;
            body = a_table own_table;
          });
  allocated = 3;
  global_objects = [];
  global_objects_lock = new_lock false;
}

put_table-get_table_example :
    (w' : World) × (put_table tagged 1
        (shared atomic_table (some 2) ∷ string key ∷ word ∷ [])
        process
      ≡ returns (gives nothing, w'))
    × (get_table tagged 1 (shared atomic_table (some 2) ∷ string key ∷ []) w'
        ≡ returns (gives word, w'))
put_table-get_table_example =
    put_table-get_table tagged 1 atomic_table 2 key word process own_table refl refl refl refl

region_guards_commands_example :
    (put_table tagged 1 (shared shared_table (some 1) ∷ string key ∷ word ∷ []) process
      ≡ returns (fails (message "putTable: region not acquired"), process))
    × (get_table tagged 1 (shared shared_table (some 1) ∷ string key ∷ []) process
        ≡ returns (fails (message "getTable: region not acquired"), process))
    × (in_table tagged 1 (shared shared_table (some 1) ∷ string key ∷ []) process
        ≡ returns (fails (message "inTable: region not acquired"), process))
region_guards_commands_example =
    region_guards_commands tagged 1 shared_table 1 key word process region_table refl refl refl

abbrev held : Lock
held = record { mutex = some 1; owner = some 1; locked = 1; recursive = false }

abbrev locked_process : World
locked_process = store_body 0 (a_region held []) process

locks_it :
    lock_region_command 1 (shared region (some 0) ∷ []) process
    ≡ returns (gives nothing, locked_process)
unfolding lock_region_command wrong_num_args lock_region lock
locks_it = refl

lock_region_excludes_example :
    (put_table tagged 2 (shared shared_table (some 1) ∷ string key ∷ word ∷ []) locked_process
      ≡ returns (fails (message "putTable: region not acquired"), locked_process))
    × (get_table tagged 2 (shared shared_table (some 1) ∷ string key ∷ []) locked_process
        ≡ returns (fails (message "getTable: region not acquired"), locked_process))
    × (in_table tagged 2 (shared shared_table (some 1) ∷ string key ∷ []) locked_process
        ≡ returns (fails (message "inTable: region not acquired"), locked_process))
lock_region_excludes_example =
    lock_region_excludes tagged 1 2 0 1 key word (new_lock false) [] region_table process
      locked_process (λ e. cc) refl refl refl locks_it

-- An interpreter whose procedures fail and leave the state alone.
abbrev quiet : Interp
quiet = record {
  to_string = λ v. 7 ∷ [];
  from_string = λ b. nothing;
  execute_proc = λ name args s. (none, s);
  rounds = 0;
}

-- A pool whose jobs are all counters of one.
abbrev counters : Sched
counters = new_sched 9 (λ j. record (new_job (count_trigger 1)) { pool = some 9 }) 1 1

abbrev idle : Execution
idle = record {
  evaluate = λ code s. (nothing, s);
  call_kernel = λ j args s. ([], s);
  call_raw = λ j deps s. s;
}

abbrev value_of : Outcome (Verdict × Sched) → Verdict × Sched
value_of (returns r) = r
value_of _ = (refused none, counters)

abbrev updated : Verdict × Sched
updated = value_of (update_trigger quiet idle (shared trigger (some 0) ∷ []) counters)

updates : update_trigger quiet idle (shared trigger (some 0) ∷ []) counters ≡ returns updated
unfolding update_trigger update_core check_argc_min check_arg check_init accept activate
    activate_class ready deps_done satisfied run run_begin run_end execute_class trigger_result
    notify_deps notify_all fire_all fire_from trigger_arg
updates = refl

fires_once : (updated.1.jobs 0).done ≡ true
unfolding update_trigger update_core check_argc_min check_arg check_init accept activate
    activate_class ready deps_done satisfied run run_begin run_end execute_class trigger_result
    notify_deps notify_all fire_all fire_from trigger_arg
fires_once = refl
