-- ===== src/Shared/Tests.antt =====
-- Runs of `SingularChannel` and `SingularSyncVar` on concrete states.
use psingthreadlib.Prelude.{ℕ, ◌<◌, ◌≡◌, refl, true, false, List, [], ◌∷◌, ◌++◌, arith, Bytes}
use psingthreadlib.Prelude.Outcome.{returns}
use psingthreadlib.Sync.Lock.{new_cond, new_lock, lock, unlock, wait_begin, signal, broadcast}
use psingthreadlib.Shared.Channel.{Channel, new_channel, send, receive, receive_loop, got, sleeps}
use psingthreadlib.Shared.Channel.Laws.{
  start, later, sends, receives, falls_asleep, fifo, no_lost_wakeup,
}
use psingthreadlib.Shared.SyncVar as SyncVar
use psingthreadlib.Shared.SyncVar.{SyncVar, new_syncvar, write, read}
use psingthreadlib.Shared.SyncVar.Laws as Laws
use psingthreadlib.Shared.SyncVar.Laws.{writes, write_once, read_latest}
use psingthreadlib.Prelude.Int.{pos, negsuc}
use psingthreadlib.Prelude.{none, some, is_empty}
use psingthreadlib.Value.{channel, syncvar}
use psingthreadlib.Shared.Guard.{RegionLocks, new_guard, set_region}
use psingthreadlib.Shared.TxTable as TxTable
use psingthreadlib.Shared.TxTable.Laws.{put_all, puts-get, region_guards_table}
use psingthreadlib.Shared.TxList as TxList
use psingthreadlib.Shared.TxList.Laws.{Puts, list_put-get, region_guards_list}
use psingthreadlib.Shared.Registry.{
  World, a_channel, a_syncvar, make_global, find_global, make_shared_object, look_or_make,
  make_object, find_name,
}
use psingthreadlib.Shared.Registry.Laws.{make_again}

abbrev item : Bytes
item = 65 ∷ []

abbrev other_item : Bytes
other_item = 66 ∷ []

abbrev holding : List Bytes → Channel
holding items = record { q = items; mutex = new_lock false; cond = new_cond }

send_first : send 1 item new_channel ≡ returns (holding (item ∷ []))
unfolding send lock unlock signal
send_first = refl

send_second : send 2 other_item (holding (item ∷ [])) ≡ returns (holding (item ∷ other_item ∷ []))
unfolding send lock unlock signal
send_second = refl

receive_first :
    receive 3 (holding (item ∷ other_item ∷ [])) ≡ returns (got item, holding (other_item ∷ []))
unfolding receive receive_loop lock unlock signal
receive_first = refl

fifo_example : item ∷ other_item ∷ [] ≡ (item ∷ []) ++ other_item ∷ []
fifo_example =
    fifo {sent = item ∷ other_item ∷ []} {received = item ∷ []} {s = holding (other_item ∷ [])} (
      later (later (later start (sends 1 item send_first)) (sends 2 other_item send_second))
        (receives 3 item receive_first))

-- Two receivers sleep on an empty channel.
abbrev waiting_for : List Bytes → (waiting asleep : ℕ) → Channel
waiting_for items n k = record {
  q = items;
  mutex = new_lock false;
  cond = record { waiting = n; asleep = k };
}

sleep_first : receive 1 new_channel ≡ returns (sleeps 1, waiting_for [] 1 1)
unfolding receive receive_loop lock wait_begin
sleep_first = refl

sleep_second : receive 2 (waiting_for [] 1 1) ≡ returns (sleeps 1, waiting_for [] 2 2)
unfolding receive receive_loop lock wait_begin
sleep_second = refl

send_wakes : send 3 item (waiting_for [] 2 2) ≡ returns (waiting_for (item ∷ []) 2 1)
unfolding send lock unlock signal
send_wakes = refl

no_lost_wakeup_example : 1 < 2
no_lost_wakeup_example =
    no_lost_wakeup {sent = item ∷ []} {received = []} {s = waiting_for (item ∷ []) 2 1}
      (later (later (later start (falls_asleep 1 1 sleep_first)) (falls_asleep 2 1 sleep_second))
        (sends 3 item send_wakes))
      (λ e. cc) (omega arith)

abbrev written : SyncVar
written = record { value = item; init = true; mutex = new_lock false; cond = new_cond }

write_first : write 1 item new_syncvar ≡ returns (1, written)
unfolding write lock unlock broadcast
write_first = refl

write_once_example : write 2 other_item written ≡ returns (0, written)
write_once_example = write_once 2 other_item (Laws.later Laws.start (writes 1 item write_first))

read_latest_example :
    (read 2 written ≡ returns (SyncVar.got item, written)) × (written.cond.asleep ≡ 0)
read_latest_example = read_latest 2 (Laws.later Laws.start (writes 1 item write_first))

-- The locks of the regions, all free.
abbrev free_locks : RegionLocks
free_locks r = new_lock false

puts-get_example :
    (t : TxTable.TxTable) × (put_all free_locks
        ((1, item, other_item) ∷ (2, item, item) ∷ [])
        (TxTable.new_table (set_region none new_guard))
      ≡ returns t)
    × (TxTable.get 3 free_locks item t ≡ returns (pos 1, some item, t))
    × (TxTable.check 3 free_locks item t ≡ returns (pos 1, t))
puts-get_example = puts-get free_locks ((1, item, other_item) ∷ (2, item, item) ∷ []) 3 item

abbrev region_table : TxTable.TxTable
region_table = TxTable.new_table (set_region (some 0) new_guard)

region_guards_table_example :
    (TxTable.put 1 free_locks item item region_table ≡ returns (negsuc 0, region_table))
    × (TxTable.get 1 free_locks item region_table ≡ returns (negsuc 0, none, region_table))
    × (TxTable.check 1 free_locks item region_table ≡ returns (negsuc 0, region_table))
region_guards_table_example = region_guards_table 1 free_locks item item region_table refl

abbrev own_list : TxList.TxList
own_list = TxList.new_list (set_region none new_guard)

list_put-get_example :
    (l : List Bytes) × (TxList.put 1 free_locks 2 item own_list
      ≡ returns (pos 0, record own_list { entries = l }))
    × Puts 1 item [] l
    × (is_empty item ≡ false
        → TxList.get 1 free_locks 2 (record own_list { entries = l })
          ≡ returns (pos 1, some item, record own_list { entries = l }))
list_put-get_example = list_put-get 1 free_locks own_list refl 1 item

abbrev region_list : TxList.TxList
region_list = TxList.new_list (set_region (some 0) new_guard)

region_guards_list_example :
    (TxList.put 1 free_locks 2 item region_list ≡ returns (negsuc 0, region_list))
    × (TxList.get 1 free_locks 2 region_list ≡ returns (negsuc 0, none, region_list))
    × (TxList.size 1 free_locks region_list ≡ returns (negsuc 0, region_list))
region_guards_list_example = region_guards_list 1 free_locks 2 item region_list refl

-- A process without objects.
abbrev no_objects : World
no_objects = record {
  objects =
      λ o. record { refcount = pos 0; type = channel; name = []; body = a_channel new_channel };
  allocated = 0;
  global_objects = [];
  global_objects_lock = new_lock false;
}

abbrev one_channel : World
one_channel =
    make_object channel item (a_channel new_channel)
      (record no_objects { global_objects = (item, 0) ∷ [] })

make_first :
    make_global 1 channel item (a_channel new_channel) no_objects ≡ returns (some 0, one_channel)
unfolding make_global make_shared_object look_or_make make_object find_name lock unlock
make_first = refl

make_again_example :
    (find_global 2 item one_channel ≡ returns (some 0, one_channel))
    × (make_global 2 syncvar item (a_syncvar new_syncvar) one_channel ≡ returns (none, one_channel))
make_again_example =
    make_again 1 2 channel syncvar item (a_channel new_channel) (a_syncvar new_syncvar) no_objects
      refl make_first
