-- ===== src/Db/Samples.antt =====
-- The theorems on reads, writes and flushes at a new database, with maps and deques made of lists.
use slatedb_go.Prelude.{◌≡◌, ◌≢◌, refl, tt, arith, true, false, Option, none, List, [], ◌∷◌, All}
use slatedb_go.Prelude.Bytes.{Bytes, lt_bytes, compare_bytes}
use slatedb_go.Prelude.Result.{Result, ok, err, panic}
use slatedb_go.Types.{Value, to_bytes, is_tombstone, tombstone}
use slatedb_go.Sst.{TableId, Handle, plain_ulids, table}
use slatedb_go.Snapshot.{Snapshot, new_core}
use slatedb_go.Table.{Element, new_table, wal_put}
use slatedb_go.Table.Entries.{total, lookup}
use slatedb_go.Table.Put.{IsTable, new_table-IsTable}
use slatedb_go.Table.Listed.{Listed, listed, listed-IsOrderedMap}
use slatedb_go.Table
use slatedb_go.State.{put_to_wal, DbState, freeze_memtable}
use slatedb_go.State.Listed.{listed_deques, listed_deques-IsDeque}
use slatedb_go.Db.{
  committed, uncommitted, DbError, key_not_found, put, delete, find_in_memory, flush_wal,
  wait_flush, write_value, write_tombstone, lift,
}
use slatedb_go.Db.Reads.{Seen, get-put, get-delete}
use slatedb_go.Db.Freeze.{find-freeze_memtable}
use slatedb_go.Db.Flush.{IsReady}
use slatedb_go.Db.FlushAll.{flush_wal_lem}

abbrev State : Type 0
State = DbState listed_deques Listed

abbrev start : State
start = record {
  wal = record { table = new_table listed };
  memtable = record { table = new_table listed; last_wal_id = none };
  imm_wals = [];
  imm_memtables = [];
  core = new_core;
}

-- Nothing is stored below the memtables.
abbrev empty_below : Snapshot → Bytes → Result DbError (Option Value)
empty_below core key = ok none

abbrev write : TableId → List Element → Result DbError Handle
write id l = ok (table (1 ∷ []) (5 ∷ []))

write-safe : (id : TableId) (l : List Element) → write id l ≢ panic
write-safe id l e = cc

-- The wait for a flush of the WALs into tables.
abbrev wait : State → Result DbError (State × Option DbError)
wait t = wait_flush listed_deques listed write 100 3 t

get-put_example :
    (t : State) × (put listed_deques listed false wait start (1 ∷ []) (7 ∷ []) ≡ ok (t, none))
    × (put listed_deques listed true wait start (1 ∷ []) (7 ∷ []) ≡ wait t)
    × IsTable listed t.wal.table
    × Seen listed_deques listed listed_deques-IsDeque listed-IsOrderedMap plain_ulids empty_below
        start t
        (1 ∷ [])
        (ok (7 ∷ []))
get-put_example =
    get-put listed_deques listed listed_deques-IsDeque listed-IsOrderedMap plain_ulids empty_below
      wait start (1 ∷ []) (7 ∷ []) (λ e. cc) (new_table-IsTable listed listed-IsOrderedMap)

get-delete_example :
    (t : State) × (delete listed_deques listed false wait get-put_example.0 (1 ∷ []) ≡ ok (t, none))
    × (delete listed_deques listed true wait get-put_example.0 (1 ∷ []) ≡ wait t)
    × IsTable listed t.wal.table
    × Seen listed_deques listed listed_deques-IsDeque listed-IsOrderedMap plain_ulids empty_below
        get-put_example.0 t
        (1 ∷ [])
        (err key_not_found)
get-delete_example =
    get-delete listed_deques listed listed_deques-IsDeque listed-IsOrderedMap plain_ulids
      empty_below wait get-put_example.0 (1 ∷ []) (λ e. cc) get-put_example.3

find-freeze_memtable_example :
    find_in_memory listed_deques listed
      (freeze_memtable listed_deques listed start 4)
      uncommitted
      (1 ∷ [])
    ≡ find_in_memory listed_deques listed start uncommitted (1 ∷ [])
find-freeze_memtable_example =
    find-freeze_memtable listed_deques listed listed_deques-IsDeque listed-IsOrderedMap start 4
      uncommitted (1 ∷ [])

keys_grow : lt_bytes (1 ∷ []) (2 ∷ []) ≡ true
unfolding compare_bytes
keys_grow = refl

-- A WAL with one element, and one that was frozen before.
abbrev written : State
written = record start {
  wal = record {
    table = record { skl = ((1 ∷ [], 0 ∷ 7 ∷ []) ∷ [], (tt, tt)); size = 3; is_durable = false };
  };
  imm_wals =
      record {
        id = 1;
        table = record {
          skl = ((1 ∷ [], 1 ∷ []) ∷ (2 ∷ [], 0 ∷ []) ∷ [], ((keys_grow, tt), (tt, tt)));
          size = 4;
          is_durable = false;
        };
      }
      ∷ [];
}

wal-IsTable : IsTable listed written.wal.table
unfolding total to_bytes is_tombstone
wal-IsTable = record { stored = ((record { value = 7 ∷ []; kind = 0 }, refl), tt); sized = refl }

imm_wals-IsReady : All (IsReady listed) written.imm_wals
unfolding to_bytes is_tombstone
imm_wals-IsReady = (
  record {
    stored = ((tombstone, refl), ((record { value = []; kind = 0 }, refl), tt));
    waiting = refl;
  },
  tt,
)

flush_wal_lem_example :
    (t : State) × (e : Option DbError) × (flush_wal listed_deques listed write 100 3 written
      ≡ ok (t, e))
    × ((k : Bytes)
        → find_in_memory listed_deques listed t uncommitted k
          ≡ find_in_memory listed_deques listed written uncommitted k)
    × (e ≡ none
        → (k : Bytes)
        → find_in_memory listed_deques listed t committed k
          ≡ find_in_memory listed_deques listed written uncommitted k)
unfolding total
flush_wal_lem_example =
    flush_wal_lem listed_deques listed listed_deques-IsDeque listed-IsOrderedMap write 100 3 written
      write-safe (omega arith) imm_wals-IsReady (new_table-IsTable listed listed-IsOrderedMap)
      wal-IsTable refl (omega arith)

abbrev value_stored :
    (t : State) × (write_value listed_deques listed start (1 ∷ []) (7 ∷ []) ≡ ok t)
unfolding write_value lift put_to_wal wal_put Table.put Table.existing_size Table.value_size
    Table.add_size Table.get Table.read_value lookup new_table to_bytes is_tombstone
value_stored = (_, refl)

abbrev tombstone_stored : (t : State) × (write_tombstone listed_deques listed start (1 ∷ []) ≡ ok t)
unfolding write_tombstone lift put_to_wal wal_put Table.put Table.existing_size Table.value_size
    Table.add_size Table.get Table.read_value lookup new_table to_bytes is_tombstone
tombstone_stored = (_, refl)
