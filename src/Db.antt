-- ===== src/Db.antt =====
-- slatedb/db.go: reads and writes of an open database, and from slatedb/flush.go the way of a WAL to
-- the memtable. The tickers and the goroutines are left out. The search of the tables below the
-- memtables, the writer of a table, and what the others do while a writer waits are parameters.
pub mod Search
pub mod Reads
pub mod Freeze
pub mod Flush
pub mod FlushAll
pub mod Durable
pub mod Flusher
pub mod Replay
pub mod Open
mod Samples
use slatedb_go.Prelude.{
  ℕ, zero, suc, ◌+◌, ◌%◌, ◌^◌, ◌≡◌, Bool, true, false, Option, none, some, List, [], ◌∷◌, ◌++◌, map,
  length, ltb, ◌==◌, if◌then◌else◌, not,
}
use slatedb_go.Prelude.Bytes.{Bytes}
use slatedb_go.Prelude.Result.{Result, ok, err, panic, ◌>>=◌}
use slatedb_go.Types.{Value, RowEntry, kind_key_value, kind_tomb_stone, get_value}
use slatedb_go.Sst.{Ulids, TableId, Handle, new_id_wal}
use slatedb_go.Snapshot.{Snapshot}
use slatedb_go.Table
use slatedb_go.Table.{
  Skiplist, KvTable, Memtable, Wal, ImmutableWal, Element, next_entry, memtable_put,
  set_last_wal_id,
}
use slatedb_go.State.{
  Deques, DbState, put_to_wal, snapshot, freeze_wal, freeze_memtable, pop_imm_wal, oldest_imm_wal,
}

pub data ReadLevel : Type 0 where
  committed uncommitted : ReadLevel

pub data DbError : Type 0 where
  empty_key key_not_found store_failed cancelled : DbError

-- A tombstone is a key that is not found.
pub check_value : Value → Result DbError Bytes
check_value v = elim (get_value v) [ none ↦ err key_not_found | some b ↦ ok b ]

pub lift {ℓ} : {A : Type ℓ} → Result ⊥ A → Result DbError A
lift (ok a) = ok a
lift (err e) = elim e [ ]
lift panic = panic

-- `ErrKeyNotFound` at the end.
pub check_found : Option Value → Result DbError Bytes
check_found none = err key_not_found
check_found (some x) = check_value x

-- What memory does not know is looked up below.
pub read_below :
    (Snapshot → Bytes → Result DbError (Option Value))
    → Snapshot
    → Bytes
    → Option Value
    → Result DbError Bytes
read_below below core key (some x) = check_value x
read_below below core key none = do v ← below core key; check_found v

-- A table that has the key decides; else those behind it.
pub first_of : Option Value → Result ⊥ (Option Value) → Result ⊥ (Option Value)
first_of none rest = rest
first_of (some x) rest = ok (some x)

pub search : {M : Type 0} → Skiplist M → List (KvTable M) → Bytes → Result ⊥ (Option Value)
search sk [] key = ok none
search sk (t ∷ l) key = do v ← Table.get sk t key; first_of v (search sk l key)

module _ {M : Type 0} (sk : Skiplist M) where
  -- flushImmWALToMemtable, on the elements that are left.
  pub put_elements : Memtable M → List Element → Result ⊥ (Memtable M)
  put_elements m [] = ok m
  put_elements m ((key, b) ∷ l) = do
    (e, rest) ← next_entry ((key, b) ∷ l)
    elim e [ none ↦ ok m | some x ↦ do (n, size) ← memtable_put sk m x; put_elements n l ]

  pub flush_imm_wal_to_memtable : ImmutableWal M → Memtable M → Result ⊥ (Memtable M)
  flush_imm_wal_to_memtable w m = do
    n ← put_elements m (Table.iter sk w.table)
    ok (set_last_wal_id sk n w.id)

-- A comparison of two int64s.
abbrev pub ltb_int64 : ℕ → ℕ → Bool
ltb_int64 a b = ltb ((a + 2 ^ 63) % 2 ^ 64) ((b + 2 ^ 63) % 2 ^ 64)

module _ {M : Type 0} (d : Deques) (sk : Skiplist M) where
  pub wal_tables : DbState d M → List (KvTable M)
  wal_tables s = s.wal.table ∷ map (λ w. w.table) (d.items s.imm_wals)

  pub memory_tables : DbState d M → List (KvTable M)
  memory_tables s = s.memtable.table ∷ map (λ m. m.table) (d.items s.imm_memtables)

  -- GetWithOptions up to the tables in the object store: the tables from the newest to the oldest.
  pub tables_at : DbState d M → ReadLevel → List (KvTable M)
  tables_at s committed = memory_tables s
  tables_at s uncommitted = wal_tables s ++ memory_tables s

  pub find_in_memory : DbState d M → ReadLevel → Bytes → Result ⊥ (Option Value)
  find_in_memory s level key = search sk (tables_at s level) key

  -- GetWithOptions; `below` looks into level 0 and the sorted runs.
  pub get_with_options :
      Ulids
      → (Snapshot → Bytes → Result DbError (Option Value))
      → DbState d M
      → ReadLevel
      → Bytes
      → Result DbError Bytes
  get_with_options u below s level key = do
    let snap = snapshot d sk u s
    v ← lift (find_in_memory snap level key)
    read_below below snap.core key v

  -- PutWithOptions and DeleteWithOptions up to the wait.
  pub write_value : DbState d M → Bytes → Bytes → Result DbError (DbState d M)
  write_value s key value =
      if length key == 0
      then err empty_key
      else lift (
          put_to_wal d sk s
            (record { key = key; value = record { value = value; kind = kind_key_value } }))

  pub write_tombstone : DbState d M → Bytes → Result DbError (DbState d M)
  write_tombstone s key =
      if length key == 0
      then err empty_key
      else lift (
          put_to_wal d sk s
            (record { key = key; value = record { value = []; kind = kind_tomb_stone } }))

  -- AwaitWALFlush, if the options say AwaitDurable. `wait` is what the others do until it ends, with the
  -- error of the context, if it ends with that.
  pub await_wal_flush :
      Bool
      → (DbState d M → Result DbError (DbState d M × Option DbError))
      → DbState d M
      → Result DbError (DbState d M × Option DbError)
  await_wal_flush false wait s = ok (s, none)
  await_wal_flush true wait s = wait s

  -- PutWithOptions
  pub put :
      Bool
      → (DbState d M → Result DbError (DbState d M × Option DbError))
      → DbState d M
      → Bytes
      → Bytes
      → Result DbError (DbState d M × Option DbError)
  put await wait s key value = do s ← write_value s key value; await_wal_flush await wait s

  -- DeleteWithOptions
  pub delete :
      Bool
      → (DbState d M → Result DbError (DbState d M × Option DbError))
      → DbState d M
      → Bytes
      → Result DbError (DbState d M × Option DbError)
  delete await wait s key = do s ← write_tombstone s key; await_wal_flush await wait s

  -- The second part tells whether the memtable was frozen, and a message is then sent to the flusher.
  pub maybe_freeze_memtable : ℕ → DbState d M → ℕ → DbState d M × Bool
  maybe_freeze_memtable limit s wal_id =
      if ltb_int64 s.memtable.table.size limit
      then (s, false)
      else (freeze_memtable d sk s wal_id, true)

  -- The rest of a round of flushImmWALs once the WAL is in the object store.
  pub finish_flush : ℕ → DbState d M → ImmutableWal M → Result ⊥ (DbState d M)
  finish_flush limit s w = do
    s ← pop_imm_wal d sk s
    m ← flush_imm_wal_to_memtable sk w s.memtable
    let s = (maybe_freeze_memtable limit (record s { memtable = m }) w.id).0
    t ← Table.notify_wal_flushed sk w.table
    ok s

  -- flushImmWALs, in at most `fuel` rounds. `write` is flushImmTable; its error ends the loop.
  pub flush_imm_wals :
      (TableId → List Element → Result DbError Handle)
      → ℕ
      → ℕ
      → DbState d M
      → Result ⊥ (DbState d M × Option DbError)
  flush_imm_wals write limit zero s = ok (s, none)
  flush_imm_wals write limit (suc fuel) s = do
    oldest ← oldest_imm_wal d sk s
    elim oldest [
      | none ↦ ok (s, none)
      | some w ↦ elim (write (new_id_wal w.id) (Table.iter sk w.table)) [
        | err e ↦ ok (s, some e)
        | panic ↦ panic
        | ok h ↦ do s ← finish_flush limit s w; flush_imm_wals write limit fuel s
      ]
    ]

  -- FlushWAL
  pub flush_wal :
      (TableId → List Element → Result DbError Handle)
      → ℕ
      → ℕ
      → DbState d M
      → Result ⊥ (DbState d M × Option DbError)
  flush_wal write limit fuel s = flush_imm_wals write limit fuel (freeze_wal d sk s).0

  -- A wait during which the WALs are flushed once: if a table cannot be written, the writer goes on
  -- waiting until its context ends.
  pub wait_flush :
      (TableId → List Element → Result DbError Handle)
      → ℕ
      → ℕ
      → DbState d M
      → Result DbError (DbState d M × Option DbError)
  wait_flush write limit fuel s = do
    (t, e) ← lift (flush_wal write limit fuel s)
    ok (t, elim e [ none ↦ none | some x ↦ some cancelled ])
