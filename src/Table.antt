-- ===== src/Table.antt =====
-- slatedb/table: the in-memory tables (kvtable.go), the memtables (memtable.go) and the WALs
-- (wal.go). Package skiplist is not part of the repository: it is the parameter `Skiplist`, and
-- `IsOrderedMap` says what its documentation says. Locks are left out: each method is one step.
pub mod Entries
pub mod Put
pub mod Clone
pub mod Empty
pub mod Listed
mod Samples
use slatedb_go.Prelude.{
  ℕ, ◌+◌, ◌-◌, ◌%◌, ◌^◌, ◌≡◌, Bool, true, false, Option, none, some, List, [], ◌∷◌, ◌++◌, All,
  length, if◌then◌else◌,
}
use slatedb_go.Prelude.Bytes.{Bytes}
use slatedb_go.Prelude.Result.{Result, ok, panic, ◌>>=◌}
use slatedb_go.Types.{Value, RowEntry, value_from_bytes, to_bytes}

-- A key and the bytes of its value.
abbrev pub Element : Type 0
Element = Bytes × Bytes

-- `front` and `find` give the elements that an iteration with `Next` meets.
pub record Skiplist (M : Type 0) : Type 0 where
  pub new : M
  pub get : M → Bytes → Option Bytes
  pub set : M → Bytes → Bytes → M
  pub front : M → List Element
  pub find : M → Bytes → List Element

-- KVTable; the size is an int64 and the channel is closed or not.
pub record KvTable (M : Type 0) : Type 0 where
  pub skl : M
  pub size : ℕ
  pub is_durable : Bool

pub record Memtable (M : Type 0) : Type 0 where
  pub table : KvTable M
  pub last_wal_id : Option ℕ

pub record ImmutableMemtable (M : Type 0) : Type 0 where
  pub table : KvTable M
  pub last_wal_id : ℕ

pub record Wal (M : Type 0) : Type 0 where
  pub table : KvTable M

pub record ImmutableWal (M : Type 0) : Type 0 where
  pub id : ℕ
  pub table : KvTable M

-- A stored value, read.
unfoldable pub read_value : Option Bytes → Result ⊥ (Option Value)
read_value none = ok none
read_value (some b) = do v ← value_from_bytes b; ok (some v)

unfoldable pub value_size : Bytes → Option Value → ℕ
value_size key none = 0
value_size key (some v) = length key + length (to_bytes v)

-- `size.Add(new - old)` on an int64.
unfoldable pub add_size : ℕ → ℕ → ℕ → ℕ
add_size size new old = (size + new + (2 ^ 64 - old % 2 ^ 64)) % 2 ^ 64

-- NextEntry of an iterator that stands in front of the elements.
unfoldable pub next_entry : List Element → Result ⊥ (Option RowEntry × List Element)
next_entry [] = ok (none, [])
next_entry ((key, b) ∷ rest) = do
  v ← value_from_bytes b
  ok (some (record { key = key; value = v }), rest)

module _ {M : Type 0} (sk : Skiplist M) where
  unfoldable pub new_table : KvTable M
  new_table = record { skl = sk.new; size = 0; is_durable = false }

  unfoldable pub get : KvTable M → Bytes → Result ⊥ (Option Value)
  get t key = read_value (sk.get t.skl key)

  unfoldable pub existing_size : KvTable M → Bytes → Result ⊥ ℕ
  existing_size t key = do v ← get t key; ok (value_size key v)

  -- The second part is the size of the entry.
  unfoldable pub put : KvTable M → RowEntry → Result ⊥ (KvTable M × ℕ)
  put t e = do
    old ← existing_size t e.key
    let b = to_bytes e.value
    let new = length e.key + length b
    ok (record t { skl = sk.set t.skl e.key b; size = add_size t.size new old }, new)

  unfoldable pub iter : KvTable M → List Element
  iter t = sk.front t.skl

  pub range_from : KvTable M → Bytes → List Element
  range_from t start = sk.find t.skl start

  -- A closed channel cannot be closed again.
  pub notify_wal_flushed : KvTable M → Result ⊥ (KvTable M)
  notify_wal_flushed t = if t.is_durable then panic else ok (record t { is_durable = true })

  set_all : M → List Element → M
  set_all m [] = m
  set_all m ((key, b) ∷ l) = set_all (sk.set m key b) l

  -- The size of a clone is 0.
  pub clone : KvTable M → KvTable M
  clone t = record { skl = set_all sk.new (sk.front t.skl); size = 0; is_durable = false }

  unfoldable pub new_memtable : Memtable M
  new_memtable = record { table = new_table; last_wal_id = none }

  unfoldable pub memtable_put : Memtable M → RowEntry → Result ⊥ (Memtable M × ℕ)
  memtable_put m e = do (t, n) ← put m.table e; ok (record m { table = t }, n)

  unfoldable pub set_last_wal_id : Memtable M → ℕ → Memtable M
  set_last_wal_id m id = record m { last_wal_id = some id }

  unfoldable pub clone_memtable : Memtable M → Memtable M
  clone_memtable m = record m { table = clone m.table }

  unfoldable pub new_immutable_memtable : Memtable M → ℕ → ImmutableMemtable M
  new_immutable_memtable m id = record { table = m.table; last_wal_id = id }

  unfoldable pub clone_immutable_memtable : ImmutableMemtable M → ImmutableMemtable M
  clone_immutable_memtable m = record m { table = clone m.table }

  unfoldable pub new_wal : Wal M
  new_wal = record { table = new_table }

  unfoldable pub wal_put : Wal M → RowEntry → Result ⊥ (Wal M × ℕ)
  wal_put w e = do (t, n) ← put w.table e; ok (record { table = t }, n)

  unfoldable pub clone_wal : Wal M → Wal M
  clone_wal w = record { table = clone w.table }

  unfoldable pub new_immutable_wal : Wal M → ℕ → ImmutableWal M
  new_immutable_wal w id = record { id = id; table = w.table }

  unfoldable pub clone_immutable_wal : ImmutableWal M → ImmutableWal M
  clone_immutable_wal w = record w { table = clone w.table }
