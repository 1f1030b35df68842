-- ===== src/Db/Freeze.antt =====
-- Reads (slatedb/db.go) of a state whose WAL or memtable is frozen (slatedb/state/db_state.go).
use slatedb_go.Prelude.{ℕ, ◌≡◌, refl, false, none, List, [], ◌∷◌, ◌++◌, ◌==◌, Bool-cases, inl, inr}
use slatedb_go.Prelude.Bytes.{Bytes}
use slatedb_go.Prelude.Result.{ok}
use slatedb_go.Table.{
  Skiplist, KvTable, get, read_value, new_table, new_wal, new_memtable, new_immutable_wal,
  new_immutable_memtable,
}
use slatedb_go.Table.Entries.{IsOrderedMap, lookup}
use slatedb_go.State.{Deques, IsDeque, DbState, freeze_wal, freeze_memtable}
use slatedb_go.Db.{
  ReadLevel, committed, uncommitted, first_of, search, wal_tables, memory_tables, tables_at,
  find_in_memory,
}

-- What stands behind the same tables may be searched instead of one another.
pub search-behind :
    {M : Type 0} (sk : Skiplist M) (xs ys zs : List (KvTable M)) (k : Bytes)
    → search sk ys k ≡ search sk zs k
    → search sk (xs ++ ys) k ≡ search sk (xs ++ zs) k
unfolding search
search-behind sk [] ys zs k e = e
search-behind sk (x ∷ xs) ys zs k e = rw (search-behind sk xs ys zs k e) refl

module _ {M : Type 0} (d : Deques) (sk : Skiplist M) (q : IsDeque d) (o : IsOrderedMap sk) where
  pub get-new_table : (k : Bytes) → get sk (new_table sk) k ≡ ok none
  unfolding get new_table read_value lookup
  get-new_table k = rw (o.get-front sk.new k, o.front-new) refl

  -- An empty table in front changes no search.
  pub search-new_table :
      (l : List (KvTable M)) (k : Bytes) → search sk (new_table sk ∷ l) k ≡ search sk l k
  unfolding search first_of
  search-new_table l k = rw (get-new_table k) refl

  frozen_wal :
      (s : DbState d M) (level : ReadLevel) (k : Bytes)
      → (s.wal.table.size == 0) ≡ false
      → find_in_memory d sk (freeze_wal d sk s).0 level k ≡ find_in_memory d sk s level k
  unfolding freeze_wal find_in_memory tables_at wal_tables memory_tables new_wal new_immutable_wal
  frozen_wal s committed k e = rw e refl
  frozen_wal s uncommitted k e = rw e (
      rw (q.items-push_front (new_immutable_wal sk s.wal s.core.next_wal_sst_id) s.imm_wals)
        (search-new_table _ k))

  -- Neither level of reads sees that the WAL was frozen.
  pub find-freeze_wal :
      (s : DbState d M) (level : ReadLevel) (k : Bytes)
      → find_in_memory d sk (freeze_wal d sk s).0 level k ≡ find_in_memory d sk s level k
  unfolding freeze_wal
  find-freeze_wal s level k = elim (Bool-cases (s.wal.table.size == 0)) [
    | inl e ↦ rw e refl
    | inr e ↦ frozen_wal s level k e
  ]

  frozen_tables :
      (s : DbState d M) (n : ℕ) (k : Bytes)
      → search sk (memory_tables d sk (freeze_memtable d sk s n)) k
        ≡ search sk (memory_tables d sk s) k
  unfolding freeze_memtable memory_tables new_memtable new_immutable_memtable
  frozen_tables s n k =
      rw (q.items-push_front (new_immutable_memtable sk s.memtable n) s.imm_memtables)
        (search-new_table _ k)

  -- Nor that the memtable was.
  pub find-freeze_memtable :
      (s : DbState d M) (n : ℕ) (level : ReadLevel) (k : Bytes)
      → find_in_memory d sk (freeze_memtable d sk s n) level k ≡ find_in_memory d sk s level k
  unfolding freeze_memtable find_in_memory tables_at wal_tables memory_tables new_memtable
      new_immutable_memtable
  find-freeze_memtable s n committed k = frozen_tables s n k
  find-freeze_memtable s n uncommitted k =
      search-behind sk (wal_tables d sk s) _ _ k (frozen_tables s n k)
