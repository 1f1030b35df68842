-- ===== src/Db/Search.antt =====
-- The search through the tables in memory (slatedb/db.go) and the snapshot that it reads.
use slatedb_go.Prelude.{◌≡◌, refl, sym, ap, List, [], ◌∷◌, ◌++◌, map}
use slatedb_go.Prelude.Bytes.{Bytes}
use slatedb_go.Sst.{Ulids}
use slatedb_go.Table.{
  Skiplist, KvTable, ImmutableWal, ImmutableMemtable, clone, clone_wal, clone_memtable,
  clone_immutable_wal, clone_immutable_memtable,
}
use slatedb_go.Table.Entries.{IsOrderedMap}
use slatedb_go.Table.Clone.{get-clone}
use slatedb_go.State.{Deques, IsDeque, DbState, snapshot}
use slatedb_go.State.Copies.{items-copy_deque}
use slatedb_go.Db.{
  ReadLevel, committed, uncommitted, search, wal_tables, memory_tables, tables_at, find_in_memory,
}

pub map-append {ℓ κ} :
    {A : Type ℓ} {B : Type κ} (f : A → B) (xs ys : List A) → map f (xs ++ ys) ≡ map f xs ++ map f ys
map-append f [] ys = refl
map-append f (x ∷ xs) ys = ap (λ t. f x ∷ t) (map-append f xs ys)

module _ {M : Type 0} (d : Deques) (sk : Skiplist M) (q : IsDeque d) (o : IsOrderedMap sk) where
  search-map-clone :
      (l : List (KvTable M)) (k : Bytes) → search sk (map (clone sk) l) k ≡ search sk l k
  unfolding search
  search-map-clone [] k = refl
  search-map-clone (t ∷ l) k = rw (get-clone sk o t k, search-map-clone l k) refl

  imm_wal_clones :
      (l : List (ImmutableWal M))
      → map (λ w. w.table) (map (clone_immutable_wal sk) l)
        ≡ map (clone sk) (map (λ (w : ImmutableWal M). w.table) l)
  unfolding clone_immutable_wal
  imm_wal_clones [] = refl
  imm_wal_clones (w ∷ l) = ap (λ t. clone sk w.table ∷ t) (imm_wal_clones l)

  imm_memtable_clones :
      (l : List (ImmutableMemtable M))
      → map (λ m. m.table) (map (clone_immutable_memtable sk) l)
        ≡ map (clone sk) (map (λ (m : ImmutableMemtable M). m.table) l)
  unfolding clone_immutable_memtable
  imm_memtable_clones [] = refl
  imm_memtable_clones (m ∷ l) = ap (λ t. clone sk m.table ∷ t) (imm_memtable_clones l)

  wal_tables-snapshot :
      (u : Ulids) (s : DbState d M)
      → wal_tables d sk (snapshot d sk u s) ≡ map (clone sk) (wal_tables d sk s)
  unfolding wal_tables snapshot clone_wal
  wal_tables-snapshot u s =
      rw (items-copy_deque d q (clone_immutable_wal sk) s.imm_wals)
        (rw (imm_wal_clones (d.items s.imm_wals)) refl)

  memory_tables-snapshot :
      (u : Ulids) (s : DbState d M)
      → memory_tables d sk (snapshot d sk u s) ≡ map (clone sk) (memory_tables d sk s)
  unfolding memory_tables snapshot clone_memtable
  memory_tables-snapshot u s =
      rw (items-copy_deque d q (clone_immutable_memtable sk) s.imm_memtables)
        (rw (imm_memtable_clones (d.items s.imm_memtables)) refl)

  tables_at-snapshot :
      (u : Ulids) (s : DbState d M) (level : ReadLevel)
      → tables_at d sk (snapshot d sk u s) level ≡ map (clone sk) (tables_at d sk s level)
  unfolding tables_at
  tables_at-snapshot u s committed = memory_tables-snapshot u s
  tables_at-snapshot u s uncommitted =
      rw (wal_tables-snapshot u s, memory_tables-snapshot u s)
        (sym (map-append (clone sk) (wal_tables d sk s) (memory_tables d sk s)))

  -- A snapshot answers as the state does.
  pub find_in_memory-snapshot :
      (u : Ulids) (s : DbState d M) (level : ReadLevel) (k : Bytes)
      → find_in_memory d sk (snapshot d sk u s) level k ≡ find_in_memory d sk s level k
  unfolding find_in_memory
  find_in_memory-snapshot u s level k =
      rw (tables_at-snapshot u s level) (search-map-clone (tables_at d sk s level) k)
