-- ===== src/State.antt =====
-- slatedb/state/db_state.go: the state of an open database. Package deque is not part of the
-- repository: it is the parameter `Deques`. Each method holds the lock and is one step.
pub mod Copies
pub mod Oldest
pub mod Level0
pub mod Listed
use slatedb_go.Prelude.{
  ℕ, ◌+◌, ◌%◌, ◌^◌, ◌≡◌, Bool, true, false, Option, none, some, List, [], ◌∷◌, ◌++◌, map, length,
  ltb, ◌==◌, if◌then◌else◌, not,
}
use slatedb_go.Prelude.Bytes.{Bytes, equal_bytes}
use slatedb_go.Prelude.Result.{Result, ok, panic, ◌>>=◌}
use slatedb_go.Types.{RowEntry}
use slatedb_go.Sst.{Ulid, Ulids, Handle, IdType, wal, compacted, other_type}
use slatedb_go.Snapshot.{Snapshot, take_snapshot}
use slatedb_go.Table.{
  Skiplist, KvTable, Memtable, ImmutableMemtable, Wal, ImmutableWal, new_wal, new_memtable, wal_put,
  memtable_put, new_immutable_wal, new_immutable_memtable, clone_wal, clone_memtable,
  clone_immutable_wal, clone_immutable_memtable,
}

-- `items` are `At(0)` to `At(Len() - 1)`, the front first; `back` and the two that remove an item panic on
-- an empty deque.
pub record Deques : Type 1 where
  pub Deque : Type 0 → Type 0
  pub new : {A : Type 0} → Deque A
  pub items : {A : Type 0} → Deque A → List A
  pub push_front : {A : Type 0} → A → Deque A → Deque A
  pub push_back : {A : Type 0} → Deque A → A → Deque A
  pub back : {A : Type 0} → Deque A → Result ⊥ A
  pub pop_back : {A : Type 0} → Deque A → Result ⊥ (A × Deque A)
  pub pop_front : {A : Type 0} → Deque A → Result ⊥ (A × Deque A)

-- The documented behaviour of a deque.
pub record IsDeque (d : Deques) : Type 1 where
  pub items-new : {A : Type 0} → d.items (d.new {A = A}) ≡ []
  pub items-push_front :
      {A : Type 0} (x : A) (q : d.Deque A) → d.items (d.push_front x q) ≡ x ∷ d.items q
  pub items-push_back :
      {A : Type 0} (x : A) (q : d.Deque A) → d.items (d.push_back q x) ≡ d.items q ++ x ∷ []
  pub back_last :
      {A : Type 0} (q : d.Deque A) (xs : List A) (x : A)
      → d.items q ≡ xs ++ x ∷ []
      → d.back q ≡ ok x
  pub pop_back_last :
      {A : Type 0} (q : d.Deque A) (xs : List A) (x : A)
      → d.items q ≡ xs ++ x ∷ []
      → (r : d.Deque A) × (d.pop_back q ≡ ok (x, r)) × (d.items r ≡ xs)
  pub pop_front_first :
      {A : Type 0} (q : d.Deque A) (x : A) (xs : List A)
      → d.items q ≡ x ∷ xs
      → (r : d.Deque A) × (d.pop_front q ≡ ok (x, r)) × (d.items r ≡ xs)

pub record DbState (d : Deques) (M : Type 0) : Type 0 where
  pub wal : Wal M
  pub memtable : Memtable M
  pub imm_wals : d.Deque (ImmutableWal M)
  pub imm_memtables : d.Deque (ImmutableMemtable M)
  pub core : Snapshot

-- common.CopyDeque, from the items on.
pub push_all : (d : Deques) {A : Type 0} → (A → A) → d.Deque A → List A → d.Deque A
push_all d f q [] = q
push_all d f q (x ∷ l) = push_all d f (d.push_back q (f x)) l

pub copy_deque : (d : Deques) {A : Type 0} → (A → A) → d.Deque A → d.Deque A
copy_deque d f q = push_all d f d.new (d.items q)

module _ {M : Type 0} (d : Deques) (sk : Skiplist M) where
  unfoldable pub new_db_state : Snapshot → DbState d M
  new_db_state core = record {
    wal = new_wal sk;
    memtable = new_memtable sk;
    imm_wals = d.new;
    imm_memtables = d.new;
    core = core;
  }

  -- WalPut
  unfoldable pub put_to_wal : DbState d M → RowEntry → Result ⊥ (DbState d M)
  put_to_wal s e = do (w, n) ← wal_put sk s.wal e; ok (record s { wal = w })

  -- MemTablePut
  unfoldable pub put_to_memtable : DbState d M → RowEntry → Result ⊥ (DbState d M)
  put_to_memtable s e = do (m, n) ← memtable_put sk s.memtable e; ok (record s { memtable = m })

  unfoldable pub freeze_memtable : DbState d M → ℕ → DbState d M
  freeze_memtable s wal_id = record s {
    memtable = new_memtable sk;
    imm_memtables = d.push_front (new_immutable_memtable sk s.memtable wal_id) s.imm_memtables;
  }

  -- A WAL of size 0 is not frozen; the ids are uint64s.
  unfoldable pub freeze_wal : DbState d M → DbState d M × Option ℕ
  freeze_wal s = if s.wal.table.size == 0 then (s, none) else (
    record s {
      wal = new_wal sk;
      imm_wals = d.push_front (new_immutable_wal sk s.wal s.core.next_wal_sst_id) s.imm_wals;
      core = record s.core { next_wal_sst_id = (s.core.next_wal_sst_id + 1) % 2 ^ 64 };
    },
    some s.core.next_wal_sst_id,
  )

  unfoldable pub pop_imm_wal : DbState d M → Result ⊥ (DbState d M)
  pop_imm_wal s = do (w, q) ← d.pop_back s.imm_wals; ok (record s { imm_wals = q })

  unfoldable pub oldest : {A : Type 0} → d.Deque A → Result ⊥ (Option A)
  oldest q = if length (d.items q) == 0 then ok none else do x ← d.back q; ok (some x)

  unfoldable pub oldest_imm_wal : DbState d M → Result ⊥ (Option (ImmutableWal M))
  oldest_imm_wal s = oldest s.imm_wals

  pub oldest_imm_memtable : DbState d M → Result ⊥ (Option (ImmutableMemtable M))
  oldest_imm_memtable s = oldest s.imm_memtables

  pub move_imm_memtable_to_l0 : DbState d M → ImmutableMemtable M → Handle → Result ⊥ (DbState d M)
  move_imm_memtable_to_l0 s m h = do
    (popped, q) ← d.pop_back s.imm_memtables
    if not (popped.last_wal_id == m.last_wal_id)
        then panic
        else ok (record s {
          imm_memtables = q;
          core = record s.core { l0 = h ∷ s.core.l0; last_compacted_wal_sst_id = m.last_wal_id };
        })

  unfoldable pub increment_next_wal_id : DbState d M → DbState d M
  increment_next_wal_id s = record s {
    core = record s.core { next_wal_sst_id = (s.core.next_wal_sst_id + 1) % 2 ^ 64 };
  }

  -- DBState.Snapshot: the tables are cloned.
  unfoldable pub snapshot : Ulids → DbState d M → DbState d M
  snapshot u s = record {
    wal = clone_wal sk s.wal;
    memtable = clone_memtable sk s.memtable;
    imm_wals = copy_deque d (clone_immutable_wal sk) s.imm_wals;
    imm_memtables = copy_deque d (clone_immutable_memtable sk) s.imm_memtables;
    core = take_snapshot u s.core;
  }

  is_compacted : IdType → Bool
  is_compacted compacted = true
  is_compacted IdType.wal = false
  is_compacted (other_type n) = false

  stops_at : Ulids → Option Ulid → Handle → Bool
  stops_at u none h = false
  stops_at u (some x) h =
      if is_compacted h.id.typ then equal_bytes h.id.value (u.to_string x) else false

  -- The tables of level 0 in front of the one that was compacted last.
  pub newer_l0 : Ulids → Option Ulid → List Handle → List Handle
  newer_l0 u last [] = []
  newer_l0 u last (h ∷ l) =
      let rest = newer_l0 u last l in if stops_at u last h then [] else h ∷ rest

  -- RefreshDBState
  pub refresh_db_state : Ulids → DbState d M → Snapshot → DbState d M
  refresh_db_state u s c = record s {
    core = record s.core {
      l0_last_compacted = c.l0_last_compacted;
      l0 = newer_l0 u c.l0_last_compacted s.core.l0;
      compacted = c.compacted;
    };
  }
