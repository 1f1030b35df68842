-- ===== src/Db/Flush.antt =====
-- FlushWAL of slatedb/flush.go: what reads see of the way of the WALs to the memtable.
use slatedb_go.Prelude.{
  ℕ, ◌≡◌, refl, sym, ap, subst, ◌∙◌, true, false, Option, none, some, List, [], ◌∷◌, ◌++◌, map, All,
  if◌then◌else◌, Bool-cases, inl, inr,
}
use slatedb_go.Prelude.Bytes.{Bytes, equal_bytes, lt_bytes, equal_bytes_iff}
use slatedb_go.Prelude.Result.{Result, ok, err, panic, ◌>>=◌}
use slatedb_go.Types.{
  Value, RowEntry, to_value, value_from_bytes, value_from_bytes-to_bytes, to_value_idem,
}
use slatedb_go.Table
use slatedb_go.Table.{
  Skiplist, KvTable, Memtable, ImmutableWal, Element, read_value, next_entry, memtable_put,
  set_last_wal_id, iter, new_memtable,
}
use slatedb_go.Table.Entries.{IsOrderedMap, IsAscending, lookup, lookup-below}
use slatedb_go.Table.Clone.{notify_wal_flushed-waiting}
use slatedb_go.Table.Put.{IsTable, IsStored, put_lem, new_table-IsTable}
use slatedb_go.State.{Deques, IsDeque, DbState, freeze_memtable, pop_imm_wal}
use slatedb_go.Db.{
  ReadLevel, uncommitted, first_of, search, wal_tables, memory_tables, tables_at, find_in_memory,
  put_elements, flush_imm_wal_to_memtable, maybe_freeze_memtable, finish_flush, ltb_int64,
}
use slatedb_go.Db.Freeze.{search-behind, find-freeze_memtable}

first_of_assoc :
    (a b rest : Result ⊥ (Option Value))
    → ((a >>= λ v. first_of v b) >>= λ v. first_of v rest)
      ≡ (a >>= λ v. first_of v (b >>= λ w. first_of w rest))
unfolding first_of
first_of_assoc (ok none) b rest = refl
first_of_assoc (ok (some x)) b rest = refl
first_of_assoc (err e) b rest = refl
first_of_assoc panic b rest = refl

module _ {M : Type 0} (sk : Skiplist M) (o : IsOrderedMap sk) where
  -- The elements are read before the table.
  over : List Element → Bytes → Result ⊥ (Option Value) → Result ⊥ (Option Value)
  over l k rest = do v ← read_value (lookup k l); first_of v rest

  over-get :
      (t : KvTable M) (k : Bytes) (rest : Result ⊥ (Option Value))
      → over (sk.front t.skl) k rest ≡ (Table.get sk t k >>= λ v. first_of v rest)
  unfolding over Table.get
  over-get t k rest = rw (o.get-front t.skl k) refl

  over-cons :
      (key b : Bytes) (v : Value) (l : List Element) (k : Bytes) (rest : Result ⊥ (Option Value))
      → value_from_bytes b ≡ ok v
      → All (λ (p : Element). lt_bytes key p.0 ≡ true) l
      → over l k (if equal_bytes key k then ok (some v) else rest) ≡ over ((key, b) ∷ l) k rest
  unfolding over lookup read_value first_of
  over-cons key b v l k rest read below = elim (Bool-cases (equal_bytes key k)) [
    | inl e ↦
        let absent : lookup k l ≡ none = lookup-below k l (
          subst (λ x. All (λ (p : Element). lt_bytes x p.0 ≡ true) l) ((equal_bytes_iff key k).0 e)
            below) in
        rw e (rw absent (rw read refl))
    | inr e ↦ rw e refl
  ]

  over_nil : (k : Bytes) (rest : Result ⊥ (Option Value)) → over [] k rest ≡ rest
  unfolding over lookup read_value first_of
  over_nil k rest = refl

  put_elements_lem :
      (m : Memtable M) (l : List Element)
      → IsTable sk m.table
      → IsAscending l
      → All (λ (p : Element). IsStored p.1) l
      → (n : Memtable M) × (put_elements sk m l ≡ ok n)
        × IsTable sk n.table
        × ((k : Bytes) → Table.get sk n.table k ≡ over l k (Table.get sk m.table k))
  unfolding put_elements next_entry memtable_put
  put_elements_lem m [] w a v = (m, refl, w, λ k. sym (over_nil k _))
  put_elements_lem m ((key, b) ∷ l) w a ((v, e), vs) =
      let entry : RowEntry = record { key = key; value = to_value v } in
      let read : value_from_bytes b ≡ ok (to_value v) = rw e (value_from_bytes-to_bytes v) in
      let (u, done, held, reads) = put_lem sk o m.table entry w in
      let (n, all, kept, rest) = put_elements_lem (record m { table = u }) l held a.1 vs in
      let result : put_elements sk m ((key, b) ∷ l) ≡ ok n =
        rw (read, put_elements) (rw (done, memtable_put) all) in
      let now : (k : Bytes)
          → Table.get sk u k
            ≡ (if equal_bytes key k then ok (some (to_value v)) else Table.get sk m.table k) =
        λ k.
          subst
            (λ x.
              Table.get sk u k
              ≡ (if equal_bytes key k then ok (some x) else Table.get sk m.table k))
            (to_value_idem v) (reads k) in
      (
        n,
        result,
        kept,
        λ k.
            rest k
            ∙ ap (over l k) (now k)
            ∙ over-cons key b (to_value v) l k (Table.get sk m.table k) read a.0,
      )

-- A WAL is ready to be flushed: its bytes are those of values, and nobody was notified yet.
pub record IsReady {M : Type 0} (sk : Skiplist M) (w : ImmutableWal M) : Type 0 where
  pub stored : All (λ (p : Element). IsStored p.1) (sk.front w.table.skl)
  pub waiting : w.table.is_durable ≡ false

module _ {M : Type 0} (d : Deques) (sk : Skiplist M) (q : IsDeque d) (o : IsOrderedMap sk) where
  search-over :
      (w m n : KvTable M) (rest : List (KvTable M)) (k : Bytes)
      → Table.get sk n k ≡ (Table.get sk w k >>= λ v. first_of v (Table.get sk m k))
      → search sk (n ∷ rest) k ≡ search sk (w ∷ m ∷ rest) k
  unfolding search
  search-over w m n rest k e =
      rw e (first_of_assoc (Table.get sk w k) (Table.get sk m k) (search sk rest k))

  flush_imm_wal_to_memtable_lem :
      (w : ImmutableWal M) (m : Memtable M)
      → IsReady sk w
      → IsTable sk m.table
      → (n : Memtable M) × (flush_imm_wal_to_memtable sk w m ≡ ok n)
        × IsTable sk n.table
        × ((rest : List (KvTable M)) (k : Bytes)
            → search sk (n.table ∷ rest) k ≡ search sk (w.table ∷ m.table ∷ rest) k)
  unfolding flush_imm_wal_to_memtable set_last_wal_id iter search
  flush_imm_wal_to_memtable_lem w m r t =
      let (n, done, held, reads) =
        put_elements_lem sk o m (sk.front w.table.skl) t (o.ascending w.table.skl) r.stored in
      let result : flush_imm_wal_to_memtable sk w m ≡ ok (set_last_wal_id sk n w.id) =
        rw (done, flush_imm_wal_to_memtable) refl in
      (
        set_last_wal_id sk n w.id,
        result,
        held,
        λ rest k. search-over w.table m.table n.table rest k (reads k ∙ over-get sk o w.table k _),
      )

  snoc-tables :
      (ws : List (ImmutableWal M)) (w : ImmutableWal M) (rest : List (KvTable M))
      → map (λ x. x.table) (ws ++ w ∷ []) ++ rest
        ≡ map (λ (x : ImmutableWal M). x.table) ws ++ w.table ∷ rest
  snoc-tables [] w rest = refl
  snoc-tables (x ∷ ws) w rest = ap (λ t. x.table ∷ t) (snoc-tables ws w rest)

  -- The WAL behind the others and the memtable are searched as the new memtable is.
  moved :
      (s : DbState d M) (ws : List (ImmutableWal M)) (w : ImmutableWal M)
      (p : d.Deque (ImmutableWal M)) (n : Memtable M)
      → d.items s.imm_wals ≡ ws ++ w ∷ []
      → d.items p ≡ ws
      → ((rest : List (KvTable M)) (k : Bytes)
          → search sk (n.table ∷ rest) k ≡ search sk (w.table ∷ s.memtable.table ∷ rest) k)
      → (k : Bytes)
      → find_in_memory d sk (record s { imm_wals = p; memtable = n }) uncommitted k
        ≡ find_in_memory d sk s uncommitted k
  unfolding find_in_memory tables_at wal_tables memory_tables
  moved s ws w p n e left same k =
      let imms = map (λ m. m.table) (d.items s.imm_memtables) in
      let front = s.wal.table ∷ map (λ x. x.table) ws in
      let after : search sk (front ++ n.table ∷ imms) k
          ≡ search sk (front ++ w.table ∷ s.memtable.table ∷ imms) k =
        search-behind sk front (n.table ∷ imms) (w.table ∷ s.memtable.table ∷ imms) k
          (same imms k) in
      rw (left, e) (rw (snoc-tables ws w (s.memtable.table ∷ imms)) after)

  -- The second state has the WALs of the first, and reads do not tell them apart.
  abbrev Kept : DbState d M → DbState d M → Type 0
  Kept t s =
      (t.imm_wals ≡ s.imm_wals)
      × IsTable sk t.memtable.table
      × (t.wal ≡ s.wal)
      × ((level : ReadLevel) (k : Bytes)
          → find_in_memory d sk t level k ≡ find_in_memory d sk s level k)

  maybe_freeze_lem :
      (limit : ℕ) (s : DbState d M) (n : ℕ)
      → IsTable sk s.memtable.table
      → Kept (maybe_freeze_memtable d sk limit s n).0 s
  unfolding freeze_memtable new_memtable maybe_freeze_memtable find_in_memory
  maybe_freeze_lem limit s n m = elim (Bool-cases (ltb_int64 s.memtable.table.size limit)) [
    | inl e ↦ rw (e, maybe_freeze_memtable) (refl, m, refl, λ level k. refl)
    | inr e ↦
        rw (e, maybe_freeze_memtable)
          (refl, new_table-IsTable sk o, refl, λ level k. find-freeze_memtable d sk q o s n level k)
  ]

  -- One round, with the WAL in the object store, moves the oldest WAL to the memtable; uncommitted
  -- reads do not see it.
  pub finish_flush_lem :
      (limit : ℕ) (s : DbState d M) (ws : List (ImmutableWal M)) (w : ImmutableWal M)
      → d.items s.imm_wals ≡ ws ++ w ∷ []
      → IsReady sk w
      → IsTable sk s.memtable.table
      → (t : DbState d M) × (finish_flush d sk limit s w ≡ ok t)
        × (d.items t.imm_wals ≡ ws)
        × IsTable sk t.memtable.table
        × (t.wal ≡ s.wal)
        × ((k : Bytes) → find_in_memory d sk t uncommitted k ≡ find_in_memory d sk s uncommitted k)
  unfolding pop_imm_wal finish_flush maybe_freeze_memtable
  finish_flush_lem limit s ws w e r m =
      let (p, popped, left) = q.pop_back_last s.imm_wals ws w e in
      let (n, flushed, held, same) = flush_imm_wal_to_memtable_lem w s.memtable r m in
      let s1 : DbState d M = record s { imm_wals = p; memtable = n } in
      let frozen = maybe_freeze_lem limit s1 w.id held in
      let t = (maybe_freeze_memtable d sk limit s1 w.id).0 in
      let pop : pop_imm_wal d sk s ≡ ok (record s { imm_wals = p }) =
        rw (popped, pop_imm_wal) refl in
      let notified = notify_wal_flushed-waiting sk w.table r.waiting in
      let result : finish_flush d sk limit s w ≡ ok t =
        rw (pop, finish_flush) (rw flushed (rw notified refl)) in
      let items : d.items t.imm_wals ≡ ws = rw frozen.0 left in
      (
        t,
        result,
        items,
        frozen.1,
        frozen.2,
        λ k. frozen.3 uncommitted k ∙ moved s ws w p n e left same k,
      )
