-- ===== src/Db/Reads.antt =====
-- What reads of the database (slatedb/db.go) see of its writes.
use slatedb_go.Prelude.{
  ◌≡◌, ◌≢◌, refl, sym, arith, Bool, true, false, Option, none, some, [], ◌∷◌, length, ◌==◌,
  if◌then◌else◌, Bool-cases, inl, inr,
}
use slatedb_go.Prelude.Bytes.{Bytes, equal_bytes, equal_bytes_iff, equal_bytes_refl}
use slatedb_go.Prelude.Result.{Result, ok, err, ◌>>=◌}
use slatedb_go.Types.{
  Value, RowEntry, get_value, to_value, kind_key_value, kind_tomb_stone, is_tombstone,
}
use slatedb_go.Sst.{Ulids}
use slatedb_go.Snapshot.{Snapshot, take_snapshot}
use slatedb_go.Table.{Skiplist, KvTable, wal_put}
use slatedb_go.Table
use slatedb_go.Table.Entries.{IsOrderedMap}
use slatedb_go.Table.Put.{IsTable, put_lem}
use slatedb_go.State.{Deques, IsDeque, DbState, snapshot, put_to_wal}
use slatedb_go.Db.{
  ReadLevel, committed, uncommitted, DbError, key_not_found, check_value, first_of, search,
  wal_tables, memory_tables, tables_at, find_in_memory, get_with_options, read_below, put, delete,
  write_value, write_tombstone, await_wal_flush, lift,
}
use slatedb_go.Db.Search.{find_in_memory-snapshot}

not_equal : (a b : Bytes) → b ≢ a → equal_bytes a b ≡ false
not_equal a b other = elim (Bool-cases (equal_bytes a b)) [
  | inl e ↦ absurd (other (sym ((equal_bytes_iff a b).0 e)))
  | inr e ↦ e
]

-- An argument that is not empty passes the check.
pub nonempty : (key : Bytes) → key ≢ [] → (length key == 0) ≡ false
nonempty [] h = absurd (h refl)
nonempty (b ∷ key) h = ground arith

first_of-if :
    (c : Bool) (x : Value) (call rest : Result ⊥ (Option Value))
    → ((if c then ok (some x) else call) >>= λ v. first_of v rest)
      ≡ (if c then ok (some x) else (call >>= λ v. first_of v rest))
unfolding first_of
first_of-if true x call rest = refl
first_of-if false x call rest = refl

module _ {M : Type 0} (d : Deques) (sk : Skiplist M) (q : IsDeque d) (o : IsOrderedMap sk) where
  -- What a write to the WAL changes for reads.
  pub put_to_wal_lem :
      (s : DbState d M) (e : RowEntry)
      → IsTable sk s.wal.table
      → (t : DbState d M) × (put_to_wal d sk s e ≡ ok t)
        × IsTable sk t.wal.table
        × ((k : Bytes)
            → find_in_memory d sk t uncommitted k ≡ (
                if equal_bytes e.key k
                then ok (some (to_value e.value))
                else find_in_memory d sk s uncommitted k))
        × ((k : Bytes) → find_in_memory d sk t committed k ≡ find_in_memory d sk s committed k)
        × (t.core ≡ s.core)
  unfolding put_to_wal wal_put find_in_memory tables_at wal_tables memory_tables search first_of
  put_to_wal_lem s e w =
      let (u, done, held, reads) = put_lem sk o s.wal.table e w in
      let t : DbState d M = record s { wal = record { table = u } } in
      let result : put_to_wal d sk s e ≡ ok t = rw (done, put_to_wal) refl in
      (
        t,
        result,
        held,
        (λ k.
            rw (reads k) (
              first_of-if (equal_bytes e.key k) (to_value e.value) (Table.get sk s.wal.table k) _)),
        (λ k. refl),
        refl,
      )

  pub get_lem :
      (u : Ulids) (below : Snapshot → Bytes → Result DbError (Option Value)) (s : DbState d M)
      (level : ReadLevel) (k : Bytes)
      → get_with_options d sk u below s level k
        ≡ (lift (find_in_memory d sk s level k) >>= read_below below (take_snapshot u s.core) k)
  unfolding get_with_options snapshot
  get_lem u below s level k = rw (find_in_memory-snapshot d sk q o u s level k) refl

  -- A write of an entry under a key, and what reads see of it.
  abbrev pub Seen :
      Ulids
      → (Snapshot → Bytes → Result DbError (Option Value))
      → DbState d M
      → DbState d M
      → Bytes
      → Result DbError Bytes
      → Type 0
  Seen u below s t key answer =
      (get_with_options d sk u below t uncommitted key ≡ answer)
      × ((k : Bytes)
          → k ≢ key
          → get_with_options d sk u below t uncommitted k
            ≡ get_with_options d sk u below s uncommitted k)
      × ((k : Bytes)
          → get_with_options d sk u below t committed k
            ≡ get_with_options d sk u below s committed k)

  seen_lem :
      (u : Ulids) (below : Snapshot → Bytes → Result DbError (Option Value)) (s t : DbState d M)
      (e : RowEntry)
      → ((k : Bytes)
          → find_in_memory d sk t uncommitted k ≡ (
              if equal_bytes e.key k
              then ok (some (to_value e.value))
              else find_in_memory d sk s uncommitted k))
      → ((k : Bytes) → find_in_memory d sk t committed k ≡ find_in_memory d sk s committed k)
      → t.core ≡ s.core
      → Seen u below s t e.key (check_value (to_value e.value))
  unfolding lift read_below
  seen_lem u below s t e new old core = (
    rw (get_lem u below t uncommitted e.key) (rw (new e.key, equal_bytes_refl e.key) refl),
    (λ k other.
        let differs : equal_bytes e.key k ≡ false = not_equal e.key k other in
        rw (get_lem u below t uncommitted k, get_lem u below s uncommitted k)
          (rw (new k, differs, core) refl)),
    λ k. rw (get_lem u below t committed k, get_lem u below s committed k) (rw (old k, core) refl),
  )

  -- Put under a key that is not empty, without AwaitDurable: it does not fail, an uncommitted read of the
  -- key gives the value, an uncommitted read of another key and every committed read give what they gave
  -- before. With AwaitDurable it is the wait, in that state. The tables in the object store are arbitrary.
  pub get-put :
      (u : Ulids) (below : Snapshot → Bytes → Result DbError (Option Value))
      (wait : DbState d M → Result DbError (DbState d M × Option DbError)) (s : DbState d M)
      (key value : Bytes)
      → key ≢ []
      → IsTable sk s.wal.table
      → (t : DbState d M) × (put d sk false wait s key value ≡ ok (t, none))
        × (put d sk true wait s key value ≡ wait t)
        × IsTable sk t.wal.table
        × Seen u below s t key (ok value)
  unfolding put await_wal_flush write_value lift check_value get_value to_value is_tombstone
  get-put u below wait s key value some_key w =
      let e : RowEntry = record {
        key = key;
        value = record { value = value; kind = kind_key_value };
      } in
      let (t, done, held, new, old, core) = put_to_wal_lem s e w in
      let result : write_value d sk s key value ≡ ok t =
        rw (nonempty key some_key, write_value) (rw done refl) in
      let now : put d sk false wait s key value ≡ ok (t, none) = rw (result, put) refl in
      let waits : put d sk true wait s key value ≡ wait t = rw (result, put) refl in
      (t, now, waits, held, seen_lem u below s t e new old core)

  -- Delete under a key that is not empty, without AwaitDurable: it does not fail, an uncommitted read of
  -- the key then does not find it, an uncommitted read of another key and every committed read give
  -- what they gave before. With AwaitDurable it is the wait, in that state.
  pub get-delete :
      (u : Ulids) (below : Snapshot → Bytes → Result DbError (Option Value))
      (wait : DbState d M → Result DbError (DbState d M × Option DbError)) (s : DbState d M)
      (key : Bytes)
      → key ≢ []
      → IsTable sk s.wal.table
      → (t : DbState d M) × (delete d sk false wait s key ≡ ok (t, none))
        × (delete d sk true wait s key ≡ wait t)
        × IsTable sk t.wal.table
        × Seen u below s t key (err key_not_found)
  unfolding delete await_wal_flush write_tombstone lift check_value get_value to_value is_tombstone
  get-delete u below wait s key some_key w =
      let e : RowEntry = record {
        key = key;
        value = record { value = []; kind = kind_tomb_stone };
      } in
      let (t, done, held, new, old, core) = put_to_wal_lem s e w in
      let result : write_tombstone d sk s key ≡ ok t =
        rw (nonempty key some_key, write_tombstone) (rw done refl) in
      let now : delete d sk false wait s key ≡ ok (t, none) = rw (result, delete) refl in
      let waits : delete d sk true wait s key ≡ wait t = rw (result, delete) refl in
      (t, now, waits, held, seen_lem u below s t e new old core)
