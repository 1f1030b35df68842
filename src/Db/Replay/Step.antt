-- ===== src/Db/Replay/Step.antt =====
-- One WAL in the replay of the WALs (slatedb/db.go).
use slatedb_go.Prelude.{
  ℕ, ◌<◌, ◌≤◌, arith, ◌+◌, ◌%◌, ◌^◌, ◌≡◌, refl, ap, ◌∙◌, Bool, true, false, Bool-cases, inl, inr,
  Option, some, List, [], ◌∷◌, ltb, ◌==◌, if◌then◌else◌,
}
use slatedb_go.Prelude.Bytes.{Bytes, equal_bytes}
use slatedb_go.Prelude.Result.{Result, ok, ◌>>=◌}
use slatedb_go.Types.{Value, RowEntry, to_value}
use slatedb_go.Table.{Skiplist, memtable_put, new_memtable}
use slatedb_go.Table.Entries.{IsOrderedMap}
use slatedb_go.Table.Put.{IsTable, put_lem, new_table-IsTable}
use slatedb_go.State.{
  Deques, IsDeque, DbState, put_to_memtable, freeze_memtable, increment_next_wal_id,
}
use slatedb_go.Db.{
  committed, lift, first_of, search, find_in_memory, tables_at, memory_tables,
  maybe_freeze_memtable, ltb_int64,
}
use slatedb_go.Db.Freeze.{find-freeze_memtable}
use slatedb_go.Db.Replay.{put_all, replay_table, send, stop_at}

-- A read of a key after entries were put, where `r` is the read before.
pub overlay : Bytes → List RowEntry → Result ⊥ (Option Value) → Result ⊥ (Option Value)
overlay k [] r = r
overlay k (e ∷ es) r =
    overlay k es (if equal_bytes e.key k then ok (some (to_value e.value)) else r)

abbrev pub next : ℕ → ℕ → ℕ
next n id = if n == id then (n + 1) % 2 ^ 64 else n

-- There is room for a message.
send_lem : (b : Bool) (sent : ℕ) → sent < 255 → (n : ℕ) × (send b sent ≡ ok n) × (n ≤ sent + 1)
unfolding send
send_lem false sent room = (sent, refl, omega arith)
send_lem true sent room =
    let free : ltb sent 255 ≡ true = ground arith in (sent + 1, rw free refl, omega arith)

module _ {M : Type 0} (d : Deques) (sk : Skiplist M) (q : IsDeque d) (o : IsOrderedMap sk) where
  abbrev read : DbState d M → Bytes → Result ⊥ (Option Value)
  read s k = find_in_memory d sk s committed k

  first_of-if :
      (b : Bool) (v : Value) (r rest : Result ⊥ (Option Value))
      → ((if b then ok (some v) else r) >>= λ x. first_of x rest)
        ≡ (if b then ok (some v) else (r >>= λ x. first_of x rest))
  unfolding first_of
  first_of-if true v r rest = refl
  first_of-if false v r rest = refl

  put_lem_memtable :
      (s : DbState d M) (e : RowEntry)
      → IsTable sk s.memtable.table
      → (t : DbState d M) × (put_to_memtable d sk s e ≡ ok t)
        × IsTable sk t.memtable.table
        × (t ≡ record s { memtable = t.memtable })
        × ((k : Bytes)
            → read t k ≡ (if equal_bytes e.key k then ok (some (to_value e.value)) else read s k))
  unfolding put_to_memtable find_in_memory tables_at memory_tables search memtable_put
  put_lem_memtable s e w =
      let (u, done, held, reads) = put_lem sk o s.memtable.table e w in
      let t : DbState d M = record s { memtable = record s.memtable { table = u } } in
      let all : put_to_memtable d sk s e ≡ ok t = rw (done, put_to_memtable) refl in
      (
        t,
        all,
        held,
        refl,
        λ k. rw (reads k) (first_of-if (equal_bytes e.key k) (to_value e.value) _ _),
      )

  put_all_lem :
      (s : DbState d M) (es : List RowEntry)
      → IsTable sk s.memtable.table
      → (t : DbState d M) × (put_all d sk s es ≡ ok t)
        × IsTable sk t.memtable.table
        × (t ≡ record s { memtable = t.memtable })
        × ((k : Bytes) → read t k ≡ overlay k es (read s k))
  unfolding put_all overlay
  put_all_lem s [] w = (s, refl, w, refl, λ k. refl)
  put_all_lem s (e ∷ es) w =
      let (t, done, held, same, reads) = put_lem_memtable s e w in
      let (v, all, kept, rest, more) = put_all_lem t es held in
      let result : put_all d sk s (e ∷ es) ≡ ok v = rw (done, put_all) all in
      (
        v,
        result,
        kept,
        rest ∙ ap (λ (x : DbState d M). record x { memtable = v.memtable }) same,
        λ k. more k ∙ ap (overlay k es) (reads k),
      )

  freeze_lem :
      (limit : ℕ) (s : DbState d M) (id : ℕ)
      → IsTable sk s.memtable.table
      → let t = (maybe_freeze_memtable d sk limit s id).0 in
        IsTable sk t.memtable.table × (t.core ≡ s.core) × ((k : Bytes) → read t k ≡ read s k)
  unfolding freeze_memtable new_memtable maybe_freeze_memtable
  freeze_lem limit s id w = elim (Bool-cases (ltb_int64 s.memtable.table.size limit)) [
    | inl e ↦ rw (e, maybe_freeze_memtable) (w, refl, λ k. refl)
    | inr e ↦
        rw (e, maybe_freeze_memtable)
          (new_table-IsTable sk o, refl, λ k. find-freeze_memtable d sk q o s id committed k)
  ]

  counted_lem :
      (s : DbState d M) (id : ℕ)
      → let t : DbState d M =
          if s.core.next_wal_sst_id == id then increment_next_wal_id d sk s else s in
        (t.memtable ≡ s.memtable)
        × (t.core.next_wal_sst_id ≡ next s.core.next_wal_sst_id id)
        × ((k : Bytes) → read t k ≡ read s k)
  unfolding increment_next_wal_id find_in_memory tables_at memory_tables
  counted_lem s id = elim (Bool-cases (s.core.next_wal_sst_id == id)) [
    | inl e ↦ rw e (refl, refl, λ k. refl)
    | inr e ↦ rw e (refl, refl, λ k. refl)
  ]

  pub replay_table_lem :
      (limit sent : ℕ) (s : DbState d M) (id : ℕ) (es : List RowEntry)
      → IsTable sk s.memtable.table
      → sent < 255
      → (n : ℕ) × (t : DbState d M) × (replay_table d sk limit sent s id es ≡ ok (n, t))
        × (n ≤ sent + 1)
        × IsTable sk t.memtable.table
        × (t.core.next_wal_sst_id ≡ next s.core.next_wal_sst_id id)
        × ((k : Bytes) → read t k ≡ overlay k es (read s k))
  unfolding replay_table lift stop_at
  replay_table_lem limit sent s id es w room =
      let (s1, done, held, same, reads) = put_all_lem s es w in
      let s2 = (maybe_freeze_memtable d sk limit s1 id).0 in
      let (held2, core, reads2) = freeze_lem limit s1 id held in
      let t : DbState d M =
        if s2.core.next_wal_sst_id == id then increment_next_wal_id d sk s2 else s2 in
      let (mem, count, reads3) = counted_lem s2 id in
      let (n, sends, few) = send_lem (maybe_freeze_memtable d sk limit s1 id).1 sent room in
      let result : replay_table d sk limit sent s id es ≡ ok (n, t) =
        rw (done, replay_table) (rw sends refl) in
      let ids : s2.core.next_wal_sst_id ≡ s.core.next_wal_sst_id =
        ap (λ c. c.next_wal_sst_id) core ∙ ap (λ (x : DbState d M). x.core.next_wal_sst_id) same in
      (
        n,
        t,
        result,
        few,
        rw mem held2,
        count ∙ ap (λ n. next n id) ids,
        λ k. reads3 k ∙ reads2 k ∙ reads k,
      )
