-- ===== src/Db/FlushAll.antt =====
-- FlushWAL of slatedb/flush.go as a whole.
use slatedb_go.Prelude.{
  ℕ, zero, suc, ◌^◌, ◌<◌, ◌≡◌, ◌≢◌, refl, tt, ap, subst, ◌∙◌, arith, false, Option, none, some,
  List, [], ◌∷◌, ◌++◌, All, length, length-append, ◌==◌, Bool-cases, inl, inr,
}
use slatedb_go.Prelude.Bytes.{Bytes}
use slatedb_go.Prelude.Result.{Result, ok, panic, Result-cases}
use slatedb_go.Sst.{TableId, Handle, new_id_wal}
use slatedb_go.Table
use slatedb_go.Table.{Skiplist, KvTable, ImmutableWal, Element, new_wal, new_immutable_wal}
use slatedb_go.Table.Entries.{IsOrderedMap, total}
use slatedb_go.Table.Empty.{get-empty}
use slatedb_go.Table.Put.{IsTable}
use slatedb_go.State.{Deques, IsDeque, DbState, freeze_wal}
use slatedb_go.State.Oldest.{last_cases, oldest_imm_wal-nil, oldest_imm_wal-last}
use slatedb_go.Db.{
  committed, uncommitted, DbError, first_of, search, find_in_memory, flush_imm_wals, flush_wal,
  wal_tables, tables_at,
}
use slatedb_go.Db.Freeze.{get-new_table, find-freeze_wal}
use slatedb_go.Db.Flush.{IsReady, finish_flush_lem}

All-front : {A : Type 0} (P : A → Type 0) (xs ys : List A) → All P (xs ++ ys) → All P xs × All P ys
All-front P [] ys m = (tt, m)
All-front P (x ∷ xs) ys m = let (a, b) = All-front P xs ys m.1 in ((m.0, a), b)

module _ {M : Type 0} (d : Deques) (sk : Skiplist M) (q : IsDeque d) (o : IsOrderedMap sk) where
  -- Enough fuel gives a result: the WALs are flushed or one was not written, and uncommitted reads are
  -- as before.
  pub flush_imm_wals_lem :
      (write : TableId → List Element → Result DbError Handle) (limit fuel : ℕ) (s : DbState d M)
      → ((id : TableId) (l : List Element) → write id l ≢ panic)
      → length (d.items s.imm_wals) < fuel
      → All (IsReady sk) (d.items s.imm_wals)
      → IsTable sk s.memtable.table
      → (t : DbState d M) × (e : Option DbError) × (flush_imm_wals d sk write limit fuel s
          ≡ ok (t, e))
        × (e ≡ none → d.items t.imm_wals ≡ [])
        × IsTable sk t.memtable.table
        × (t.wal ≡ s.wal)
        × ((k : Bytes) → find_in_memory d sk t uncommitted k ≡ find_in_memory d sk s uncommitted k)
  unfolding flush_imm_wals
  flush_imm_wals_lem write limit zero s safe h r m = elim h [ ]
  flush_imm_wals_lem write limit (suc fuel) s safe h r m = elim (last_cases (d.items s.imm_wals)) [
    | inl e ↦
        let done : flush_imm_wals d sk write limit (suc fuel) s ≡ ok (s, none) =
          rw (oldest_imm_wal-nil d sk q s e, flush_imm_wals) refl in
        (s, none, done, (λ p. e), m, refl, λ k. refl)
    | inr (ws, w, e) ↦
        let last = oldest_imm_wal-last d sk q s ws w e in
        let ready = All-front (IsReady sk) ws (w ∷ []) (subst (λ l. All (IsReady sk) l) e r) in
        elim (Result-cases (write (new_id_wal w.id) (Table.iter sk w.table))) [
          | inr (inr p) ↦ absurd (safe _ _ p)
          | inr (inl (x, p)) ↦
              let done : flush_imm_wals d sk write limit (suc fuel) s ≡ ok (s, some x) =
                rw (last, flush_imm_wals) (rw p refl) in
              (s, some x, done, (λ p. absurd (cc)), m, refl, λ k. refl)
          | inl (v, p) ↦
              let (t, one, left, held, same_wal, reads) =
                finish_flush_lem d sk q o limit s ws w e ready.1.0 m in
              let short : length (d.items t.imm_wals) < fuel =
                omega (arith, h, ap length e ∙ length-append ws (w ∷ []), ap length left) in
              let ready' : All (IsReady sk) (d.items t.imm_wals) = rw left ready.0 in
              let (t2, x, all, empty, held2, wal2, reads2) =
                flush_imm_wals_lem write limit fuel t safe short ready' held in
              let done : flush_imm_wals d sk write limit (suc fuel) s ≡ ok (t2, x) =
                rw (last, flush_imm_wals) (rw p (rw one all)) in
              (t2, x, done, empty, held2, wal2 ∙ same_wal, λ k. reads2 k ∙ reads k)
        ]
  ]

  -- After a freeze the WAL is empty.
  empty_wal :
      (s : DbState d M) (k : Bytes)
      → IsTable sk s.wal.table
      → total (sk.front s.wal.table.skl) < 2 ^ 64
      → Table.get sk (freeze_wal d sk s).0.wal.table k ≡ ok none
  unfolding freeze_wal new_wal
  empty_wal s k w h = elim (Bool-cases (s.wal.table.size == 0)) [
    | inl e ↦ rw (e, freeze_wal) (get-empty sk o s.wal.table k w h e)
    | inr e ↦ rw (e, freeze_wal) (get-new_table d sk q o k)
  ]

  -- What the freeze leaves for the flush.
  frozen-IsReady :
      (s : DbState d M) (fuel : ℕ)
      → IsTable sk s.wal.table
      → s.wal.table.is_durable ≡ false
      → All (IsReady sk) (d.items s.imm_wals)
      → suc (length (d.items s.imm_wals)) < fuel
      → All (IsReady sk) (d.items (freeze_wal d sk s).0.imm_wals)
        × (length (d.items (freeze_wal d sk s).0.imm_wals) < fuel)
        × ((freeze_wal d sk s).0.memtable ≡ s.memtable)
  unfolding freeze_wal new_immutable_wal
  frozen-IsReady s fuel w waits r h = elim (Bool-cases (s.wal.table.size == 0)) [
    | inl e ↦ rw (e, freeze_wal) (r, omega (arith, h), refl)
    | inr e ↦
        let frozen = new_immutable_wal sk s.wal s.core.next_wal_sst_id in
        let ready : IsReady sk frozen = record { stored = w.stored; waiting = waits } in
        rw (e, freeze_wal) (rw (q.items-push_front frozen s.imm_wals) ((ready, r), h, refl))
  ]

  -- Without WALs, and with an empty one in front, both levels of reads agree.
  levels-agree :
      (t : DbState d M) (k : Bytes)
      → Table.get sk t.wal.table k ≡ ok none
      → d.items t.imm_wals ≡ []
      → find_in_memory d sk t committed k ≡ find_in_memory d sk t uncommitted k
  unfolding find_in_memory tables_at wal_tables search first_of
  levels-agree t k e n = rw (e, n) refl

  -- With more fuel than WALs, the open one counted, and a writer of tables that does not panic, FlushWAL ends; uncommitted
  -- reads of the memory give what they gave before; and if no write failed, committed reads give the
  -- same. The open WAL takes less than 2 ^ 64 bytes, and no WAL was flushed before.
  pub flush_wal_lem :
      (write : TableId → List Element → Result DbError Handle) (limit fuel : ℕ) (s : DbState d M)
      → ((id : TableId) (l : List Element) → write id l ≢ panic)
      → suc (length (d.items s.imm_wals)) < fuel
      → All (IsReady sk) (d.items s.imm_wals)
      → IsTable sk s.memtable.table
      → IsTable sk s.wal.table
      → s.wal.table.is_durable ≡ false
      → total (sk.front s.wal.table.skl) < 2 ^ 64
      → (t : DbState d M) × (e : Option DbError) × (flush_wal d sk write limit fuel s ≡ ok (t, e))
        × ((k : Bytes) → find_in_memory d sk t uncommitted k ≡ find_in_memory d sk s uncommitted k)
        × (e ≡ none
            → (k : Bytes) → find_in_memory d sk t committed k ≡ find_in_memory d sk s uncommitted k)
  unfolding flush_wal
  flush_wal_lem write limit fuel s safe h r m w waits small =
      let (ready, short, same) = frozen-IsReady s fuel w waits r h in
      let s1 = (freeze_wal d sk s).0 in
      let m1 : IsTable sk s1.memtable.table = rw same m in
      let (t, e, done, empty, held, wal, reads) =
        flush_imm_wals_lem write limit fuel s1 safe short ready m1 in
      let kept : (k : Bytes)
          → find_in_memory d sk t uncommitted k ≡ find_in_memory d sk s uncommitted k =
        λ k. reads k ∙ find-freeze_wal d sk q o s uncommitted k in
      let none_left : (k : Bytes) → Table.get sk t.wal.table k ≡ ok none =
        λ k. rw wal (empty_wal s k w small) in
      (t, e, done, kept, λ p k. levels-agree t k (none_left k) (empty p) ∙ kept k)
