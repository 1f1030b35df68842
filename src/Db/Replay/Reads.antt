-- ===== src/Db/Replay/Reads.antt =====
-- What reads see of the replay of the WALs (slatedb/db.go).
use slatedb_go.Prelude.{
  ℕ, suc, ◌+◌, ◌%◌, ◌^◌, ◌<◌, ◌≤◌, ◌≡◌, refl, ap, ◌∙◌, arith, true, false, Option, some, List, [],
  ◌∷◌, length, ltb, ◌==◌, if◌then◌else◌,
}
use slatedb_go.Prelude.Bytes.{Bytes}
use slatedb_go.Prelude.Result.{Result, ok, panic}
use slatedb_go.Types.{Value, RowEntry}
use slatedb_go.Sst.{Handle, new_id_wal, wal_id, wal_id-new_id_wal}
use slatedb_go.Table.{Skiplist}
use slatedb_go.Table.Entries.{IsOrderedMap}
use slatedb_go.Table.Put.{IsTable}
use slatedb_go.State.{Deques, IsDeque, DbState}
use slatedb_go.Db.{committed, find_in_memory}
use slatedb_go.Db.Replay.{WalTables, assert_wal, replay_loop, replay_wal, stop_at}
use slatedb_go.Db.Replay.Step.{overlay, next, replay_table_lem}

pub overlay_tables :
    Bytes → List (List RowEntry) → Result ⊥ (Option Value) → Result ⊥ (Option Value)
overlay_tables k [] r = r
overlay_tables k (es ∷ ess) r = overlay_tables k ess (overlay k es r)

-- The ids follow one another behind `a`.
abbrev pub IsFrom : ℕ → List ℕ → Type 0
IsFrom a [] = Unit
IsFrom a (id ∷ ids) = (id ≡ suc a) × IsFrom id ids

abbrev pub last_of : ℕ → List ℕ → ℕ
last_of a [] = a
last_of a (id ∷ ids) = last_of id ids

-- The WALs with these ids can be read, and have these entries.
abbrev pub Holds : WalTables → List ℕ → List (List RowEntry) → Type 0
Holds w [] [] = Unit
Holds w [] (es ∷ ess) = ⊥
Holds w (id ∷ ids) [] = ⊥
Holds w (id ∷ ids) (es ∷ ess) =
    ((h : Handle) × (w.open_table (new_id_wal id) ≡ ok h)
      × (h.id ≡ new_id_wal id)
      × (w.entries h ≡ ok es))
    × Holds w ids ess

le-last_of : (a : ℕ) (ids : List ℕ) → IsFrom a ids → a ≤ last_of a ids
le-last_of a [] f = omega arith
le-last_of a (id ∷ ids) (e, f) = omega (arith, e, le-last_of id ids f)

abbrev max_next : ℕ → ℕ → ℕ
max_next n last = if ltb last n then n else last + 1

max_next-next :
    (n id last : ℕ) → id ≤ last → suc last < 2 ^ 63 → max_next (next n id) last ≡ max_next n last
max_next-next n id last h small = ground arith

module _ {M : Type 0} (d : Deques) (sk : Skiplist M) (q : IsDeque d) (o : IsOrderedMap sk) where
  -- The loop reads the WALs in the order of their ids, and the next id is behind them.
  replay_loop_lem :
      (limit : ℕ) (w : WalTables) (sent a : ℕ) (ids : List ℕ) (ess : List (List RowEntry))
      (s : DbState d M)
      → sent + length ids ≤ 255
      → IsFrom a ids
      → Holds w ids ess
      → suc (last_of a ids) < 2 ^ 63
      → a < s.core.next_wal_sst_id
      → IsTable sk s.memtable.table
      → (t : DbState d M) × (replay_loop d sk limit w sent a ids s ≡ ok (last_of a ids, t))
        × (t.core.next_wal_sst_id ≡ max_next s.core.next_wal_sst_id (last_of a ids))
        × ((k : Bytes)
            → find_in_memory d sk t committed k
              ≡ overlay_tables k ess (find_in_memory d sk s committed k))
  unfolding replay_loop assert_wal overlay_tables stop_at
  replay_loop_lem limit w sent a [] [] s room from has small less v =
      (s, refl, ground arith, λ k. refl)
  replay_loop_lem limit w sent a [] (es ∷ ess) s room from has small less v = elim has [ ]
  replay_loop_lem limit w sent a (id ∷ ids) [] s room from has small less v = elim has [ ]
  replay_loop_lem limit w sent a (id ∷ ids) (es ∷ ess) s room (e, from)
        ((h, opened, same, readable), has) small less v =
      let bound = le-last_of id ids from in
      let (n, s1, done, few, held, count, reads) =
        replay_table_lem d sk q o limit sent s id es v (omega (arith, room)) in
      let less1 : id < s1.core.next_wal_sst_id = rw count (ground (arith, e, less, small, bound)) in
      let (t, all, final, more) =
        replay_loop_lem limit w n id ids ess s1 (omega (arith, room, few)) from has small less1
          held in
      let present : wal_id h.id ≡ some id =
        rw same (wal_id-new_id_wal id (omega (arith, small, bound))) in
      let result : replay_loop d sk limit w sent a (id ∷ ids) s ≡ ok (last_of id ids, t) =
        rw (opened, replay_loop) (rw (present, assert_wal) (rw readable (rw done all))) in
      (
        t,
        result,
        final
            ∙ ap (λ n. max_next n (last_of id ids)) count
            ∙ max_next-next s.core.next_wal_sst_id id (last_of id ids) bound small,
        λ k. more k ∙ ap (overlay_tables k ess) (reads k),
      )

  -- The WALs behind the last one that was compacted are 255 at most, have consecutive ids below
  -- 2 ^ 63 - 1, can be read, and the next id of the manifest is not beyond them. Then the replay ends without a panic, the
  -- next id is behind the last WAL, and a committed read gives what the WALs, one after another, make
  -- of the reads before.
  pub replay_wal_lem :
      (limit : ℕ) (w : WalTables) (ids : List ℕ) (ess : List (List RowEntry)) (s : DbState d M)
      → let a = s.core.last_compacted_wal_sst_id in
        w.list a ≡ ok ids
        → length ids ≤ 255
        → IsFrom a ids
        → Holds w ids ess
        → suc (last_of a ids) < 2 ^ 63
        → a < s.core.next_wal_sst_id
        → s.core.next_wal_sst_id ≤ suc (last_of a ids)
        → IsTable sk s.memtable.table
        → (t : DbState d M) × (replay_wal d sk limit w s ≡ ok t)
          × (t.core.next_wal_sst_id ≡ suc (last_of a ids))
          × ((k : Bytes)
              → find_in_memory d sk t committed k
                ≡ overlay_tables k ess (find_in_memory d sk s committed k))
  unfolding replay_wal stop_at
  replay_wal_lem limit w ids ess s listed room from has small less reach v =
      let a = s.core.last_compacted_wal_sst_id in
      let (t, done, next_id, reads) =
        replay_loop_lem limit w 0 a ids ess s (omega (arith, room)) from has small less v in
      let behind : t.core.next_wal_sst_id ≡ suc (last_of a ids) = next_id ∙ ground (arith, reach) in
      let passes : ((last_of a ids + 1) % 2 ^ 64 == t.core.next_wal_sst_id) ≡ true =
        ground (arith, behind, small) in
      let result : replay_wal d sk limit w s ≡ ok t =
        rw (listed, replay_wal) (rw done (rw passes refl)) in
      (t, result, behind, reads)

  -- If the next id of the manifest is beyond the WALs that were written, 255 at most behind the last
  -- one that was compacted, as it is when a WAL was frozen and the manifest written before its table
  -- was, then the replay panics.
  pub replay_wal-panic :
      (limit : ℕ) (w : WalTables) (ids : List ℕ) (ess : List (List RowEntry)) (s : DbState d M)
      → let a = s.core.last_compacted_wal_sst_id in
        w.list a ≡ ok ids
        → length ids ≤ 255
        → IsFrom a ids
        → Holds w ids ess
        → suc (last_of a ids) < 2 ^ 63
        → suc (last_of a ids) < s.core.next_wal_sst_id
        → IsTable sk s.memtable.table
        → replay_wal d sk limit w s ≡ panic
  unfolding replay_wal stop_at
  replay_wal-panic limit w ids ess s listed room from has small beyond v =
      let a = s.core.last_compacted_wal_sst_id in
      let (t, done, next_id, reads) =
        replay_loop_lem limit w 0 a ids ess s (omega (arith, room)) from has small
          (omega (arith, beyond, le-last_of a ids from)) v in
      let still : t.core.next_wal_sst_id ≡ s.core.next_wal_sst_id =
        next_id ∙ ground (arith, beyond) in
      let fails : ((last_of a ids + 1) % 2 ^ 64 == t.core.next_wal_sst_id) ≡ false =
        ground (arith, still, beyond, small) in
      rw (listed, replay_wal) (rw done (rw fails refl))
