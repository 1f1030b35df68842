-- ===== src/Db/Replay.antt =====
-- replayWAL of slatedb/db.go: the WALs that no memtable was flushed behind are read back into the
-- memtable. The list of the WALs, OpenSST and the iteration over a table are arguments.
pub mod Step
pub mod Reads
mod Samples
use slatedb_go.Prelude.{
  ℕ, ◌+◌, ◌%◌, ◌^◌, Bool, true, false, ltb, Option, none, some, List, [], ◌∷◌, ◌==◌, if◌then◌else◌,
}
use slatedb_go.Prelude.Result.{Result, ok, err, panic, ◌>>=◌}
use slatedb_go.Types.{RowEntry}
use slatedb_go.Sst.{TableId, Handle, new_id_wal, wal_id}
use slatedb_go.Table.{Skiplist}
use slatedb_go.State.{Deques, DbState, put_to_memtable, increment_next_wal_id}
use slatedb_go.Db.{DbError, lift, maybe_freeze_memtable}

-- What the table store is asked for: the ids of the WALs behind one, a handle, and its entries.
pub record WalTables : Type 0 where
  pub list : ℕ → Result DbError (List ℕ)
  pub open_table : TableId → Result DbError Handle
  pub entries : Handle → Result DbError (List RowEntry)

-- An error, or a send to a full channel that nothing reads before the replay has ended: Open does not
-- return.
pub data ReplayStop : Type 0 where
  failed : DbError → ReplayStop
  blocked : ReplayStop

pub stop_at {ℓ} : {T : Type ℓ} → Result DbError T → Result ReplayStop T
stop_at (ok t) = ok t
stop_at (err e) = err (failed e)
stop_at panic = panic

-- The channel to the flusher has room for 255 messages; `sent` of them are in it.
pub send : Bool → ℕ → Result ReplayStop ℕ
send false sent = ok sent
send true sent = if ltb sent 255 then ok (sent + 1) else err blocked

-- `assert.True(sst.Id.WalID().IsPresent())`
pub assert_wal : Option ℕ → {A : Type 0} → Result ReplayStop A → Result ReplayStop A
assert_wal none rest = panic
assert_wal (some n) rest = rest

module _ {M : Type 0} (d : Deques) (sk : Skiplist M) where
  pub put_all : DbState d M → List RowEntry → Result ⊥ (DbState d M)
  put_all s [] = ok s
  put_all s (e ∷ es) = do s ← put_to_memtable d sk s e; put_all s es

module _ {M : Type 0} (d : Deques) (sk : Skiplist M) (limit : ℕ) where
  -- What a WAL that was read changes, with the messages that are in the channel then.
  pub replay_table : ℕ → DbState d M → ℕ → List RowEntry → Result ReplayStop (ℕ × DbState d M)
  replay_table sent s id es = do
    s ← stop_at (lift (put_all d sk s es))
    let (s, notify) = maybe_freeze_memtable d sk limit s id
    sent ← send notify sent
    ok (sent, if s.core.next_wal_sst_id == id then increment_next_wal_id d sk s else s)

  module _ (tables : WalTables) where
    -- The loop over the WALs, with the last id.
    pub replay_loop : ℕ → ℕ → List ℕ → DbState d M → Result ReplayStop (ℕ × DbState d M)
    replay_loop sent last [] s = ok (last, s)
    replay_loop sent last (id ∷ ids) s = do
      h ← stop_at (tables.open_table (new_id_wal id))
      assert_wal (wal_id h.id) (do
        es ← stop_at (tables.entries h)
        (sent, s) ← replay_table sent s id es
        replay_loop sent id ids s)

    -- replayWAL
    pub replay_wal : DbState d M → Result ReplayStop (DbState d M)
    replay_wal s = do
      ids ← stop_at (tables.list s.core.last_compacted_wal_sst_id)
      (last, s) ← replay_loop 0 s.core.last_compacted_wal_sst_id ids s
      if (last + 1) % 2 ^ 64 == s.core.next_wal_sst_id then ok s else panic
