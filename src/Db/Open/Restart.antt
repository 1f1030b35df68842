-- ===== src/Db/Open/Restart.antt =====
-- A database that is opened again (slatedb/db.go).
use slatedb_go.Prelude.{
  length, ℕ, suc, ◌+◌, ◌%◌, ◌^◌, ◌<◌, ◌≤◌, ◌≡◌, refl, ap, ◌∙◌, none, some, List, [],
}
use slatedb_go.Prelude.Bytes.{Bytes}
use slatedb_go.Prelude.Result.{ok}
use slatedb_go.Types.{RowEntry}
use slatedb_go.Sst.{Ulids}
use slatedb_go.Snapshot.{Snapshot, to_core_state, take_snapshot, clone}
use slatedb_go.Table.{Skiplist, new_memtable}
use slatedb_go.Table.Entries.{IsOrderedMap}
use slatedb_go.Table.Put.{new_table-IsTable}
use slatedb_go.State.{Deques, IsDeque, DbState, new_db_state}
use slatedb_go.Manifest.{
  Manifest, ManifestStore, writer_epoch, FenceableManifest, add_epoch, epoch_of, db_state,
}
use slatedb_go.Manifest.Fencing.{new_fenceable_lem}
use slatedb_go.Manifest.Steps.{db_state-same, load-latest}
use slatedb_go.Db.{committed, search, find_in_memory, tables_at, memory_tables}
use slatedb_go.Db.Freeze.{search-new_table}
use slatedb_go.Db.Replay.{WalTables}
use slatedb_go.Db.Replay.Reads.{overlay_tables, IsFrom, last_of, Holds, replay_wal_lem}
use slatedb_go.Db.Open.{map_err, stored_or_new, get_manifest, new_db, open_with_options}

module _ {S : Type 0} (u : Ulids) (st : ManifestStore S) where
  -- The latest manifest is taken over with the next epoch.
  get_manifest_lem :
      (s t : S) (id : ℕ) (m : Manifest)
      → st.latest s ≡ ok (some (id, m))
      → st.write s ((id + 1) % 2 ^ 64) (add_epoch writer_epoch m) ≡ ok t
      → let f : FenceableManifest = record {
        stored = record { id = (id + 1) % 2 ^ 64; manifest = add_epoch writer_epoch m };
        local_epoch = epoch_of writer_epoch (add_epoch writer_epoch m);
        epoch_type = writer_epoch;
      } in
        (get_manifest u st s ≡ ok (t, f))
        × (db_state u st f ≡ ok (take_snapshot u (add_epoch writer_epoch m).core))
  unfolding get_manifest stored_or_new
  get_manifest_lem s t id m e written = (
    rw (load-latest u st s id m e, get_manifest)
        (new_fenceable_lem u st writer_epoch s t id m written),
    db_state-same u st _ refl,
  )

module _ {M S : Type 0} (d : Deques) (sk : Skiplist M) (q : IsDeque d) (o : IsOrderedMap sk)
    (u : Ulids) (st : ManifestStore S) where
  new_state-empty :
      (core : Snapshot) (k : Bytes)
      → find_in_memory d sk (new_db_state d sk core) committed k ≡ ok none
  unfolding find_in_memory tables_at memory_tables search new_db_state new_memtable
  new_state-empty core k = rw q.items-new (search-new_table d sk q o [] k)

  -- A database is opened again whose latest manifest is in the store, and whose WALs behind the last
  -- compacted one, at most 255, have consecutive ids below 2 ^ 63 - 1, reach the next id of the
  -- manifest and can be read. If the store takes the manifest with the next id and the next epoch of
  -- the writer, then Open ends without a panic or an error: it holds that manifest with its epoch, WALs
  -- are counted on behind the last, and a committed read of the memory gives what the WALs, one after
  -- another, have.
  pub open_with_options_lem :
      (limit : ℕ) (w : WalTables) (ids : List ℕ) (ess : List (List RowEntry)) (s t : S) (id : ℕ)
      (m : Manifest)
      → let a = m.core.last_compacted_wal_sst_id in
        let n : Manifest = record m { writer_epoch = (m.writer_epoch + 1) % 2 ^ 64 } in
        st.latest s ≡ ok (some (id, m))
        → st.write s ((id + 1) % 2 ^ 64) n ≡ ok t
        → w.list a ≡ ok ids
        → length ids ≤ 255
        → IsFrom a ids
        → Holds w ids ess
        → suc (last_of a ids) < 2 ^ 63
        → a < m.core.next_wal_sst_id
        → m.core.next_wal_sst_id ≤ suc (last_of a ids)
        → (db : DbState d M) × (open_with_options d sk limit w u st s
            ≡ ok (
              t,
              record {
                stored = record { id = (id + 1) % 2 ^ 64; manifest = n };
                local_epoch = n.writer_epoch;
                epoch_type = writer_epoch;
              },
              db,
            ))
          × (db.core.next_wal_sst_id ≡ suc (last_of a ids))
          × ((k : Bytes) → find_in_memory d sk db committed k ≡ overlay_tables k ess (ok none))
  unfolding open_with_options map_err new_db to_core_state take_snapshot clone new_db_state
      add_epoch epoch_of new_memtable
  open_with_options_lem limit w ids ess s t id m now written listed few from has small less reach =
      let (got, state) = get_manifest_lem u st s t id m now written in
      let core = to_core_state u (take_snapshot u m.core) in
      let (db, done, count, reads) =
        replay_wal_lem d sk q o limit w ids ess (new_db_state d sk core) listed few from has small
          less reach (new_table-IsTable sk o) in
      let n : Manifest = record m { writer_epoch = (m.writer_epoch + 1) % 2 ^ 64 } in
      let f : FenceableManifest = record {
        stored = record { id = (id + 1) % 2 ^ 64; manifest = n };
        local_epoch = n.writer_epoch;
        epoch_type = writer_epoch;
      } in
      let result : open_with_options d sk limit w u st s ≡ ok (t, f, db) =
        rw (got, open_with_options) (rw state (rw done refl)) in
      (db, result, count, λ k. reads k ∙ ap (overlay_tables k ess) (new_state-empty core k))
