-- ===== src/Db/Open.antt =====
-- OpenWithOptions, getManifest and newDB of slatedb/db.go: the state with which a database starts.
-- The channel to the flusher of the memtables has nobody who reads it until the state is there: an Open
-- that fails with `init_failed blocked` does not return. The goroutines and the compactor that
-- OpenWithOptions starts afterwards are left out.
pub mod Restart
mod Samples
use slatedb_go.Prelude.{ℕ, Option, none, some}
use slatedb_go.Prelude.Result.{Result, ok, err, panic, ◌>>=◌}
use slatedb_go.Sst.{Ulids}
use slatedb_go.Snapshot.{Snapshot, new_core, to_core_state}
use slatedb_go.Table.{Skiplist}
use slatedb_go.State.{Deques, DbState, new_db_state}
use slatedb_go.Manifest.{
  ManifestError, ManifestStore, writer_epoch, StoredManifest, FenceableManifest,
  load_stored_manifest, new_stored_manifest, new_fenceable, db_state,
}
use slatedb_go.Db.Replay.{WalTables, ReplayStop, replay_wal}

pub data OpenError : Type 0 where
  manifest_failed : ManifestError → OpenError
  init_failed : ReplayStop → OpenError

pub map_err {ℓ} : {E F : Type 0} {T : Type ℓ} → (E → F) → Result E T → Result F T
map_err f (ok t) = ok t
map_err f (err e) = err (f e)
map_err f panic = panic

module _ {S : Type 0} (u : Ulids) (st : ManifestStore S) where
  -- The stored manifest, or a new one for an empty store.
  pub stored_or_new : S → Option StoredManifest → Result ManifestError (S × StoredManifest)
  stored_or_new s none = new_stored_manifest u st s new_core
  stored_or_new s (some m) = ok (s, m)

  pub get_manifest : S → Result ManifestError (S × FenceableManifest)
  get_manifest s = do
    o ← load_stored_manifest u st s
    (t, m) ← stored_or_new s o
    new_fenceable u st writer_epoch t m

module _ {M : Type 0} (d : Deques) (sk : Skiplist M) (limit : ℕ) (tables : WalTables) where
  pub new_db : Snapshot → Result ReplayStop (DbState d M)
  new_db core = replay_wal d sk limit tables (new_db_state d sk core)

module _ {M S : Type 0} (d : Deques) (sk : Skiplist M) (limit : ℕ) (tables : WalTables) (u : Ulids)
    (st : ManifestStore S) where
  pub open_with_options : S → Result OpenError (S × FenceableManifest × DbState d M)
  open_with_options s = do
    (t, f) ← map_err manifest_failed (get_manifest u st s)
    core ← map_err manifest_failed (db_state u st f)
    db ← map_err init_failed (new_db d sk limit tables (to_core_state u core))
    ok (t, f, db)
